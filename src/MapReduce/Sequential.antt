-- ===== src/MapReduce/Sequential.antt =====
-- src/mapreduce/master.go: a job whose tasks run one after another in the master.
use mit6824_distribute_syste.Prelude.{
  ℕ, zero, suc, ◌+◌, Option, none, some, List, [], ◌∷◌, length, ◌>>=◌,
}
use mit6824_distribute_syste.Prelude.Int.{ℤ, pos}
use mit6824_distribute_syste.Prelude.Text.{Text}
use mit6824_distribute_syste.MapReduce.Common.{KeyValue, JobPhase, map_phase, reduce_phase}
use mit6824_distribute_syste.MapReduce.Files.{Files, Json}
use mit6824_distribute_syste.MapReduce.Map.{do_map}
use mit6824_distribute_syste.MapReduce.Reduce.{do_reduce}
use mit6824_distribute_syste.MapReduce.Merge.{merge}

-- The fields of `Master` that are no channel and no listener.
pub record Master : Type 0 where
  pub address : Text
  pub workers : List Text
  pub job_name : Text
  pub files : List Text
  pub n_reduce : ℕ
  pub stats : List ℤ

-- `newMaster`
unfoldable pub new_master : Text → Master
new_master address = record {
  address = address;
  workers = [];
  job_name = [];
  files = [];
  n_reduce = 0;
  stats = [];
}

-- The first lines of `run`.
unfoldable pub assign_job : Text → List Text → ℕ → Master → Master
assign_job job_name files n_reduce mr = record mr {
  job_name = job_name;
  files = files;
  n_reduce = n_reduce;
}

module _ (json : Json) (map_f : Text → Text → List KeyValue)
    (reduce_f : Text → List Text → Text) where
  -- `for i, f := range mr.files`
  unfoldable pub run_maps : Text → ℕ → ℕ → List Text → Files → Option Files
  run_maps job_name n_reduce i [] fs = some fs
  run_maps job_name n_reduce i (f ∷ files) fs = elim (do_map json job_name i f n_reduce map_f fs) [
    | none ↦ none
    | some fs' ↦ run_maps job_name n_reduce (i + 1) files fs'
  ]

  -- `for i := 0; i < mr.nReduce; i++`
  unfoldable pub run_reduces : Text → ℕ → ℕ → ℕ → Files → Option Files
  run_reduces job_name n_map i zero fs = some fs
  run_reduces job_name n_map i (suc left) fs = elim (do_reduce json job_name i n_map reduce_f fs) [
    | none ↦ none
    | some fs' ↦ run_reduces job_name n_map (i + 1) left fs'
  ]

  -- The function that `Sequential` gives to `run` as `schedule`.
  unfoldable pub run_phase : JobPhase → Master → Files → Option Files
  run_phase map_phase mr fs = run_maps mr.job_name mr.n_reduce 0 mr.files fs
  run_phase reduce_phase mr fs = run_reduces mr.job_name (length mr.files) 0 mr.n_reduce fs

  -- `Sequential`: the master and the files when `Wait` returns.
  unfoldable pub sequential : Text → List Text → ℕ → Files → Option (Master × Files)
  unfolding new_master assign_job run_phase
  sequential job_name files n_reduce fs = do
    let address : Text = b'm' ∷ (b'a' ∷ (b's' ∷ (b't' ∷ (b'e' ∷ (b'r' ∷ [])))))
    let mr = assign_job job_name files n_reduce (new_master address)
    fs1 ← run_phase map_phase mr fs
    fs2 ← run_phase reduce_phase mr fs1
    let mr1 = record mr { stats = pos (length files + n_reduce) ∷ [] }
    fs3 ← merge json mr1.job_name mr1.n_reduce fs2
    some (mr1, fs3)
