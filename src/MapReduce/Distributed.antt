-- ===== src/MapReduce/Distributed.antt =====
-- src/mapreduce/master.go, `Distributed`: the steps of MapReduce/Schedule.antt with the files that the
-- workers share, and a job from the first task to the merge. A task that succeeds takes its effect when
-- its RPC does; before that, and before its RPC fails, it may have written any of its own files. A
-- worker whose RPC failed has ended, so it writes nothing later.
use mit6824_distribute_syste.Prelude.{ℕ, ◌≡◌, Option, some, List, [], ◌∷◌, ◌++◌, ◌>>=◌}
use mit6824_distribute_syste.Prelude.Text.{Text}
use mit6824_distribute_syste.MapReduce.Common.{
  KeyValue, JobPhase, map_phase, reduce_phase, ShutdownReply, reduce_name, merge_name,
}
use mit6824_distribute_syste.MapReduce.Files.{Files, open_file, Json}
use mit6824_distribute_syste.MapReduce.Merge.{merge}
use mit6824_distribute_syste.MapReduce.Sequential.{Master, new_master, assign_job}
use mit6824_distribute_syste.MapReduce.Schedule.{
  Scheduler, begin, ntasks, Move, register, launch, succeed, fail, reassign, Returns,
}
use mit6824_distribute_syste.MapReduce.Worker.{do_task, kill_workers}

-- The files that a task writes.
abbrev pub Writes : JobPhase → Text → ℕ → Text → Type 0
Writes map_phase job t j = (r : ℕ) × (reduce_name job t r ≡ j)
Writes reduce_phase job t j = merge_name job t ≡ j

-- Only a task's own files have changed.
abbrev pub OthersKept : JobPhase → Text → ℕ → Files → Files → Type 0
OthersKept phase job t fs fs' =
    (j : Text) → ¬ Writes phase job t j → open_file j fs' ≡ open_file j fs

module _ (json : Json) (map_f : Text → Text → List KeyValue) (reduce_f : Text → List Text → Text)
    (mr : Master) (phase : JobPhase) where
  -- What a step of the scheduler does to the files.
  abbrev pub Effect : {s s' : Scheduler} → Move mr phase s s' → Files → Files → Type 0
  Effect (register w) fs fs' = fs' ≡ fs
  Effect (launch xs ys w lt e) fs fs' = fs' ≡ fs
  Effect (succeed xs ys w t {args} look e) fs fs' = do_task json map_f reduce_f args fs ≡ some fs'
  Effect (fail xs ys w t look e) fs fs' = OthersKept phase mr.job_name t fs fs'
  Effect (reassign xs ys us vs w w' t e f) fs fs' = fs' ≡ fs

  -- `schedule` as it goes on, with its workers, from the files `fs0` on.
  pub data Works (idle : List Text) (fs0 : Files) : Scheduler → Files → Type 0 where
    started : Works idle fs0 (begin (ntasks mr phase) idle) fs0
    moved :
        {s s' : Scheduler} {fs fs' : Files}
        → Works idle fs0 s fs
        → (m : Move mr phase s s') → Effect m fs fs'
        → Works idle fs0 s' fs'
    partly :
        (xs ys : List (Text × ℕ)) (w : Text) (t : ℕ) {s : Scheduler} {fs fs' : Files}
        → Works idle fs0 s fs
        → s.running ≡ xs ++ (w, t) ∷ ys
        → OthersKept phase mr.job_name t fs fs'
        → Works idle fs0 s fs'

-- The master of a job as `run` sets it up, with the workers that have registered.
unfoldable pub job_master : Text → Text → List Text → ℕ → List Text → Master
unfolding new_master assign_job
job_master address job files n workers = record (assign_job job files n (new_master address)) {
  workers = workers;
}

-- The end of `run`: `finish` kills the workers and keeps their counts, and the outputs are merged.
unfoldable pub finish_job :
    Json → (Text → Option ShutdownReply) → Master → Files → Option (Master × Files)
unfolding kill_workers
finish_job json call mr fs = do
  let mr1 = record mr { stats = kill_workers call mr.workers }
  fs' ← merge json mr1.job_name mr1.n_reduce fs
  some (mr1, fs')

-- Both calls of `schedule` in `run`, from the files `fs` on; the channel of the first keeps the workers
-- that wait on it for the second.
pub record Phases (json : Json) (map_f : Text → Text → List KeyValue)
    (reduce_f : Text → List Text → Text) (mr : Master) (fs fs' : Files) : Type 0 where
  pub mapped : Scheduler
  pub between : Files
  pub reduced : Scheduler
  pub map_run : Works json map_f reduce_f mr map_phase [] fs mapped between
  pub map_returns : Returns mr map_phase mapped
  pub reduce_run : Works json map_f reduce_f mr reduce_phase mapped.idle between reduced fs'
  pub reduce_returns : Returns mr reduce_phase reduced
