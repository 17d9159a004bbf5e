-- ===== src/MapReduce/DistributedJob.antt =====
-- src/mapreduce/master.go, `Distributed`: a job on workers ends as a sequential one does.
use mit6824_distribute_syste.Prelude.{
  ℕ, ◌<◌, ◌≡◌, refl, sym, ap, ◌∙◌, Option, some, List, arith, length, get_elem?, Option-cases, inl,
  inr,
}
use mathlib.Core.Path.{subst}
use mit6824_distribute_syste.Prelude.Text.{Text}
use mit6824_distribute_syste.MapReduce.Common.{
  KeyValue, map_phase, reduce_phase, DoTaskArgs, JobPhase, ShutdownReply, reduce_name, merge_name,
  reduce_name-injective, reduce_name-ne-merge_name, merge_name-injective, output_name,
}
use mit6824_distribute_syste.MapReduce.Files.{Files, open_file, Json, IsJson, encode_all}
use mit6824_distribute_syste.MapReduce.Map.{bucket}
use mit6824_distribute_syste.MapReduce.Partition.{do_map_lem}
use mit6824_distribute_syste.MapReduce.Reducing.{gather, do_reduce_output}
use mit6824_distribute_syste.MapReduce.Merge.{lines}
use mit6824_distribute_syste.MapReduce.Sequential.{Master, new_master, assign_job, sequential}
use mit6824_distribute_syste.MapReduce.Phases.{emitted, Inputs}
use mit6824_distribute_syste.MapReduce.Schedule.{task_args, phase_size}
use mit6824_distribute_syste.MapReduce.Worker.{do_task, kill_workers}
use mit6824_distribute_syste.MapReduce.WholeJob.{JobDone, task_output, merged_job, sequential_lem}
use mit6824_distribute_syste.MapReduce.Grouping.{values_of}
use mit6824_distribute_syste.MapReduce.Ordered.{Ascends-unique}
use mit6824_distribute_syste.MapReduce.Distributed.{OthersKept, job_master, finish_job, Phases}
use mit6824_distribute_syste.MapReduce.TasksDone.{PhaseSpec, phase_result}

same_some {ℓ} : {A : Type ℓ} {o : Option A} {a b : A} → o ≡ some a → o ≡ some b → a ≡ b
same_some h k = cc

abbrev task_file : Master → JobPhase → ℕ → Text → DoTaskArgs
task_file mr phase t file = record {
  job_name = mr.job_name;
  file = file;
  phase = phase;
  task_number = t;
  num_other_phase = (phase_size phase mr).1;
}

task_args-some :
    (mr : Master) (phase : JobPhase) (t : ℕ) {args : DoTaskArgs}
    → task_args mr phase t ≡ some args
    → (file : Text) × (get_elem? mr.files t ≡ some file) × (task_file mr phase t file ≡ args)
unfolding task_args
task_args-some mr phase t {args} e = elim (Option-cases (get_elem? mr.files t)) [
  | inl none_there ↦ absurd (ground (arith, none_there, e))
  | inr (file, at) ↦ (file, at, same_some (rw at refl) e)
]

emitted-some :
    (map_f : Text → Text → List KeyValue) (contents : Text → Text) (files : List Text) (q : ℕ)
    {f : Text}
    → get_elem? files q ≡ some f
    → map_f f (contents f) ≡ emitted map_f contents files q
emitted-some map_f contents files q at = rw (at, emitted) refl

module _ {json : Json} (codec : IsJson json) (map_f : Text → Text → List KeyValue)
    (reduce_f : Text → List Text → Text) (contents : Text → Text) (mr : Master)
    (pos : 0 < mr.n_reduce) (small : mr.n_reduce < 4294967296) where
  -- The intermediate files of a map task.
  abbrev Buckets : ℕ → Files → Type 0
  Buckets t fs =
      (r : ℕ)
      → r < mr.n_reduce
      → open_file (reduce_name mr.job_name t r) fs
        ≡ some (encode_all json (bucket mr.n_reduce r (emitted map_f contents mr.files t)))

  map_spec :
      PhaseSpec json map_f reduce_f mr map_phase (Inputs contents mr.job_name mr.files) Buckets
  unfolding do_task phase_size
  map_spec = record {
    inputs_kept = λ t fs fs' kept i. record {
      there = λ q f at. kept f (λ own. i.apart q f at t own.0 own.1) ∙ i.there q f at;
      apart = i.apart;
    };
    made_kept = λ t u fs fs' ne kept made r lt.
        kept (reduce_name mr.job_name u r)
          (λ own. ne (reduce_name-injective mr.job_name t own.0 u r own.1).0)
        ∙ made r lt;
    does = λ t args fs fs' lt look i done.
        let (file, at, same) = task_args-some mr map_phase t look in
        let (fs1, mapped, m) =
          do_map_lem mr.job_name t json file (contents file) mr.n_reduce map_f fs pos small
            (i.there t file at) in
        let e : fs1 ≡ fs' =
          same_some mapped
            (subst (λ a. do_task json map_f reduce_f a fs ≡ some fs') (sym same) done) in
        let out : Buckets t fs1 × OthersKept map_phase mr.job_name t fs fs1 = (
          (λ r r_lt.
              subst
                (λ kvs.
                  open_file (reduce_name mr.job_name t r) fs1
                  ≡ some (encode_all json (bucket mr.n_reduce r kvs)))
                (emitted-some map_f contents mr.files t at) (m.buckets r r_lt)),
          (λ j apart. m.others j (λ r own. apart (r, own))),
        ) in
        subst (λ f. Buckets t f × OthersKept map_phase mr.job_name t fs f) e out;
  }

  -- All intermediate files, and the output of a reduce task.
  abbrev AllBuckets : Files → Type 0
  AllBuckets fs = (t : ℕ) → t < length mr.files → Buckets t fs

  abbrev Output : ℕ → Files → Type 0
  Output r fs =
      open_file (merge_name mr.job_name r) fs
      ≡ some (
          encode_all json
            (task_output codec map_f reduce_f contents mr.job_name mr.n_reduce mr.files r))

  reduce_spec : PhaseSpec json map_f reduce_f mr reduce_phase AllBuckets Output
  unfolding do_task phase_size
  reduce_spec = record {
    inputs_kept = λ t fs fs' kept i q q_lt r r_lt.
        kept (reduce_name mr.job_name q r)
          (λ own. reduce_name-ne-merge_name mr.job_name q r t (sym own))
        ∙ i q q_lt r r_lt;
    made_kept = λ t u fs fs' ne kept made.
        kept (merge_name mr.job_name u) (λ own. ne (merge_name-injective mr.job_name t u own))
        ∙ made;
    does = λ t args fs fs' lt look i done.
        let (file, at, same) = task_args-some mr reduce_phase t look in
        let (fs1, reduced, written, others) =
          do_reduce_output codec mr.job_name t (length mr.files) reduce_f
            (λ q. bucket mr.n_reduce t (emitted map_f contents mr.files q)) fs
            (λ q q_lt. i q q_lt t lt) in
        let e : fs1 ≡ fs' =
          same_some reduced
            (subst (λ a. do_task json map_f reduce_f a fs ≡ some fs') (sym same) done) in
        let out : Output t fs1 × OthersKept reduce_phase mr.job_name t fs fs1 = (written, others) in
        subst (λ f. Output t f × OthersKept reduce_phase mr.job_name t fs f) e out;
  }

  made_outputs :
      (fs fs' : Files)
      → Inputs contents mr.job_name mr.files fs
      → Phases json map_f reduce_f mr fs fs'
      → (r : ℕ) → r < mr.n_reduce
      → Output r fs'
  unfolding phase_size
  made_outputs fs fs' i p =
      let all = (phase_result map_spec i p.map_run p.map_returns).1 in
      (phase_result reduce_spec all p.reduce_run p.reduce_returns).1

module _ {json : Json} (codec : IsJson json) (map_f : Text → Text → List KeyValue)
    (reduce_f : Text → List Text → Text) (contents : Text → Text) (job : Text) where
  -- Once both phases of a distributed job have returned, the job ends, and its output is that of the two
  -- functions alone. The conditions are those of a sequential job. Workers may register, fail and come
  -- back at any time, a failed task may have left any part of its work, and tasks may be done in any
  -- order.
  pub distributed_lem :
      (address : Text) (workers : List Text) (call : Text → Option ShutdownReply) (n : ℕ)
      (files : List Text) (fs fs' : Files)
      → 0 < n
      → n < 4294967296
      → Inputs contents job files fs
      → Phases json map_f reduce_f (job_master address job files n workers) fs fs'
      → (mr : Master) × (final : Files) × (finish_job json call
            (job_master address job files n workers)
            fs'
          ≡ some (mr, final))
        × JobDone map_f reduce_f contents job files final
  unfolding finish_job job_master new_master assign_job
  distributed_lem address workers call n files fs fs' pos small i p =
      let mr = job_master address job files n workers in
      let made = made_outputs codec map_f reduce_f contents mr pos small fs fs' i p in
      let (final, merged, done) =
        merged_job codec map_f reduce_f contents job n files fs' pos small made in
      (record mr { stats = kill_workers call workers }, final, rw merged refl, done)

  JobDone-unique :
      (files : List Text) (fs fs' : Files)
      → JobDone map_f reduce_f contents job files fs
      → JobDone map_f reduce_f contents job files fs'
      → open_file (output_name job) fs ≡ open_file (output_name job) fs'
  JobDone-unique files fs fs' a b =
      let same : a.keys ≡ b.keys =
        Ascends-unique a.keys b.keys a.ascending b.ascending
          (λ k. a.complete k ∙ sym (b.complete k)) in
      a.written
      ∙ ap
          (λ keys. some (
            lines
              (λ k.
                reduce_f k (values_of k (gather (emitted map_f contents files) 0 (length files))))
              keys))
          same
      ∙ sym b.written

  -- Under the conditions of `distributed_lem`, a sequential job from the same files, with any number of
  -- reduce tasks that is not 0 and fits 32 bits, ends as well, with the same output file.
  pub distributed-sequential :
      (address : Text) (workers : List Text) (call : Text → Option ShutdownReply) (n n' : ℕ)
      (files : List Text) (fs fs' : Files)
      → 0 < n
      → n < 4294967296
      → 0 < n'
      → n' < 4294967296
      → Inputs contents job files fs
      → Phases json map_f reduce_f (job_master address job files n workers) fs fs'
      → (mr mr' : Master) × (final alone : Files) × (finish_job json call
            (job_master address job files n workers)
            fs'
          ≡ some (mr, final))
        × (sequential json map_f reduce_f job files n' fs ≡ some (mr', alone))
        × (open_file (output_name job) final ≡ open_file (output_name job) alone)
  distributed-sequential address workers call n n' files fs fs' pos small pos' small' i p =
      let (mr, final, ends, done) =
        distributed_lem address workers call n files fs fs' pos small i p in
      let (mr', alone, ends', done') =
        sequential_lem codec map_f reduce_f contents job n' files fs pos' small' i in
      (mr, mr', final, alone, ends, ends', JobDone-unique files final alone done done')
