-- ===== src/MapReduce/TasksDone.antt =====
-- src/mapreduce/schedule.go and src/mapreduce/master.go: what a phase leaves in the files when its tasks
-- are done by workers.
use mit6824_distribute_syste.Prelude.{
  ℕ, ◌+◌, ◌<◌, ◌≡◌, ◌≢◌, sym, some, List, ◌∷◌, ◌++◌, arith, ◌==◌, if◌then◌else◌, ℕ_discrete,
}
use mathlib.Core.Path.{subst}
use mit6824_distribute_syste.Prelude.Text.{Text}
use mit6824_distribute_syste.MapReduce.Common.{KeyValue, JobPhase, DoTaskArgs}
use mit6824_distribute_syste.MapReduce.Files.{Files, Json}
use mit6824_distribute_syste.MapReduce.Sequential.{Master}
use mit6824_distribute_syste.MapReduce.Worker.{do_task}
use mit6824_distribute_syste.MapReduce.Schedule.{
  task_args, Scheduler, begin, ntasks, register, launch, succeed, fail, reassign, Returns,
}
use mit6824_distribute_syste.MapReduce.Scheduling.{
  calls, times, calls-middle, Accounts, begin-Accounts, Move-Accounts, Accounts-complete,
}
use mit6824_distribute_syste.MapReduce.Distributed.{OthersKept, Works, started, moved, partly}

-- What a phase needs of the files and what its tasks make of them.
pub record PhaseSpec (json : Json) (map_f : Text → Text → List KeyValue)
    (reduce_f : Text → List Text → Text) (mr : Master) (phase : JobPhase) (Inputs : Files → Type 0)
    (Made : ℕ → Files → Type 0) : Type 0 where
  pub inputs_kept :
      (t : ℕ) (fs fs' : Files) → OthersKept phase mr.job_name t fs fs' → Inputs fs → Inputs fs'
  pub made_kept :
      (t u : ℕ) (fs fs' : Files)
      → t ≢ u
      → OthersKept phase mr.job_name t fs fs'
      → Made u fs
      → Made u fs'
  pub does :
      (t : ℕ) (args : DoTaskArgs) (fs fs' : Files)
      → t < ntasks mr phase
      → task_args mr phase t ≡ some args
      → Inputs fs
      → do_task json map_f reduce_f args fs ≡ some fs'
      → Made t fs' × OthersKept phase mr.job_name t fs fs'

module _ {json : Json} {map_f : Text → Text → List KeyValue} {reduce_f : Text → List Text → Text}
    {mr : Master} {phase : JobPhase} {Inputs : Files → Type 0} {Made : ℕ → Files → Type 0}
    (spec : PhaseSpec json map_f reduce_f mr phase Inputs Made) where
  -- What has been done so far is there.
  record Progress (s : Scheduler) (fs : Files) : Type 0 where
    pub accounts : Accounts mr phase s
    pub inputs : Inputs fs
    pub made : (t : ℕ) → 0 < times t s.finished → Made t fs

  -- A task that is with a call is not done.
  running_not_done :
      (xs ys : List (Text × ℕ)) (w : Text) (t u : ℕ) {s : Scheduler}
      → Accounts mr phase s
      → s.running ≡ xs ++ (w, t) ∷ ys
      → 0 < times u s.finished
      → t ≢ u
  running_not_done xs ys w t u {s} a e done same =
      let c : calls u s.running ≡ (if t == u then 1 else 0) + calls u (xs ++ ys) =
        rw e (calls-middle u xs ys w t) in
      ground (arith, a.once u, c)

  running-lt :
      (xs ys : List (Text × ℕ)) (w : Text) (t : ℕ) {s : Scheduler}
      → Accounts mr phase s
      → s.running ≡ xs ++ (w, t) ∷ ys
      → t < ntasks mr phase
  running-lt xs ys w t {s} a e =
      let c : calls t s.running ≡ (if t == t then 1 else 0) + calls t (xs ++ ys) =
        rw e (calls-middle t xs ys w t) in
      ground (arith, a.once t, c, a.next_le)

  Works-Progress :
      {idle : List Text} {fs0 fs : Files} {s : Scheduler}
      → Inputs fs0
      → Works json map_f reduce_f mr phase idle fs0 s fs
      → Progress s fs
  unfolding begin
  Works-Progress {idle} i started = record {
    accounts = begin-Accounts mr phase idle;
    inputs = i;
    made = λ t lt. absurd (omega arith);
  }
  Works-Progress i (moved ws (register w) e) =
      let p = Works-Progress i ws in
      subst (Progress _) (sym e) (record {
        accounts = Move-Accounts mr phase (register w) p.accounts;
        inputs = p.inputs;
        made = p.made;
      })
  Works-Progress i (moved ws (launch xs ys w lt f) e) =
      let p = Works-Progress i ws in
      subst (Progress _) (sym e) (record {
        accounts = Move-Accounts mr phase (launch xs ys w lt f) p.accounts;
        inputs = p.inputs;
        made = p.made;
      })
  Works-Progress i (moved {fs = fs} {fs' = fs'} ws (succeed xs ys w t {args} look f) e) =
      let p = Works-Progress i ws in
      let (now, kept) =
        spec.does t args fs fs' (running-lt xs ys w t p.accounts f) look p.inputs e in
      record {
        accounts = Move-Accounts mr phase (succeed xs ys w t look f) p.accounts;
        inputs = spec.inputs_kept t fs fs' kept p.inputs;
        made = λ u lt. elim (ℕ_discrete t u) [
          | yes same ↦ subst (λ v. Made v fs') same now
          | no ne ↦ spec.made_kept t u fs fs' ne kept (p.made u (ground arith))
        ];
      }
  Works-Progress i (moved {fs = fs} {fs' = fs'} ws (fail xs ys w t look f) e) =
      let p = Works-Progress i ws in
      record {
        accounts = Move-Accounts mr phase (fail xs ys w t look f) p.accounts;
        inputs = spec.inputs_kept t fs fs' e p.inputs;
        made = λ u lt.
            spec.made_kept t u fs fs' (running_not_done xs ys w t u p.accounts f lt) e
              (p.made u lt);
      }
  Works-Progress i (moved ws (reassign xs ys us vs w w' t f g) e) =
      let p = Works-Progress i ws in
      subst (Progress _) (sym e) (record {
        accounts = Move-Accounts mr phase (reassign xs ys us vs w w' t f g) p.accounts;
        inputs = p.inputs;
        made = p.made;
      })
  Works-Progress i (partly xs ys w t {fs = fs} {fs' = fs'} ws f e) =
      let p = Works-Progress i ws in
      record {
        accounts = p.accounts;
        inputs = spec.inputs_kept t fs fs' e p.inputs;
        made = λ u lt.
            spec.made_kept t u fs fs' (running_not_done xs ys w t u p.accounts f lt) e
              (p.made u lt);
      }

  -- When `schedule` returns, every task has made what it should.
  pub phase_result :
      {idle : List Text} {fs0 fs : Files} {s : Scheduler}
      → Inputs fs0
      → Works json map_f reduce_f mr phase idle fs0 s fs
      → Returns mr phase s
      → Inputs fs × ((t : ℕ) → t < ntasks mr phase → Made t fs)
  phase_result i ws r =
      let p = Works-Progress i ws in
      (p.inputs, λ t lt. p.made t (ground (arith, (Accounts-complete mr phase t p.accounts r).0)))
