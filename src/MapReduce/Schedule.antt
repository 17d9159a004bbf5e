-- ===== src/MapReduce/Schedule.antt =====
-- src/mapreduce/schedule.go: the tasks of a phase are handed to workers over RPC. The main goroutine
-- and those of `execute` interleave; what each has done and waits for is in the state.
use mit6824_distribute_syste.Prelude.{
  ℕ, suc, ◌-◌, ◌<◌, ◌≡◌, Option, some, List, [], ◌∷◌, ◌++◌, length, get_elem?, ◌>>=◌,
}
use mit6824_distribute_syste.Prelude.Text.{Text}
use mit6824_distribute_syste.MapReduce.Common.{JobPhase, map_phase, reduce_phase, DoTaskArgs}
use mit6824_distribute_syste.MapReduce.Sequential.{Master}

-- The `switch` at the head of `schedule`: the number of tasks, and of inputs or outputs.
unfoldable pub phase_size : JobPhase → Master → ℕ × ℕ
phase_size map_phase mr = (length mr.files, mr.n_reduce)
phase_size reduce_phase mr = (mr.n_reduce, length mr.files)

-- The arguments of `execute`; `none` where `mr.files[taskId]` is out of range.
unfoldable pub task_args : Master → JobPhase → ℕ → Option DoTaskArgs
unfolding phase_size
task_args mr phase task = do
  file ← get_elem? mr.files task
  some (record {
    job_name = mr.job_name;
    file = file;
    phase = phase;
    task_number = task;
    num_other_phase = (phase_size phase mr).1;
  })

-- `idle`: goroutines that wait to send a worker on `registerChannel`. `running`: calls of `execute`
-- that wait for their RPC. `retrying`: calls whose RPC failed and that wait for another worker.
-- `wait_count` is the counter of the WaitGroup, `next` the task that the loop comes to.
pub record Scheduler : Type 0 where
  pub next : ℕ
  pub wait_count : ℕ
  pub idle : List Text
  pub running : List (Text × ℕ)
  pub retrying : List (Text × ℕ)
  pub finished : List ℕ

-- Before the loop.
unfoldable pub begin : ℕ → List Text → Scheduler
begin ntasks idle = record {
  next = 0;
  wait_count = ntasks;
  idle = idle;
  running = [];
  retrying = [];
  finished = [];
}

module _ (mr : Master) (phase : JobPhase) where
  abbrev pub ntasks : ℕ
  ntasks = (phase_size phase mr).0

  pub data Move (s : Scheduler) : Scheduler → Type 0 where
    -- `Register`: a new worker is sent on the channel.
    register : (w : Text) → Move s (record s { idle = s.idle ++ w ∷ [] })
    -- The loop receives a worker and starts `execute`.
    launch :
        (xs ys : List Text) (w : Text)
        → s.next < ntasks
        → s.idle ≡ xs ++ w ∷ ys
        → Move s
            (record s { next = suc s.next; idle = xs ++ ys; running = (w, s.next) ∷ s.running })
    -- The RPC succeeds: `wg.Done()`, and the worker is sent on the channel.
    succeed :
        (xs ys : List (Text × ℕ)) (w : Text) (t : ℕ) {args : DoTaskArgs}
        → task_args mr phase t ≡ some args
        → s.running ≡ xs ++ (w, t) ∷ ys
        → Move s (record s {
          wait_count = s.wait_count - 1;
          running = xs ++ ys;
          finished = t ∷ s.finished;
          idle = s.idle ++ w ∷ [];
        })
    -- The RPC fails: the call waits for another worker.
    fail :
        (xs ys : List (Text × ℕ)) (w : Text) (t : ℕ) {args : DoTaskArgs}
        → task_args mr phase t ≡ some args
        → s.running ≡ xs ++ (w, t) ∷ ys
        → Move s (record s { running = xs ++ ys; retrying = (w, t) ∷ s.retrying })
    -- It receives one: the task starts there, and the old worker is sent on the channel.
    reassign :
        (xs ys : List (Text × ℕ)) (us vs : List Text) (w w' : Text) (t : ℕ)
        → s.retrying ≡ xs ++ (w, t) ∷ ys
        → s.idle ≡ us ++ w' ∷ vs
        → Move s (record s {
          retrying = xs ++ ys;
          idle = (us ++ vs) ++ w ∷ [];
          running = (w', t) ∷ s.running;
        })

  pub data Moves (s : Scheduler) : Scheduler → Type 0 where
    here : Moves s s
    and_then : {t u : Scheduler} → Moves s t → Move t u → Moves s u

  -- `schedule` returns: the loop is over and `wg.Wait()` passes.
  pub record Returns (s : Scheduler) : Type 0 where
    pub launched : s.next ≡ ntasks
    pub waited : s.wait_count ≡ 0
