-- ===== src/MapReduce/Scheduling.antt =====
-- src/mapreduce/schedule.go: which tasks are done when `schedule` returns.
use mit6824_distribute_syste.Prelude.{
  ℕ, suc, ◌+◌, ◌<◌, ◌≤◌, ◌≡◌, ◌≢◌, refl, ap, none, some, List, [], ◌∷◌, ◌++◌, length, length-append,
  get_elem?-none, ltb, ◌==◌, if◌then◌else◌, arith,
}
use mit6824_distribute_syste.Prelude.Text.{Text}
use mit6824_distribute_syste.MapReduce.Common.{JobPhase, reduce_phase, DoTaskArgs}
use mit6824_distribute_syste.MapReduce.Sequential.{Master}
use mit6824_distribute_syste.MapReduce.Schedule.{
  task_args, Scheduler, begin, ntasks, Move, register, launch, succeed, fail, reassign, Moves, here,
  and_then, Returns,
}

-- How often a task is among the calls, and among the tasks done.
abbrev pub calls : ℕ → List (Text × ℕ) → ℕ
calls t [] = 0
calls t ((w, u) ∷ xs) = (if u == t then 1 else 0) + calls t xs

abbrev pub times : ℕ → List ℕ → ℕ
times t [] = 0
times t (u ∷ xs) = (if u == t then 1 else 0) + times t xs

calls-append : (t : ℕ) (xs ys : List (Text × ℕ)) → calls t (xs ++ ys) ≡ calls t xs + calls t ys
calls-append t [] ys = omega arith
calls-append t ((w, u) ∷ xs) ys = omega (arith, calls-append t xs ys)

pub calls-middle :
    (t : ℕ) (xs ys : List (Text × ℕ)) (w : Text) (u : ℕ)
    → calls t (xs ++ (w, u) ∷ ys) ≡ (if u == t then 1 else 0) + calls t (xs ++ ys)
calls-middle t xs ys w u = omega (arith, calls-append t xs ((w, u) ∷ ys), calls-append t xs ys)

pub length-middle {ℓ} :
    {A : Type ℓ} (xs ys : List A) (a : A) → length (xs ++ a ∷ ys) ≡ suc (length (xs ++ ys))
length-middle xs ys a = omega (arith, length-append xs (a ∷ ys), length-append xs ys)

pub append_cons-ne-nil {ℓ} :
    {A : Type ℓ} (xs ys : List A) (a : A) {zs : List A} → zs ≡ xs ++ a ∷ ys → zs ≡ [] → ⊥
append_cons-ne-nil [] ys a e h = cc
append_cons-ne-nil (x ∷ xs) ys a e h = cc

args_ne :
    (mr : Master) (phase : JobPhase) (t u : ℕ) {args : DoTaskArgs}
    → task_args mr phase t ≡ none
    → task_args mr phase u ≡ some args
    → u ≢ t
args_ne mr phase t u h k e =
    let same : task_args mr phase u ≡ task_args mr phase t = ap (task_args mr phase) e in cc

pub nil_of_length {ℓ} : {A : Type ℓ} (xs : List A) → length xs ≡ 0 → xs ≡ []
nil_of_length [] h = refl
nil_of_length (x ∷ xs) h = absurd (omega arith)

length-pos {ℓ} : {A : Type ℓ} (xs : List A) → xs ≢ [] → 0 < length xs
length-pos [] h = absurd (h refl)
length-pos (x ∷ xs) h = omega arith

module _ (mr : Master) (phase : JobPhase) where
  -- Each task that the loop has come to is with one call or is done, once in all, and the counter is
  -- what is left to do.
  pub record Accounts (s : Scheduler) : Type 0 where
    pub once :
        (t : ℕ)
        → calls t s.running + calls t s.retrying + times t s.finished
          ≡ (if ltb t s.next then 1 else 0)
    pub sum : length s.running + length s.retrying + length s.finished ≡ s.next
    pub next_le : s.next ≤ ntasks mr phase
    pub left : s.wait_count + length s.finished ≡ ntasks mr phase

  pub begin-Accounts : (idle : List Text) → Accounts (begin (ntasks mr phase) idle)
  unfolding begin
  begin-Accounts idle = record {
    once = λ t. ground arith;
    sum = omega arith;
    next_le = omega arith;
    left = omega arith;
  }

  pub Move-Accounts : {s s' : Scheduler} → Move mr phase s s' → Accounts s → Accounts s'
  Move-Accounts (register w) a = record {
    once = a.once;
    sum = a.sum;
    next_le = a.next_le;
    left = a.left;
  }
  Move-Accounts {s} (launch xs ys w lt e) a = record {
    once = λ t. ground (arith, a.once t);
    sum = omega (arith, a.sum);
    next_le = omega arith;
    left = a.left;
  }
  Move-Accounts {s} (succeed xs ys w t args e) a =
      let len : length s.running ≡ suc (length (xs ++ ys)) = rw e (length-middle xs ys (w, t)) in
      record {
        once = λ u.
            let c : calls u s.running ≡ (if t == u then 1 else 0) + calls u (xs ++ ys) =
              rw e (calls-middle u xs ys w t) in
            omega (arith, a.once u, c);
        sum = omega (arith, a.sum);
        next_le = a.next_le;
        left = omega (arith, a.left, a.sum, a.next_le);
      }
  Move-Accounts {s} (fail xs ys w t args e) a =
      let len : length s.running ≡ suc (length (xs ++ ys)) = rw e (length-middle xs ys (w, t)) in
      record {
        once = λ u.
            let c : calls u s.running ≡ (if t == u then 1 else 0) + calls u (xs ++ ys) =
              rw e (calls-middle u xs ys w t) in
            omega (arith, a.once u, c);
        sum = omega (arith, a.sum);
        next_le = a.next_le;
        left = a.left;
      }
  Move-Accounts {s} (reassign xs ys us vs w w' t e _) a =
      let len : length s.retrying ≡ suc (length (xs ++ ys)) = rw e (length-middle xs ys (w, t)) in
      record {
        once = λ u.
            let c : calls u s.retrying ≡ (if t == u then 1 else 0) + calls u (xs ++ ys) =
              rw e (calls-middle u xs ys w t) in
            omega (arith, a.once u, c);
        sum = omega (arith, a.sum);
        next_le = a.next_le;
        left = a.left;
      }

  pub Moves-Accounts : {s s' : Scheduler} → Accounts s → Moves mr phase s s' → Accounts s'
  Moves-Accounts a here = a
  Moves-Accounts a (and_then ms m) = Move-Accounts m (Moves-Accounts a ms)

  pub Accounts-complete :
      (t : ℕ) {s : Scheduler}
      → Accounts s
      → Returns mr phase s
      → (times t s.finished ≡ (if ltb t (ntasks mr phase) then 1 else 0))
        × (s.running ≡ [])
        × (s.retrying ≡ [])
  Accounts-complete t {s} a r =
      let no_running : s.running ≡ [] =
        nil_of_length s.running (omega (arith, a.sum, a.left, a.next_le)) in
      let no_retrying : s.retrying ≡ [] =
        nil_of_length s.retrying (omega (arith, a.sum, a.left, a.next_le)) in
      (ground (arith, a.once t), no_running, no_retrying)

  -- Whatever workers register, fail and come back, in any order: when `schedule` returns, every task
  -- of the phase has succeeded exactly once, no other has, and no call of `execute` waits for its RPC or,
  -- after a failure, for another worker. Calls that wait to give their worker back may be left.
  pub phase_complete :
      (idle : List Text) {s : Scheduler} (t : ℕ)
      → Moves mr phase (begin (ntasks mr phase) idle) s
      → Returns mr phase s
      → (times t s.finished ≡ (if ltb t (ntasks mr phase) then 1 else 0))
        × (s.running ≡ [])
        × (s.retrying ≡ [])
  phase_complete idle t ms r = Accounts-complete t (Moves-Accounts (begin-Accounts idle) ms) r

  -- The WaitGroup's counter does not go below 0: it is positive while a call is out.
  pub wait_count-pos :
      (idle : List Text) {s : Scheduler}
      → Moves mr phase (begin (ntasks mr phase) idle) s
      → s.running ≢ []
      → 0 < s.wait_count
  wait_count-pos idle {s} ms busy =
      let a = Moves-Accounts (begin-Accounts idle) ms in
      omega (arith, a.sum, a.left, a.next_le, length-pos s.running busy)

  -- A task without arguments is never done.
  never_done :
      (idle : List Text) {s : Scheduler} (t : ℕ)
      → task_args mr phase t ≡ none
      → Moves mr phase (begin (ntasks mr phase) idle) s
      → times t s.finished ≡ 0
  unfolding begin
  never_done idle t h here = refl
  never_done idle t h (and_then ms (register w)) = never_done idle t h ms
  never_done idle t h (and_then ms (launch xs ys w lt e)) = never_done idle t h ms
  never_done idle t h (and_then ms (succeed xs ys w u args e)) =
      ground (arith, never_done idle t h ms, args_ne mr phase t u h args)
  never_done idle t h (and_then ms (fail xs ys w u args e)) = never_done idle t h ms
  never_done idle t h (and_then ms (reassign xs ys us vs w w' u e f)) = never_done idle t h ms

-- `execute` looks up `mr.files[taskId]` in both phases. With more reduce tasks than input files the
-- reduce phase never returns, whatever the workers do.
pub reduce_phase_stuck :
    (mr : Master) (idle : List Text) {s : Scheduler}
    → length mr.files < mr.n_reduce
    → Moves mr reduce_phase (begin (ntasks mr reduce_phase) idle) s
    → ¬ Returns mr reduce_phase s
unfolding task_args
reduce_phase_stuck mr idle {s} more ms r =
    let t = length mr.files in
    let out : task_args mr reduce_phase t ≡ none = rw (get_elem?-none mr.files t (omega arith)) in
    let once = phase_complete mr reduce_phase idle t ms r in
    let zero_times = never_done mr reduce_phase idle t out ms in ground (arith, once, zero_times)
