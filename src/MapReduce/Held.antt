-- ===== src/MapReduce/Held.antt =====
-- src/mapreduce/schedule.go: `execute` receives a further worker before it gives its own back.
use mit6824_distribute_syste.Prelude.{
  ℕ, suc, ◌+◌, ◌<◌, ◌≤◌, ◌≡◌, refl, ap, ◌∙◌, List, [], ◌∷◌, ◌++◌, length, length-append, arith,
}
use mit6824_distribute_syste.Prelude.Text.{Text}
use mit6824_distribute_syste.MapReduce.Common.{JobPhase}
use mit6824_distribute_syste.MapReduce.Sequential.{Master}
use mit6824_distribute_syste.MapReduce.Schedule.{
  Scheduler, begin, ntasks, register, launch, succeed, fail, reassign, Moves, here, and_then,
  Returns,
}
use mit6824_distribute_syste.MapReduce.Scheduling.{
  length-middle, append_cons-ne-nil, nil_of_length, begin-Accounts, Moves-Accounts,
}

module _ (mr : Master) (phase : JobPhase) where
  -- How many workers have registered in a run.
  abbrev pub registered : {s s' : Scheduler} → Moves mr phase s s' → ℕ
  registered here = 0
  registered (and_then ms (register w)) = suc (registered ms)
  registered (and_then ms (launch xs ys w lt e)) = registered ms
  registered (and_then ms (succeed xs ys w t args e)) = registered ms
  registered (and_then ms (fail xs ys w t args e)) = registered ms
  registered (and_then ms (reassign xs ys us vs w w' t e f)) = registered ms

  -- The workers that the state knows of: each is idle, at a call, or held by a call that failed.
  abbrev pub known : Scheduler → ℕ
  known s = length s.idle + length s.running + length s.retrying

  known-Moves : {s s' : Scheduler} (ms : Moves mr phase s s') → known s' ≡ known s + registered ms
  known-Moves here = omega arith
  known-Moves (and_then {t = s} ms (register w)) =
      omega (arith, known-Moves ms, length-append s.idle (w ∷ []))
  known-Moves (and_then {t = s} ms (launch xs ys w lt e)) =
      let len : length s.idle ≡ suc (length (xs ++ ys)) = rw e (length-middle xs ys w) in
      omega (arith, known-Moves ms, len)
  known-Moves (and_then {t = s} ms (succeed xs ys w t args e)) =
      let len : length s.running ≡ suc (length (xs ++ ys)) = rw e (length-middle xs ys (w, t)) in
      omega (arith, known-Moves ms, len, length-append s.idle (w ∷ []))
  known-Moves (and_then {t = s} ms (fail xs ys w t args e)) =
      let len : length s.running ≡ suc (length (xs ++ ys)) = rw e (length-middle xs ys (w, t)) in
      omega (arith, known-Moves ms, len)
  known-Moves (and_then {t = s} ms (reassign xs ys us vs w w' t e f)) =
      let len : length s.retrying ≡ suc (length (xs ++ ys)) = rw e (length-middle xs ys (w, t)) in
      let len' : length s.idle ≡ suc (length (us ++ vs)) = rw f (length-middle us vs w') in
      omega (arith, known-Moves ms, len, len', length-append (us ++ vs) (w ∷ []))

  -- Without an idle worker and without a call at work, only `register` is possible.
  still :
      {s s' : Scheduler} (ms : Moves mr phase s s')
      → s.idle ≡ []
      → s.running ≡ []
      → registered ms ≡ 0
      → s' ≡ s
  still here i r none_new = refl
  still (and_then ms (register w)) i r none_new = absurd (omega (arith, none_new))
  still {s} (and_then {t = u} ms (launch xs ys w lt e)) i r none_new =
      let same : u ≡ s = still ms i r none_new in
      absurd (append_cons-ne-nil xs ys w e (ap (λ x. x.idle) same ∙ i))
  still {s} (and_then {t = u} ms (succeed xs ys w t args e)) i r none_new =
      let same : u ≡ s = still ms i r none_new in
      absurd (append_cons-ne-nil xs ys (w, t) e (ap (λ x. x.running) same ∙ r))
  still {s} (and_then {t = u} ms (fail xs ys w t args e)) i r none_new =
      let same : u ≡ s = still ms i r none_new in
      absurd (append_cons-ne-nil xs ys (w, t) e (ap (λ x. x.running) same ∙ r))
  still {s} (and_then {t = u} ms (reassign xs ys us vs w w' t e f)) i r none_new =
      let same : u ≡ s = still ms i r none_new in
      absurd (append_cons-ne-nil us vs w' f (ap (λ x. x.idle) same ∙ i))

  -- From the start of a phase with some idle workers, further ones registering, let as many calls as
  -- there are workers have failed and wait for another worker, and at least one. Then no worker is left
  -- for them: until a further worker registers nothing moves, and `schedule` does not return.
  pub failed_workers_held :
      (idle : List Text) {s s' : Scheduler} (past : Moves mr phase (begin (ntasks mr phase) idle) s)
      (later : Moves mr phase s s')
      → length idle + registered past ≤ length s.retrying
      → 0 < length s.retrying
      → registered later ≡ 0
      → (s' ≡ s) × (¬ Returns mr phase s')
  unfolding begin
  failed_workers_held idle {s} {s'} past later held some_call none_new =
      let all = known-Moves past in
      let no_idle : s.idle ≡ [] = nil_of_length s.idle (omega (arith, all)) in
      let no_running : s.running ≡ [] = nil_of_length s.running (omega (arith, all)) in
      let same : s' ≡ s = still later no_idle no_running none_new in
      let a = Moves-Accounts mr phase (begin-Accounts mr phase idle) past in
      (same, λ r. omega (arith, a.sum, a.left, a.next_le, r.waited, ap (λ x. x.wait_count) same))
