-- ===== src/Tester/Agreeing.antt =====
-- src/raft/config.go: what `wait` and `one` have found when they return.
use mit6824_distribute_syste.Prelude.{
  ℕ, zero, suc, ◌+◌, ◌%◌, ◌≤◌, ◌<◌, ◌≡◌, ◌∙◌, ◌⊎◌, inl, inr, true, false, ◌&&◌, Option, some, List,
  [], ◌∷◌, ltb, leb, arith, Bool-cases, Option-cases, ap,
}
use mathlib.Core.Path.{subst}
use mit6824_distribute_syste.Prelude.Int.{ℤ, negsuc, eqb_ℤ, eqb_ℤ_iff, ltb_ℤ}
use mit6824_distribute_syste.Tester.Commits.{CommitLog, n_committed}
use mit6824_distribute_syste.Tester.Agreement.{holders, AllHave, n_committed_lem}
use mit6824_distribute_syste.Tester.Waiting.{
  agreed, wait_end, someone_later, wait, try_submit, poll_commits, Round, one,
}

-- At least so many servers have the command at the index, and no server has another one.
abbrev pub Agrees : ℕ → ℤ → ℕ → List CommitLog → Type 0
Agrees index cmd n logs = (n ≤ holders index logs) × AllHave index cmd logs

-- `nCommitted` when it returns a command of some server.
counted-Agrees :
    (index : ℕ) (logs : List CommitLog) (nd : ℕ) (cmd : ℤ)
    → n_committed index logs ≡ some (nd, cmd)
    → 0 < nd
    → Agrees index cmd nd logs
counted-Agrees index logs nd cmd h pos = elim (n_committed_lem index logs) [
  | inl (v, all, e) ↦
      let same : holders index logs ≡ nd = ground (arith, e, h) in
      let value : v ≡ cmd = ground (arith, e, h, same) in
      (omega (arith, same), subst (λ x. AllHave index x logs) value all)
  | inr (a, b, has_a, has_b, ne, e) ↦ absurd (ground (arith, e, h))
]

wait_end-Agrees :
    (index n : ℕ) (logs : List CommitLog) (cmd : ℤ)
    → 0 < n
    → wait_end index n logs ≡ agreed cmd
    → Agrees index cmd n logs
unfolding wait_end
wait_end-Agrees index n logs cmd pos h = elim (Option-cases (n_committed index logs)) [
  | inl none_there ↦ absurd (ground (arith, none_there, h))
  | inr ((nd, c), e) ↦
      let le : n ≤ nd = ground (arith, e, h) in
      let same : c ≡ cmd = ground (arith, e, h) in
      let a = counted-Agrees index logs nd c e (omega arith) in
      (omega (arith, a.0, le), subst (λ x. AllHave index x logs) same a.1)
]

-- When `wait` returns a command, at least n servers have it at the index in the end, and no server another.
pub wait-Agrees :
    (index n : ℕ) (start_term cmd : ℤ) (rounds : List (List CommitLog × List ℕ))
    (logs : List CommitLog)
    → 0 < n
    → wait index n start_term rounds logs ≡ agreed cmd
    → Agrees index cmd n logs
unfolding wait
wait-Agrees index n start_term cmd [] logs pos h = wait_end-Agrees index n logs cmd pos h
wait-Agrees index n start_term cmd ((now, terms) ∷ rounds) logs pos h =
    elim (Option-cases (n_committed index now)) [
      | inl nothing ↦ absurd (ground (arith, nothing, h))
      | inr ((nd, c), e) ↦ elim (Bool-cases (leb n nd)) [
        | inl enough ↦ wait_end-Agrees index n logs cmd pos (ground (arith, e, enough, h))
        | inr few ↦
            elim (Bool-cases (ltb_ℤ (negsuc 0) start_term && someone_later start_term terms)) [
              | inl later ↦ absurd (ground (arith, e, few, later, h))
              | inr other ↦
                  wait-Agrees index n start_term cmd rounds logs pos
                    (ground (arith, e, few, other, h))
            ]
      ]
    ]

-- Some logs that a round reads agree, and the index is one that a server gave for the command.
abbrev pub Polled : ℕ → ℤ → ℕ → List (List CommitLog) → Type 0
Polled index cmd n [] = ⊥
Polled index cmd n (logs ∷ polls) =
    ((0 < holders index logs) × Agrees index cmd n logs) ⊎ Polled index cmd n polls

abbrev pub Reported : ℕ → ℤ → ℕ → List Round → Type 0
Reported index cmd n [] = ⊥
Reported index cmd n (r ∷ rounds) =
    (((si s : ℕ) × (r.submit si s ≡ some index)) × Polled index cmd n r.polls)
    ⊎ Reported index cmd n rounds

try_submit_lem :
    (submit : ℕ → ℕ → Option ℕ) (n si left starts : ℕ) {index : ℕ}
    → (try_submit submit n si left starts).1 ≡ some index
    → (ti s : ℕ) × (submit ti s ≡ some index)
unfolding try_submit
try_submit_lem submit n si zero starts h = absurd (cc)
try_submit_lem submit n si (suc left) starts {index} h =
    elim (Option-cases (submit si ((starts + 1) % n))) [
      | inl nothing ↦
          try_submit_lem submit n (si + 1) left ((starts + 1) % n) (ground (arith, nothing, h))
      | inr (i, e) ↦ (si, (starts + 1) % n, ground (arith, e, h))
    ]

poll_commits-Polled :
    (index : ℕ) (cmd : ℤ) (expected : ℕ) (polls : List (List CommitLog))
    → poll_commits index cmd expected polls ≡ some true
    → Polled index cmd expected polls
unfolding poll_commits
poll_commits-Polled index cmd expected [] h = absurd (cc)
poll_commits-Polled index cmd expected (logs ∷ polls) h =
    elim (Option-cases (n_committed index logs)) [
      | inl nothing ↦ absurd (ground (arith, nothing, h))
      | inr ((nd, c), e) ↦ elim (Bool-cases (ltb 0 nd && leb expected nd && eqb_ℤ c cmd)) [
        | inl all ↦
            let pos : 0 < nd = ground (arith, all) in
            let le : expected ≤ nd = ground (arith, all) in
            let same : c ≡ cmd = ground (arith, all, eqb_ℤ_iff c cmd) in
            let a = counted-Agrees index logs nd c e pos in
            inl (
              omega (arith, a.0, pos),
              (omega (arith, a.0, le), subst (λ x. AllHave index x logs) same a.1),
            )
        | inr other ↦
            inr (poll_commits-Polled index cmd expected polls (ground (arith, e, other, h)))
      ]
    ]

-- When `one` returns an index, a server had given it for the agreed, and at some time since then at
-- least the expected number of servers, and one at least, had the command at the index, and no server
-- had another.
pub one_lem :
    (cmd : ℤ) (expected n starts : ℕ) (rounds : List Round) {index : ℕ}
    → one cmd expected n starts rounds ≡ some index
    → Reported index cmd expected rounds
unfolding one
one_lem cmd expected n starts [] h = absurd (cc)
one_lem cmd expected n starts (r ∷ rounds) {index} h =
    let next = (try_submit r.submit n 0 n starts).0 in
    elim (Option-cases (try_submit r.submit n 0 n starts).1) [
      | inl nothing ↦ inr (one_lem cmd expected n next rounds (ground (arith, nothing, h)))
      | inr (i, e) ↦ elim (Option-cases (poll_commits i cmd expected r.polls)) [
        | inl failed ↦ absurd (ground (arith, e, failed, h))
        | inr (true, done) ↦
            let same : i ≡ index = ground (arith, e, done, h) in
            inl (
              try_submit_lem r.submit n 0 n starts (e ∙ ap some same),
              poll_commits-Polled index cmd expected r.polls
                  (subst (λ x. poll_commits x cmd expected r.polls ≡ some true) same done),
            )
        | inr (false, over) ↦ inr (one_lem cmd expected n next rounds (ground (arith, e, over, h)))
      ]
    ]
