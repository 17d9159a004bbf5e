-- ===== src/Tester/Waiting.antt =====
-- src/raft/config.go: `checkTerms`, `checkNoLeader`, `wait` and `one`. What they read as time goes by is
-- an argument: the loops sleep between two entries of a list, which ends when their time is over.
use mit6824_distribute_syste.Prelude.{
  ℕ, zero, suc, ◌+◌, ◌%◌, Bool, true, false, not, ◌&&◌, ◌||◌, Option, none, some, List, [], ◌∷◌,
  ltb, leb, if◌then◌else◌,
}
use mit6824_distribute_syste.Prelude.Int.{ℤ, negsuc, eqb_ℤ, ltb_ℤ}
use mit6824_distribute_syste.Tester.Leaders.{Reading}
use mit6824_distribute_syste.Tester.Commits.{CommitLog, n_committed}

-- `checkTerms`, with its `term`; `none` is `Fatalf`.
unfoldable pub check_terms : ℤ → List Reading → Option ℤ
check_terms term [] = some term
check_terms term (r ∷ rs) =
    let first = check_terms (ℤ.pos r.term) rs in
    let rest = check_terms term rs in
    if eqb_ℤ term (negsuc 0) then first else if not (eqb_ℤ term (ℤ.pos r.term)) then none else rest

-- `checkNoLeader`: whether it returns.
unfoldable pub check_no_leader : List Reading → Bool
check_no_leader [] = true
check_no_leader (r ∷ rs) = let rest = check_no_leader rs in if r.is_leader then false else rest

-- How `wait` ends: `Fatalf`, -1 because a term has passed, or a command.
pub data Waited : Type 0 where
  fails : Waited
  moved_on : Waited
  agreed : ℤ → Waited

-- After its loop.
unfoldable pub wait_end : ℕ → ℕ → List CommitLog → Waited
unfolding n_committed
wait_end index n logs = elim (n_committed index logs) [
  | none ↦ fails
  | some (nd, cmd) ↦ if ltb nd n then fails else agreed cmd
]

-- Some peer is in a later term.
unfoldable pub someone_later : ℤ → List ℕ → Bool
someone_later start_term [] = false
someone_later start_term (t ∷ ts) = ltb_ℤ start_term (ℤ.pos t) || someone_later start_term ts

-- `wait`, by the logs and the terms of the peers in each round, and the logs at the end.
unfoldable pub wait : ℕ → ℕ → ℤ → List (List CommitLog × List ℕ) → List CommitLog → Waited
unfolding wait_end someone_later
wait index n start_term [] logs = wait_end index n logs
wait index n start_term ((now, terms) ∷ rounds) logs =
    let rest = wait index n start_term rounds logs in
    elim (n_committed index now) [
      | none ↦ fails
      | some (nd, cmd) ↦
          if leb n nd
          then wait_end index n logs
          else if ltb_ℤ (negsuc 0) start_term && someone_later start_term terms
          then moved_on
          else rest
    ]

-- The first loop of `one`: `submit si s` is what the try `si` gives at server `s`, an index where it is
-- attached and `Start` takes it for the leader.
unfoldable pub try_submit : (ℕ → ℕ → Option ℕ) → ℕ → ℕ → ℕ → ℕ → ℕ × Option ℕ
try_submit submit n si zero starts = (starts, none)
try_submit submit n si (suc left) starts =
    let next = (starts + 1) % n in
    let rest = try_submit submit n (si + 1) left next in
    elim (submit si next) [ some index ↦ (next, some index) | none ↦ rest ]

-- Its second loop: whether the command has been committed; `none` is `Fatalf`.
unfoldable pub poll_commits : ℕ → ℤ → ℕ → List (List CommitLog) → Option Bool
unfolding n_committed
poll_commits index cmd expected [] = some false
poll_commits index cmd expected (logs ∷ polls) =
    let rest = poll_commits index cmd expected polls in
    elim (n_committed index logs) [
      | none ↦ none
      | some (nd, cmd1) ↦ if ltb 0 nd && leb expected nd && eqb_ℤ cmd1 cmd then some true else rest
    ]

-- A round of `one`: what its tries give, and the logs that it reads after that.
pub record Round : Type 0 where
  pub submit : ℕ → ℕ → Option ℕ
  pub polls : List (List CommitLog)

-- `one`, with its `starts`; `none` is `Fatalf`.
unfoldable pub one : ℤ → ℕ → ℕ → ℕ → List Round → Option ℕ
unfolding try_submit poll_commits
one cmd expected n starts [] = none
one cmd expected n starts (r ∷ rounds) =
    let tried = try_submit r.submit n 0 n starts in
    let rest = one cmd expected n tried.0 rounds in
    elim tried.1 [
      | none ↦ rest
      | some index ↦ elim (poll_commits index cmd expected r.polls) [
        | none ↦ none
        | some true ↦ some index
        | some false ↦ rest
      ]
    ]
