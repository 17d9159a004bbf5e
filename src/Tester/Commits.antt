-- ===== src/Tester/Commits.antt =====
-- src/raft/config.go: the readers of the apply channels, and `nCommitted`. The tests submit integers.
use mit6824_distribute_syste.Prelude.{
  ℕ, ◌+◌, ◌-◌, Bool, true, false, not, ◌&&◌, ◌||◌, Option, none, some, List, [], ◌∷◌, ltb, ◌==◌,
  if◌then◌else◌, get_elem?, write, ◌>>=◌,
}
use mit6824_distribute_syste.Prelude.Int.{ℤ, negsuc, eqb_ℤ}
use mit6824_distribute_syste.Raft.Peer.{ApplyMsg}

-- `map[int]int`: the committed commands of a server by their index.
abbrev pub CommitLog : Type 0
CommitLog = List (ℕ × ℤ)

unfoldable pub command_at : ℕ → CommitLog → Option ℤ
command_at index [] = none
command_at index ((k, v) ∷ l) = let rest = command_at index l in if k == index then some v else rest

unfoldable pub put_command : ℕ → ℤ → CommitLog → CommitLog
put_command index v [] = (index, v) ∷ []
put_command index v ((k, u) ∷ l) =
    let rest = put_command index v l in if k == index then (k, v) ∷ l else (k, u) ∷ rest

-- The loop of a reader over all servers: some server has another value at the index.
unfoldable pub conflicts : ℕ → ℤ → List CommitLog → Bool
unfolding command_at
conflicts index v [] = false
conflicts index v (l ∷ logs) =
    let rest = conflicts index v logs in
    elim (command_at index l) [ none ↦ rest | some old ↦ not (eqb_ℤ old v) || rest ]

abbrev pub is_none {ℓ} : {A : Type ℓ} → Option A → Bool
is_none none = true
is_none (some a) = false

-- What the reader of server `i` does with a message. `none` is `log.Fatalf`: the command is no integer,
-- another server has committed another one, or the entry before it is missing. The subtraction is used
-- at indices above 1 only.
unfoldable pub apply_msg : ℕ → ApplyMsg ℤ → List CommitLog → Option (List CommitLog)
unfolding conflicts put_command
apply_msg i m logs = if m.use_snapshot then some logs else (do
  v ← m.command
  own ← get_elem? logs i
  let prev = command_at (m.index - 1) own
  logs' ← write logs i (put_command m.index v own)
  if conflicts m.index v logs || (ltb 1 m.index && is_none prev) then none else some logs')

-- What the readers get, in the order in which they take the mutex.
unfoldable pub apply_msgs : List (ℕ × ApplyMsg ℤ) → List CommitLog → Option (List CommitLog)
unfolding apply_msg
apply_msgs [] logs = some logs
apply_msgs ((i, m) ∷ ms) logs = elim (apply_msg i m logs) [
  | none ↦ none
  | some logs' ↦ apply_msgs ms logs'
]

-- The loop of `nCommitted`, with its `count` and `cmd`; `none` is `Fatalf`. An entry of `applyErr` is set
-- only after `log.Fatalf`, so none is ever read.
unfoldable pub count_commits : ℕ → List CommitLog → ℕ → ℤ → Option (ℕ × ℤ)
unfolding command_at
count_commits index [] count cmd = some (count, cmd)
count_commits index (l ∷ logs) count cmd =
    let same = count_commits index logs count cmd in
    elim (command_at index l) [
      | none ↦ same
      | some cmd1 ↦
          let rest = count_commits index logs (count + 1) cmd1 in
          if ltb 0 count && not (eqb_ℤ cmd cmd1) then none else rest
    ]

unfoldable pub n_committed : ℕ → List CommitLog → Option (ℕ × ℤ)
unfolding count_commits
n_committed index logs = count_commits index logs 0 (negsuc 0)
