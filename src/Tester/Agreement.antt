-- ===== src/Tester/Agreement.antt =====
-- src/raft/config.go: what the readers of the apply channels guarantee, and what `nCommitted` reports.
use mathlib.Core.Path.{subst}
use mit6824_distribute_syste.Prelude.{
  ℕ, ◌+◌, ◌<◌, ◌≡◌, ◌≢◌, refl, sym, ◌∙◌, ◌⊎◌, inl, inr, none, some, List, [], ◌∷◌, ◌==◌,
  if◌then◌else◌, arith, Bool-cases, Option-cases,
}
use mit6824_distribute_syste.Prelude.Int.{ℤ, negsuc, eqb_ℤ, eqb_ℤ_iff}
use mit6824_distribute_syste.Tester.Commits.{
  CommitLog, command_at, is_none, count_commits, n_committed,
}

-- How many servers have a command at the index.
abbrev pub holders : ℕ → List CommitLog → ℕ
holders index [] = 0
holders index (l ∷ logs) = (if is_none (command_at index l) then 0 else 1) + holders index logs

-- Every server that has a command at the index has this one.
abbrev pub AllHave : ℕ → ℤ → List CommitLog → Type 0
AllHave index v [] = Unit {0}
AllHave index v (l ∷ logs) = ((a : ℤ) → command_at index l ≡ some a → a ≡ v) × AllHave index v logs

-- Some server has this command at the index.
abbrev pub Has : ℕ → ℤ → List CommitLog → Type 0
Has index v [] = ⊥
Has index v (l ∷ logs) = (command_at index l ≡ some v) ⊎ Has index v logs

-- `nCommitted` gives the number of servers with a command at the index, and the command, -1 if there is
-- none; or two servers have different ones and it fails.
abbrev pub CommitCount : ℕ → List CommitLog → Type 0
CommitCount index logs =
    ((v : ℤ) × AllHave index v logs
      × (n_committed index logs
          ≡ some (holders index logs, if holders index logs == 0 then negsuc 0 else v)))
    ⊎ ((a b : ℤ) × Has index a logs × Has index b logs × (a ≢ b) × (n_committed index logs ≡ none))

module _ (index : ℕ) (l : CommitLog) (logs : List CommitLog) (count : ℕ) (cmd : ℤ) where
  count_commits_without :
      command_at index l ≡ none
      → count_commits index (l ∷ logs) count cmd ≡ count_commits index logs count cmd
  unfolding count_commits
  count_commits_without e = ground (arith, e)

  count_commits_first :
      (c : ℤ)
      → command_at index l ≡ some c
      → count ≡ 0
      → count_commits index (l ∷ logs) count cmd ≡ count_commits index logs (count + 1) c
  unfolding count_commits
  count_commits_first c e z = ground (arith, e)

  count_commits_same :
      (c : ℤ)
      → command_at index l ≡ some c
      → cmd ≡ c
      → count_commits index (l ∷ logs) count cmd ≡ count_commits index logs (count + 1) c
  unfolding count_commits
  count_commits_same c e same = ground (arith, e, eqb_ℤ_iff cmd c)

  count_commits_other :
      (c : ℤ)
      → command_at index l ≡ some c
      → 0 < count
      → c ≢ cmd
      → count_commits index (l ∷ logs) count cmd ≡ none
  unfolding count_commits
  count_commits_other c e pos ne = ground (arith, e, eqb_ℤ_iff cmd c)

-- The rest of the loop, once a command has been seen.
count_commits_lem :
    (index : ℕ) (logs : List CommitLog) (count : ℕ) (cmd : ℤ)
    → 0 < count
    → (AllHave index cmd logs
        × (count_commits index logs count cmd ≡ some (count + holders index logs, cmd)))
      ⊎ ((a : ℤ) × Has index a logs × (a ≢ cmd) × (count_commits index logs count cmd ≡ none))
unfolding count_commits
count_commits_lem index [] count cmd pos = inl (tt, ground arith)
count_commits_lem index (l ∷ logs) count cmd pos = elim (Option-cases (command_at index l)) [
  | inl nothing ↦
      let step = count_commits_without index l logs count cmd nothing in
      elim (count_commits_lem index logs count cmd pos) [
        | inl (all, e) ↦ inl (((λ a at. absurd (cc)), all), step ∙ e ∙ ground (arith, nothing))
        | inr (a, has, ne, e) ↦ inr (a, inr has, ne, step ∙ e)
      ]
  | inr (c, at) ↦ elim (Bool-cases (eqb_ℤ cmd c)) [
    | inl same ↦
        let e : cmd ≡ c = ground (arith, eqb_ℤ_iff cmd c) in
        let step = count_commits_same index l logs count cmd c at e in
        elim (count_commits_lem index logs (count + 1) c (omega arith)) [
          | inl (all, eq) ↦ inl (
            ((λ a at'. cc), subst (λ v. AllHave index v logs) (sym e) all),
            step ∙ eq ∙ ground (arith, at, e),
          )
          | inr (a, has, ne, eq) ↦ inr (a, inr has, (λ h. ne (h ∙ e)), step ∙ eq)
        ]
    | inr other ↦
        let ne : c ≢ cmd = ground (arith, eqb_ℤ_iff cmd c) in
        inr (c, inl at, ne, count_commits_other index l logs count cmd c at pos ne)
  ]
]

-- `nCommitted` fails exactly where two servers have different commands at the index. Otherwise it counts
-- the servers that have one, and gives the command that all of them have.
pub n_committed_lem : (index : ℕ) (logs : List CommitLog) → CommitCount index logs
unfolding n_committed
n_committed_lem index [] = inl (negsuc 0, tt, refl)
n_committed_lem index (l ∷ logs) = elim (Option-cases (command_at index l)) [
  | inl nothing ↦
      let step = count_commits_without index l logs 0 (negsuc 0) nothing in
      elim (n_committed_lem index logs) [
        | inl (v, all, e) ↦
            inl (v, ((λ a at. absurd (cc)), all), step ∙ e ∙ ground (arith, nothing))
        | inr (a, b, has_a, has_b, ne, e) ↦ inr (a, b, inr has_a, inr has_b, ne, step ∙ e)
      ]
  | inr (c, at) ↦
      let step = count_commits_first index l logs 0 (negsuc 0) c at refl in
      elim (count_commits_lem index logs 1 c (omega arith)) [
        | inl (all, e) ↦ inl (c, ((λ a at'. cc), all), step ∙ e ∙ ground (arith, at))
        | inr (a, has, ne, e) ↦ inr (a, c, inr has, inl at, ne, step ∙ e)
      ]
]
