-- ===== src/Raft/Commit.antt =====
-- src/raft/raft.go, `StartAppendLog`: the commit index of a leader.
use mit6824_distribute_syste.Prelude.{
  ℕ, zero, suc, ◌-◌, ◌/◌, ◌≤◌, ◌<◌, ◌≡◌, ◌⊎◌, inl, inr, Bool-cases, some, List, [], ◌∷◌, length,
  get_elem?, get_elem?-some, get_elem?-none, get_elem?_lt, none, ltb, ltb→lt, write, Option-cases,
  arith,
}
use native.Mathlib.Decide.{dec_le, dec_lt}
use mit6824_distribute_syste.Prelude.Int.{pos, eqb_ℤ, eqb_ℤ_iff}
use mit6824_distribute_syste.Raft.Peer.{Log, Raft}
use mit6824_distribute_syste.Raft.Leader.{sort_desc, majority_index, advance_commit}
use mit6824_distribute_syste.Raft.Descending.{
  count_ge, length-sort_desc, count_ge-sort_desc, sort_desc-Descends, count_ge-Descends,
  count_ge-le,
}
use mit6824_distribute_syste.Raft.Delivery.{delivered, update_last_applied_lem}

-- `n` is the largest number that more than half of the numbers reach.
pub record IsMajority (n : ℕ) (xs : List ℕ) : Type 0 where
  pub reached : length xs / 2 < count_ge n xs
  pub largest : (m : ℕ) → length xs / 2 < count_ge m xs → m ≤ n

-- The number that the leader picks from the sorted copy of `MatchIndex` is that number: it is there
-- as soon as there is a peer, a majority has reached it, and no larger one is so.
pub majority_index-IsMajority :
    (xs : List ℕ) → 0 < length xs → (n : ℕ) × (majority_index xs ≡ some n) × IsMajority n xs
unfolding majority_index
majority_index-IsMajority xs h =
    let (n, found) =
      get_elem?-some (sort_desc xs) (length xs / 2) (omega (arith, length-sort_desc xs)) in
    let sorted = sort_desc-Descends xs in
    (
      n,
      found,
      record {
        reached = omega (
          arith,
          count_ge-Descends (sort_desc xs) (length xs / 2) sorted found,
          count_ge-sort_desc n xs,
        );
        largest = λ m q. elim (dec_le m n) [
          | yes le ↦ le
          | no gt ↦ absurd (
              omega (
                arith,
                count_ge-le m (sort_desc xs) (length xs / 2) sorted found (omega arith),
                count_ge-sort_desc m xs,
              ))
        ];
      },
    )

-- Every number is below the bound.
abbrev pub AllBelow : ℕ → List ℕ → Type 0
AllBelow b [] = Unit {0}
AllBelow b (x ∷ xs) = (x < b) × AllBelow b xs

lt_of_count_ge : (b n : ℕ) (xs : List ℕ) → AllBelow b xs → 0 < count_ge n xs → n < b
lt_of_count_ge b n [] a h = absurd (omega arith)
lt_of_count_ge b n (x ∷ xs) a h = ground (arith, lt_of_count_ge b n xs)

pub AllBelow-write :
    (b : ℕ) (xs : List ℕ) (i v : ℕ) {ys : List ℕ}
    → write xs i v ≡ some ys
    → v < b
    → AllBelow b xs
    → AllBelow b ys
AllBelow-write b [] i v h lt a = absurd (cc)
AllBelow-write b (x ∷ xs) zero v {ys} h lt a = let e : ys ≡ v ∷ xs = ground arith in rw e (lt, a.1)
AllBelow-write b (x ∷ xs) (suc i) v {ys} h lt a = elim (Option-cases (write xs i v)) [
  | inl out ↦ absurd (ground arith)
  | inr (zs, done) ↦
      let e : ys ≡ x ∷ zs = ground arith in rw e (a.0, AllBelow-write b xs i v done lt a.1)
]

pub IsMajority-unique : {m n : ℕ} {xs : List ℕ} → IsMajority m xs → IsMajority n xs → m ≡ n
IsMajority-unique {m} {n} p q = omega (arith, p.largest n q.reached, q.largest m p.reached)

module _ {C : Type 0} where
  -- The commit index moves to `n` and what it covers is delivered.
  abbrev pub committed : ℕ → Raft C → Raft C
  committed n raft = delivered (n - raft.last_applied) (record raft { commit_index = n })

  -- What the leader may commit: an entry of its own term that a majority of the peers is known to
  -- have.
  pub record MayCommit (n : ℕ) (raft : Raft C) : Type 0 where
    pub above : raft.commit_index < n
    pub majority : IsMajority n raft.match_index
    pub entry : Log C
    pub at : get_elem? raft.log n ≡ some entry
    pub current : entry.term ≡ pos raft.current_term

  -- The index that a majority is recorded to have is to be committed, and the log ends before it.
  pub record PastLog (n : ℕ) (raft : Raft C) : Type 0 where
    pub above : raft.commit_index < n
    pub majority : IsMajority n raft.match_index
    pub beyond : length raft.log ≤ n

  abbrev pub CommitOutcome : Raft C → Type 0
  CommitOutcome raft =
      ((n : ℕ) × MayCommit n raft × (advance_commit raft ≡ some (committed n raft)))
      ⊎ (((n : ℕ) → ¬ MayCommit n raft)
          × ((n : ℕ) → ¬ PastLog n raft)
          × (advance_commit raft ≡ some raft))
      ⊎ ((n : ℕ) × PastLog n raft × (advance_commit raft ≡ none))

  -- Where the log has the entry at the majority's index, only that entry can be committed.
  in_log :
      (raft : Raft C) (n : ℕ) (e : Log C)
      → majority_index raft.match_index ≡ some n
      → IsMajority n raft.match_index
      → get_elem? raft.log n ≡ some e
      → CommitOutcome raft
  unfolding advance_commit
  in_log raft n e picked maj found =
      let n_lt : n < length raft.log = get_elem?_lt raft.log n found in
      let only : (m : ℕ) → MayCommit m raft → m ≡ n = λ m c. IsMajority-unique c.majority maj in
      let inside : (m : ℕ) → ¬ PastLog m raft =
        λ m c. omega (arith, IsMajority-unique c.majority maj, c.beyond) in
      elim (Bool-cases (ltb raft.commit_index n)) [
        | inr low ↦ inr (inl ((λ m c. ground (arith, only m c)), inside, rw (picked, low)))
        | inl high ↦ elim (Bool-cases (eqb_ℤ e.term (pos raft.current_term))) [
          | inr old ↦ inr (
              inl (
                (λ m c. ground (arith, only m c, eqb_ℤ_iff e.term (pos raft.current_term))),
                inside,
                rw (picked, high, found, old),
              ))
          | inl now ↦ inl (
            n,
            record {
              above = ltb→lt raft.commit_index n high;
              majority = maj;
              entry = e;
              at = found;
              current = (eqb_ℤ_iff e.term (pos raft.current_term)).0 now;
            },
            rw (
              picked,
              high,
              found,
              now,
              update_last_applied_lem (record raft { commit_index = n }) n_lt,
            ),
          )
        ]
      ]

  -- Where the log ends before the majority's index, the code looks there if it is not yet committed.
  past_log :
      (raft : Raft C) (n : ℕ)
      → majority_index raft.match_index ≡ some n
      → IsMajority n raft.match_index
      → length raft.log ≤ n
      → CommitOutcome raft
  unfolding advance_commit
  past_log raft n picked maj beyond =
      let nothing : get_elem? raft.log n ≡ none = get_elem?-none raft.log n beyond in
      elim (Bool-cases (ltb raft.commit_index n)) [
        | inr low ↦ inr (
            inl (
              (λ m c. ground (arith, IsMajority-unique c.majority maj, c.above)),
              (λ m c. ground (arith, IsMajority-unique c.majority maj, c.above)),
              rw (picked, low),
            ))
        | inl high ↦ inr (
            inr (
              n,
              record { above = ltb→lt raft.commit_index n high; majority = maj; beyond = beyond },
              rw (picked, high, nothing),
            ))
      ]

  -- A peer that takes itself for the leader, or no longer does, with at least one peer in `MatchIndex`:
  -- it commits exactly the largest index that a majority is recorded to have, where that is above its
  -- commit index and the log's entry there is of its term, and delivers what that covers. It ends with
  -- an index out of range exactly where that index is above its commit index and not in the log.
  -- Otherwise nothing changes.
  pub advance_commit_lem : (raft : Raft C) → 0 < length raft.match_index → CommitOutcome raft
  advance_commit_lem raft some_peer =
      let (n, picked, maj) = majority_index-IsMajority raft.match_index some_peer in
      elim (dec_lt n (length raft.log)) [
        | yes lt ↦ let (e, found) = get_elem?-some raft.log n lt in in_log raft n e picked maj found
        | no ge ↦ past_log raft n picked maj (omega arith)
      ]

  -- Where every number of `MatchIndex` is in the log, so is the majority's.
  pub below-in_log :
      {n : ℕ} (raft : Raft C) → AllBelow (length raft.log) raft.match_index → ¬ PastLog n raft
  below-in_log {n} raft below p = omega (
    arith,
    p.beyond,
    lt_of_count_ge (length raft.log) n raft.match_index below (omega (arith, p.majority.reached)),
  )
