-- ===== src/Shards/Retry.antt =====
-- The loop that the clerks of src/shardmaster/client.go share: try each server in turn, sleep, and
-- begin again, until one gives an answer that counts.
use mit6824_distribute_syste.Prelude.{
  ℕ, zero, suc, ◌+◌, ◌<◌, ◌≤◌, ◌≡◌, inl, inr, Option, none, some, arith, Option-cases,
}

-- The answer that counts, if server `i` of a round gives one.
abbrev pub Answers {ℓ} : Type ℓ → Type ℓ
Answers A = ℕ → ℕ → Option A

module _ {A : Type 0} where
  -- One pass over the servers i, i + 1, ...
  unfoldable pub try_servers : (ℕ → Option A) → ℕ → ℕ → Option A
  try_servers answer i zero = none
  try_servers answer i (suc left) = elim (answer i) [
    | some a ↦ some a
    | none ↦ try_servers answer (i + 1) left
  ]

  -- The rounds k, k + 1, ..., on fuel.
  unfoldable pub retry : ℕ → Answers A → ℕ → ℕ → Option A
  unfolding try_servers
  retry n answers k zero = none
  retry n answers k (suc fuel) = elim (try_servers (answers k) 0 n) [
    | some a ↦ some a
    | none ↦ retry n answers (k + 1) fuel
  ]

  -- Server `p` in round `q` is the first that counts, from round `k` on.
  pub record IsFirst (n : ℕ) (answers : Answers A) (k q p : ℕ) (a : A) : Type 0 where
    pub in_range : p < n
    pub answered : answers q p ≡ some a
    pub before : (i : ℕ) → i < p → answers q i ≡ none
    pub earlier : (r i : ℕ) → k ≤ r → r < q → i < n → answers r i ≡ none

  try_servers-some :
      (answer : ℕ → Option A) (i left : ℕ) {a : A}
      → try_servers answer i left ≡ some a
      → (p : ℕ) × (i ≤ p)
        × (p < i + left)
        × (answer p ≡ some a)
        × ((j : ℕ) → i ≤ j → j < p → answer j ≡ none)
  unfolding try_servers
  try_servers-some answer i zero e = absurd (cc)
  try_servers-some answer i (suc left) {a} e = elim (Option-cases (answer i)) [
    | inr (b, now) ↦ (i, omega arith, omega arith, ground arith, λ j l h. absurd (omega arith))
    | inl refused_ ↦
        let e1 : try_servers answer (i + 1) left ≡ some a = ground arith in
        let (p, l, h, at, none_before) = try_servers-some answer (i + 1) left e1 in
        (p, omega arith, omega arith, at, λ j lj hj. ground (arith, none_before j))
  ]

  try_servers-none :
      (answer : ℕ → Option A) (i left : ℕ)
      → try_servers answer i left ≡ none
      → (j : ℕ) → i ≤ j
      → j < i + left
      → answer j ≡ none
  unfolding try_servers
  try_servers-none answer i zero e j l h = absurd (omega arith)
  try_servers-none answer i (suc left) e j l h = elim (Option-cases (answer i)) [
    | inr (b, now) ↦ absurd (ground arith)
    | inl refused_ ↦
        let e1 : try_servers answer (i + 1) left ≡ none = ground arith in
        ground (arith, try_servers-none answer (i + 1) left e1 j)
  ]

  -- When a server is to give an answer that counts in some round, the loop ends by that round with the
  -- first such answer.
  pub retry_lem :
      (n : ℕ) (answers : Answers A) (k r i fuel : ℕ) {a : A}
      → k ≤ r
      → i < n
      → answers r i ≡ some a
      → r < k + fuel
      → (q : ℕ) × (p : ℕ) × (b : A) × (q ≤ r)
        × (retry n answers k fuel ≡ some b)
        × IsFirst n answers k q p b
  unfolding retry
  retry_lem n answers k r i zero kr lt at h = absurd (omega arith)
  retry_lem n answers k r i (suc fuel) {a} kr lt at h =
      elim (Option-cases (try_servers (answers k) 0 n)) [
        | inr (b, now) ↦
            let (p, l, range, here, first) = try_servers-some (answers k) 0 n now in
            (
              k,
              p,
              b,
              kr,
              ground arith,
              record {
                in_range = omega arith;
                answered = here;
                before = λ j hj. first j (omega arith) hj;
                earlier = λ r' j l1 l2 l3. absurd (omega arith);
              },
            )
        | inl refused_ ↦
            let refused = try_servers-none (answers k) 0 n refused_ in
            let later : k < r = ground (arith, refused i, at) in
            let (q, p, b, qr, done, first) =
              retry_lem n answers (k + 1) r i fuel (omega arith) lt at (omega arith) in
            (
              q,
              p,
              b,
              qr,
              ground arith,
              record {
                in_range = first.in_range;
                answered = first.answered;
                before = first.before;
                earlier = λ r' j l1 l2 l3. ground (arith, first.earlier r' j, refused j);
              },
            )
      ]
