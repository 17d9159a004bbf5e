-- ===== src/Tester/Split.antt =====
-- src/kvraft/config.go: the loop of `make_partition`.
use mathlib.Core.Path.{subst}
use mit6824_distribute_syste.Prelude.{
  ℕ, zero, suc, ◌+◌, ◌-◌, ◌≤◌, ◌<◌, ◌≡◌, refl, sym, ap, ◌∙◌, true, false, some, List, [], ◌∷◌, ltb,
  ltb→lt, ◌==◌, if◌then◌else◌, arith, Bool-cases, inl, inr, length, get_elem?, get_elem?-write_self,
  get_elem?-write_ne, length-write, write-some, write, ℕ_discrete,
}
use mit6824_distribute_syste.Tester.Partition.{place_servers}
use mit6824_distribute_syste.Tester.Sides.{member, AllBelow}

pub member-get_elem? : (i : ℕ) (xs : List ℕ) (r : ℕ) → get_elem? xs r ≡ some i → member i xs ≡ true
member-get_elem? i [] r h = absurd (cc)
member-get_elem? i (x ∷ xs) zero h = ground arith
member-get_elem? i (x ∷ xs) (suc r) h = ground (arith, member-get_elem? i xs r)

pub member_at :
    (i : ℕ) (xs : List ℕ)
    → member i xs ≡ true
    → (r : ℕ) × (r < length xs) × (get_elem? xs r ≡ some i)
member_at i [] h = absurd (cc)
member_at i (x ∷ xs) h = elim (Bool-cases (i == x)) [
  | inl e ↦ (0, omega arith, ground (arith, e))
  | inr ne ↦ let (r, lt, at) = member_at i xs (ground (arith, h, ne)) in (suc r, omega arith, at)
]

pub AllBelow-get_elem? :
    (n : ℕ) (xs : List ℕ) → ((r i : ℕ) → get_elem? xs r ≡ some i → i < n) → AllBelow n xs
AllBelow-get_elem? n [] h = tt
AllBelow-get_elem? n (x ∷ xs) h = (h 0 x refl, AllBelow-get_elem? n xs (λ r i at. h (suc r) i at))

-- The server at a rank among all but the leader.
abbrev pub nth_other : ℕ → ℕ → ℕ
nth_other l r = if ltb r l then r else r + 1

-- The first `j` servers but the leader have their places.
pub record Placed (l j : ℕ) (p1 p2 : List ℕ) : Type 0 where
  pub first : (r : ℕ) → r < j → r < length p1 → get_elem? p1 r ≡ some (nth_other l r)
  pub second : (s : ℕ) → length p1 + s < j → get_elem? p2 s ≡ some (nth_other l (length p1 + s))

pub not_ltb : (a b : ℕ) → ltb a b ≡ false → b ≤ a
not_ltb a b h = ground arith

leader_passed :
    (l i j : ℕ)
    → j ≡ (if ltb l i then i - 1 else i)
    → (i == l) ≡ true
    → j ≡ (if ltb l (i + 1) then i + 1 - 1 else i + 1)
leader_passed l i j at e = ground (arith, at, e)

before_end :
    (n l i left j : ℕ)
    → i + suc left ≡ n
    → l < n
    → j ≡ (if ltb l i then i - 1 else i)
    → (i == l) ≡ false
    → j + 1 < n
before_end n l i left j all l_lt at other = ground (arith, at, other)

-- The three branches of a round.
module _ (l i left j : ℕ) (p1 p2 : List ℕ) where
  place_skip :
      (i == l) ≡ true → place_servers l i (suc left) j p1 p2 ≡ place_servers l (i + 1) left j p1 p2
  unfolding place_servers
  place_skip e = ground (arith, e)

  place_first :
      {p1' : List ℕ}
      → (i == l) ≡ false
      → ltb j (length p1) ≡ true
      → write p1 j i ≡ some p1'
      → place_servers l i (suc left) j p1 p2 ≡ place_servers l (i + 1) left (j + 1) p1' p2
  unfolding place_servers
  place_first other fits w = ground (arith, other, fits, w)

  place_second :
      {p2' : List ℕ}
      → (i == l) ≡ false
      → ltb j (length p1) ≡ false
      → write p2 (j - length p1) i ≡ some p2'
      → place_servers l i (suc left) j p1 p2 ≡ place_servers l (i + 1) left (j + 1) p1 p2'
  unfolding place_servers
  place_second other full w = ground (arith, other, full, w)

-- A server more has its place.
Placed-first :
    {l i j : ℕ} {p1 p2 p1' : List ℕ}
    → Placed l j p1 p2
    → write p1 j i ≡ some p1'
    → nth_other l j ≡ i
    → j < length p1
    → Placed l (j + 1) p1' p2
Placed-first {l} {i} {j} {p1} {p2} {p1'} p w now fits =
    let same = length-write p1 j i w in
    record {
      first = λ r lt r_lt. elim (ℕ_discrete j r) [
        | yes e ↦
            subst (λ x. get_elem? p1' x ≡ some (nth_other l x)) e
              (get_elem?-write_self p1 j i w ∙ ap some (sym now))
        | no ne ↦ get_elem?-write_ne p1 j r i w ne ∙ p.first r (omega arith) (omega (arith, same))
      ];
      second = λ s lt. absurd (omega (arith, same));
    }

Placed-second :
    {l i j : ℕ} {p1 p2 p2' : List ℕ}
    → Placed l j p1 p2
    → write p2 (j - length p1) i ≡ some p2'
    → nth_other l j ≡ i
    → length p1 ≤ j
    → Placed l (j + 1) p1 p2'
Placed-second {l} {i} {j} {p1} {p2} {p2'} p w now le = record {
  first = λ r lt r_lt. p.first r (omega arith) r_lt;
  second = λ s lt. elim (ℕ_discrete (j - length p1) s) [
    | yes e ↦
        let f : length p1 + s ≡ j = omega arith in
        subst (λ x. get_elem? p2' x ≡ some (nth_other l (length p1 + s))) e
          (get_elem?-write_self p2 (j - length p1) i w ∙ ap some (sym (ap (nth_other l) f ∙ now)))
    | no ne ↦ get_elem?-write_ne p2 (j - length p1) s i w ne ∙ p.second s (omega arith)
  ];
}

-- What the loop leaves.
pub record Filled (n l i left j : ℕ) (p1 p2 : List ℕ) : Type 0 where
  pub q1 : List ℕ
  pub q2 : List ℕ
  pub done : place_servers l i left j p1 p2 ≡ some (q1, q2)
  pub same1 : length q1 ≡ length p1
  pub same2 : length q2 ≡ length p2
  pub placed : Placed l (n - 1) q1 q2

Filled-step :
    {n l i left j i' left' j' : ℕ} {p1 p2 p1' p2' : List ℕ}
    → place_servers l i left j p1 p2 ≡ place_servers l i' left' j' p1' p2'
    → length p1' ≡ length p1
    → length p2' ≡ length p2
    → Filled n l i' left' j' p1' p2'
    → Filled n l i left j p1 p2
Filled-step e a b f = record {
  q1 = f.q1;
  q2 = f.q2;
  done = e ∙ f.done;
  same1 = f.same1 ∙ a;
  same2 = f.same2 ∙ b;
  placed = f.placed;
}

rank_next :
    (l i j : ℕ)
    → j ≡ (if ltb l i then i - 1 else i)
    → (i == l) ≡ false
    → (nth_other l j ≡ i) × (j + 1 ≡ (if ltb l (i + 1) then i + 1 - 1 else i + 1))
rank_next l i j at other = (ground (arith, at, other), ground (arith, at, other))

pub place_servers_lem :
    (n l i left j : ℕ) (p1 p2 : List ℕ)
    → i + left ≡ n
    → l < n
    → j ≡ (if ltb l i then i - 1 else i)
    → n ≤ length p1 + length p2
    → Placed l j p1 p2
    → Filled n l i left j p1 p2
unfolding place_servers
place_servers_lem n l i zero j p1 p2 all l_lt at room p =
    let e : j ≡ n - 1 = ground arith in
    record {
      q1 = p1;
      q2 = p2;
      done = refl;
      same1 = refl;
      same2 = refl;
      placed = subst (λ x. Placed l x p1 p2) e p;
    }
place_servers_lem n l i (suc left) j p1 p2 all l_lt at room p = elim (Bool-cases (i == l)) [
  | inl is_leader ↦ Filled-step (place_skip l i left j p1 p2 is_leader) refl refl (
      place_servers_lem n l (i + 1) left j p1 p2 (omega arith) l_lt
        (leader_passed l i j at is_leader) room p)
  | inr other ↦
      let lt_n = before_end n l i left j all l_lt at other in
      let (now, next) = rank_next l i j at other in
      elim (Bool-cases (ltb j (length p1))) [
        | inl fits ↦
            let lt = ltb→lt j (length p1) fits in
            let (p1', w) = write-some p1 j i lt in
            let same = length-write p1 j i w in
            Filled-step (place_first l i left j p1 p2 other fits w) same refl (
              place_servers_lem n l (i + 1) left (j + 1) p1' p2 (omega arith) l_lt next
                (omega (arith, same)) (Placed-first p w now lt))
        | inr full ↦
            let le = not_ltb j (length p1) full in
            let (p2', w) = write-some p2 (j - length p1) i (omega (arith, lt_n, le)) in
            let same = length-write p2 (j - length p1) i w in
            Filled-step (place_second l i left j p1 p2 other full w) refl same (
              place_servers_lem n l (i + 1) left (j + 1) p1 p2' (omega arith) l_lt next
                (omega (arith, same)) (Placed-second p w now le))
      ]
]
