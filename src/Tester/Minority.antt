-- ===== src/Tester/Minority.antt =====
-- src/kvraft/config.go: the sides that `make_partition` makes.
use mathlib.Core.Path.{subst}
use mit6824_distribute_syste.Prelude.{
  ℕ, zero, suc, ◌+◌, ◌-◌, ◌/◌, ◌<◌, ◌≡◌, ◌≢◌, refl, sym, ap, ◌∙◌, true, not, some, List, ltb, arith,
  Bool-cases, inl, inr, length, get_elem?, get_elem?_lt, get_elem?-write_self, get_elem?-write_ne,
  length-write, write-some, write, replicate, length-replicate, ℕ_discrete,
}
use mit6824_distribute_syste.Tester.Partition.{place_servers, make_partition}
use mit6824_distribute_syste.Tester.Sides.{member, AllBelow}
use mit6824_distribute_syste.Tester.Split.{
  member-get_elem?, member_at, AllBelow-get_elem?, nth_other, not_ltb, Placed, place_servers_lem,
}

-- Two sides of all servers, one with a majority and one with the leader.
pub record Split (k n l : ℕ) (p1 p2 : List ℕ) : Type 0 where
  pub majority : length p1 ≡ k + 1
  pub minority : length p2 ≡ k
  pub leader_there : member l p2 ≡ true
  pub servers1 : AllBelow n p1
  pub servers2 : AllBelow n p2
  pub one_side : (i : ℕ) → i < n → member i p1 ≡ not (member i p2)

nth_other_lt : (l r n : ℕ) → l < n → r + 1 < n → nth_other l r < n
nth_other_lt l r n h k = ground arith

nth_other-injective : (l r s : ℕ) → nth_other l r ≡ nth_other l s → r ≡ s
nth_other-injective l r s h = ground arith

nth_other-ne : (l r : ℕ) → nth_other l r ≢ l
nth_other-ne l r h = ground arith

-- The rank of a server that is not the leader.
rank_of : (l i n : ℕ) → l < n → i < n → i ≢ l → (r : ℕ) × (r + 1 < n) × (nth_other l r ≡ i)
rank_of l i n l_lt i_lt ne = elim (Bool-cases (ltb i l)) [
  | inl e ↦ (i, ground arith, ground arith)
  | inr e ↦ (i - 1, ground arith, ground arith)
]

module _ {k n l m : ℕ} (odd : n ≡ k + k + 1) (pos : k ≡ suc m) (l_lt : l < n) {p1 p2 q2 : List ℕ}
    (len1 : length p1 ≡ k + 1) (len2 : length p2 ≡ k) (p : Placed l (n - 1) p1 p2)
    (w : write p2 m l ≡ some q2) where
  -- What is at each place.
  in_first : (r : ℕ) → r < k + 1 → get_elem? p1 r ≡ some (nth_other l r)
  in_first r lt = p.first r (omega (arith, odd, pos)) (omega (arith, len1))

  in_second : (s : ℕ) → s < m → get_elem? q2 s ≡ some (nth_other l (k + 1 + s))
  in_second s lt =
      get_elem?-write_ne p2 m s l w (omega arith)
      ∙ p.second s (omega (arith, odd, pos, len1))
      ∙ ap (λ x. some (nth_other l (x + s))) len1

  member-first : (i : ℕ) → member i p1 ≡ true → (r : ℕ) × (r < k + 1) × (nth_other l r ≡ i)
  member-first i h =
      let (r, lt, at) = member_at i p1 h in
      let lt' : r < k + 1 = omega (arith, len1) in (r, lt', ground (arith, in_first r lt', at))

  member-second :
      (i : ℕ) → member i q2 ≡ true → i ≢ l → (s : ℕ) × (s < m) × (nth_other l (k + 1 + s) ≡ i)
  member-second i h ne =
      let (s, lt, at) = member_at i q2 h in
      elim (ℕ_discrete m s) [
        | yes e ↦ absurd (
            ne (
              ground (
                arith,
                at,
                subst (λ x. get_elem? q2 x ≡ some l) e (get_elem?-write_self p2 m l w),
              )))
        | no other ↦
            let lt' : s < m = omega (arith, len2, pos, length-write p2 m l w) in
            (s, lt', ground (arith, in_second s lt', at))
      ]

  leader-second : member l q2 ≡ true
  leader-second = member-get_elem? l q2 m (get_elem?-write_self p2 m l w)

  one_side_lem : (i : ℕ) → i < n → member i p1 ≡ not (member i q2)
  one_side_lem i lt = elim (ℕ_discrete i l) [
    | yes e ↦ elim (Bool-cases (member i p1)) [
      | inl h ↦ let (r, r_lt, at) = member-first i h in absurd (nth_other-ne l r (at ∙ e))
      | inr h ↦ h ∙ ap not (sym (ap (λ x. member x q2) e ∙ leader-second))
    ]
    | no ne ↦
        let (r, r_lt, at) = rank_of l i n l_lt lt ne in
        elim (Bool-cases (ltb r (k + 1))) [
          | inl first ↦
              let here =
                member-get_elem? i p1 r (in_first r (ground (arith, first)) ∙ ap some at) in
              elim (Bool-cases (member i q2)) [
                | inl there ↦
                    let (s, s_lt, at_s) = member-second i there ne in
                    let same = nth_other-injective l r (k + 1 + s) (at ∙ sym at_s) in
                    absurd (ground (arith, first, same))
                | inr away ↦ here ∙ sym (ap not away)
              ]
          | inr second ↦
              let le = not_ltb r (k + 1) second in
              let s = r - (k + 1) in
              let back : k + 1 + s ≡ r = omega (arith, le) in
              let s_lt : s < m = omega (arith, le, r_lt, odd, pos) in
              let there =
                member-get_elem? i q2 s (in_second s s_lt ∙ ap some (ap (nth_other l) back ∙ at)) in
              elim (Bool-cases (member i p1)) [
                | inl here ↦
                    let (r', r_lt', at') = member-first i here in
                    let same = nth_other-injective l r' r (at' ∙ sym at) in
                    absurd (omega (arith, le, r_lt', same))
                | inr away ↦ away ∙ sym (ap not there)
              ]
        ]
  ]

  sides-Split : Split k n l p1 q2
  sides-Split = record {
    majority = len1;
    minority = length-write p2 m l w ∙ len2;
    leader_there = leader-second;
    servers1 = AllBelow-get_elem? n p1 (λ r i at.
        let r_lt : r < k + 1 = omega (arith, get_elem?_lt p1 r at, len1) in
        let e : nth_other l r ≡ i = ground (arith, in_first r r_lt, at) in
        subst (λ x. x < n) e (nth_other_lt l r n l_lt (omega (arith, odd, pos))));
    servers2 = AllBelow-get_elem? n q2 (λ s i at. elim (ℕ_discrete m s) [
      | yes e ↦
          let self = subst (λ x. get_elem? q2 x ≡ some l) e (get_elem?-write_self p2 m l w) in
          let f : l ≡ i = ground (arith, self, at) in subst (λ x. x < n) f l_lt
      | no other ↦
          let s_lt : s < m =
            omega (arith, get_elem?_lt q2 s at, length-write p2 m l w, len2, pos) in
          let e : nth_other l (k + 1 + s) ≡ i = ground (arith, in_second s s_lt, at) in
          subst (λ x. x < n) e (nth_other_lt l (k + 1 + s) n l_lt (omega (arith, odd, pos)))
    ]);
    one_side = one_side_lem;
  }

start-Placed : (l : ℕ) (p1 p2 : List ℕ) → Placed l 0 p1 p2
start-Placed l p1 p2 = record {
  first = λ r lt r_lt. absurd (omega arith);
  second = λ s lt. absurd (omega arith);
}

make_partition_run :
    (n l m : ℕ) {q1 q2 q2' : List ℕ}
    → place_servers l 0 n 0 (replicate (n / 2 + 1) 0) (replicate (n / 2) 0) ≡ some (q1, q2)
    → length q2 ≡ suc m
    → write q2 m l ≡ some q2'
    → make_partition n l ≡ some (q1, q2')
unfolding make_partition
make_partition_run n l m e len w = rw (e, len, w) refl

-- With an odd number of servers, three at least, `make_partition` stays in the bounds of its slices, and
-- puts each server on one side: one more than half on the first, and the leader with the rest on the
-- second.
pub make_partition_lem :
    (k n l : ℕ)
    → n ≡ k + k + 1
    → 0 < k
    → l < n
    → (p1 p2 : List ℕ) × (make_partition n l ≡ some (p1, p2)) × Split k n l p1 p2
make_partition_lem zero n l odd pos lt = absurd (omega arith)
make_partition_lem (suc m) n l odd pos lt =
    let p1 : List ℕ = replicate (n / 2 + 1) 0 in
    let p2 : List ℕ = replicate (n / 2) 0 in
    let half : n / 2 ≡ suc m = omega (arith, odd) in
    let len1 : length p1 ≡ suc m + 1 = length-replicate (n / 2 + 1) 0 ∙ ap (λ x. x + 1) half in
    let len2 : length p2 ≡ suc m = length-replicate (n / 2) 0 ∙ half in
    let f =
      place_servers_lem n l 0 n 0 p1 p2 (omega arith) lt (ground arith)
        (omega (arith, len1, len2, odd)) (start-Placed l p1 p2) in
    let last : length f.q2 ≡ suc m = f.same2 ∙ len2 in
    let (q2, w) = write-some f.q2 m l (omega (arith, last)) in
    (
      f.q1,
      q2,
      make_partition_run n l m f.done last w,
      sides-Split odd refl lt (f.same1 ∙ len1) last f.placed w,
    )
