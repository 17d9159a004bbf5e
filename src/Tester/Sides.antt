-- ===== src/Tester/Sides.antt =====
-- src/kvraft/config.go: which ends are enabled after `partition`.
use mathlib.Core.Path.{subst}
use mit6824_distribute_syste.Prelude.{
  ℕ, ◌+◌, ◌<◌, ◌≡◌, refl, ◌∙◌, Bool, true, false, ◌&&◌, ◌||◌, Option, some, List, [], ◌∷◌, ◌==◌,
  if◌then◌else◌, arith, Bool-cases, ap, length, ◌≤◌, inl, inr,
}
use mit6824_distribute_syste.Prelude.Text.{Text, text_eq, text_eq_iff}
use mit6824_distribute_syste.Prelude.Maps.{lookup-put}
use mit6824_distribute_syste.Labrpc.Network.{Network, enable}
use mit6824_distribute_syste.Tester.Enabling.{live}
use mit6824_distribute_syste.Tester.Restarts.{same_some}
use mit6824_distribute_syste.Tester.Partition.{
  enable_out, enable_in, connect_unlocked, disable_out, disable_in, disconnect_unlocked, split_side,
  partition,
}

abbrev pub member : ℕ → List ℕ → Bool
member i [] = false
member i (j ∷ js) = i == j || member i js

-- Every number is below `n`.
abbrev pub AllBelow : ℕ → List ℕ → Type 0
AllBelow n [] = Unit {0}
AllBelow n (i ∷ is) = (i < n) × AllBelow n is

-- All servers have been started, and no two of their ends have one name.
pub record Started (n : ℕ) (endnames : ℕ → Option (ℕ → Text)) : Type 0 where
  pub rows : (p : ℕ) → p < n → (row : ℕ → Text) × (endnames p ≡ some row)
  pub distinct :
      (p q p' q' : ℕ) (row row' : ℕ → Text)
      → p < n
      → q < n
      → p' < n
      → q' < n
      → endnames p ≡ some row
      → endnames p' ≡ some row'
      → row q ≡ row' q'
      → (p ≡ p') × (q ≡ q')

module _ {n : ℕ} {endnames : ℕ → Option (ℕ → Text)} (started : Started n endnames) (p q : ℕ)
    (row : ℕ → Text) (p_lt : p < n) (q_lt : q < n) (at : endnames p ≡ some row) where
  -- The end from p to q, when an end is enabled or disabled.
  live-enable :
      (i t : ℕ) (row' : ℕ → Text) (b : Bool) (net : Network)
      → i < n
      → t < n
      → endnames i ≡ some row'
      → live (row q) (enable (row' t) b net) ≡ (if i == p && t == q then b else live (row q) net)
  unfolding enable
  live-enable i t row' b net i_lt t_lt at' =
      let found = lookup-put (row' t) (row q) b net.enabled in
      elim (Bool-cases (text_eq (row' t) (row q))) [
        | inl same ↦
            let (e, f) =
              started.distinct i t p q row' row i_lt t_lt p_lt q_lt at' at
                ((text_eq_iff (row' t) (row q)).0 same) in
            ground (arith, found, same, e, f)
        | inr other ↦ elim (Bool-cases (i == p && t == q)) [
          | inl both ↦
              let ei : i ≡ p = ground (arith, both) in
              let et : t ≡ q = ground (arith, both) in
              let rows : row' ≡ row = same_some (subst (λ x. endnames x ≡ some row') ei at') at in
              let same : row' t ≡ row q = ap row' et ∙ ap (λ f. f q) rows in
              absurd (ground (arith, (text_eq_iff (row' t) (row q)).1 same, other))
          | inr apart ↦ ground (arith, found, other, apart)
        ]
      ]

  enable_out_lem :
      (i : ℕ) (to : List ℕ) (net : Network)
      → i < n
      → AllBelow n to
      → (net' : Network) × (enable_out endnames i to net ≡ some net')
        × (live (row q) net' ≡ (if i == p && member q to then true else live (row q) net))
  unfolding enable_out
  enable_out_lem i [] net lt all = (net, refl, ground arith)
  enable_out_lem i (t ∷ to) net lt all =
      let (row', at') = started.rows i lt in
      let net1 = enable (row' t) true net in
      let (net', done, after) = enable_out_lem i to net1 lt all.1 in
      let now = live-enable i t row' true net lt all.0 at' in
      (net', ground (arith, at', done), ground (arith, now, after))

  enable_in_lem :
      (i : ℕ) (to : List ℕ) (net : Network)
      → i < n
      → AllBelow n to
      → (net' : Network) × (enable_in endnames i to net ≡ some net')
        × (live (row q) net' ≡ (if i == q && member p to then true else live (row q) net))
  unfolding enable_in
  enable_in_lem i [] net lt all = (net, refl, ground arith)
  enable_in_lem i (t ∷ to) net lt all =
      let (row', at') = started.rows t all.0 in
      let net1 = enable (row' i) true net in
      let (net', done, after) = enable_in_lem i to net1 lt all.1 in
      let now = live-enable t i row' true net all.0 lt at' in
      (net', ground (arith, at', done), ground (arith, now, after))

  disable_out_lem :
      (i : ℕ) (from : List ℕ) (net : Network)
      → i < n
      → AllBelow n from
      → live (row q) (disable_out endnames i from net)
        ≡ (if i == p && member q from then false else live (row q) net)
  unfolding disable_out
  disable_out_lem i [] net lt all = ground arith
  disable_out_lem i (t ∷ from) net lt all =
      let (row', at') = started.rows i lt in
      let net1 = enable (row' t) false net in
      let after = disable_out_lem i from net1 lt all.1 in
      let now = live-enable i t row' false net lt all.0 at' in
      rw (at', disable_out) (ground (arith, now, after))

  disable_in_lem :
      (i j : ℕ) (from : List ℕ) (net : Network)
      → i < n
      → AllBelow n from
      → j + length from ≤ n
      → (net' : Network) × (disable_in endnames i j from net ≡ some net')
        × (live (row q) net' ≡ (if i == q && member p from then false else live (row q) net))
  unfolding disable_in
  disable_in_lem i j [] net lt all fits = (net, refl, ground arith)
  disable_in_lem i j (t ∷ from) net lt all fits =
      let (row', at') = started.rows t all.0 in
      let (row_j, at_j) = started.rows j (omega arith) in
      let net1 = enable (row' i) false net in
      let (net', done, after) = disable_in_lem i (j + 1) from net1 lt all.1 (omega arith) in
      let now = live-enable t i row' false net all.0 lt at' in
      (net', ground (arith, at', at_j, done), ground (arith, now, after))

  -- Server i is at one end, and the other end is in the list.
  abbrev touches : ℕ → List ℕ → Bool
  touches i js = i == p && member q js || i == q && member p js

  pub connect_unlocked_lem :
      (i : ℕ) (to : List ℕ) (net : Network)
      → i < n
      → AllBelow n to
      → (net' : Network) × (connect_unlocked endnames i to net ≡ some net')
        × (live (row q) net' ≡ (if touches i to then true else live (row q) net))
  unfolding connect_unlocked
  connect_unlocked_lem i to net lt all =
      let (net1, done1, first) = enable_out_lem i to net lt all in
      let (net2, done2, second) = enable_in_lem i to net1 lt all in
      (net2, ground (arith, done1, done2), ground (arith, first, second))

  disconnect_unlocked_lem :
      (i : ℕ) (from : List ℕ) (net : Network)
      → i < n
      → AllBelow n from
      → length from ≤ n
      → (net' : Network) × (disconnect_unlocked endnames i from net ≡ some net')
        × (live (row q) net' ≡ (if touches i from then false else live (row q) net))
  unfolding disconnect_unlocked
  disconnect_unlocked_lem i from net lt all fits =
      let first = disable_out_lem i from net lt all in
      let (net2, done, second) =
        disable_in_lem i 0 from (disable_out endnames i from net) lt all (omega arith) in
      (net2, done, ground (arith, first, second))

  -- The ends between servers of a side, and those between the sides.
  abbrev within : List ℕ → List ℕ → Bool
  within left mine = member p left && member q mine || member q left && member p mine

  split_side_lem :
      (left mine other : List ℕ) (net : Network)
      → AllBelow n left
      → AllBelow n mine
      → AllBelow n other
      → length other ≤ n
      → ((i : ℕ) → member i left ≡ true → member i mine ≡ true)
      → ((i : ℕ) → member i mine ≡ true → member i other ≡ false)
      → (net' : Network) × (split_side endnames left mine other net ≡ some net')
        × (live (row q) net' ≡ (
            if within left mine
            then true
            else if within left other
            then false
            else live (row q) net))
  unfolding split_side
  split_side_lem [] mine other net l m o fits sub apart = (net, refl, ground arith)
  split_side_lem (i ∷ left) mine other net l m o fits sub apart =
      let (net1, done1, first) = disconnect_unlocked_lem i other net l.0 o fits in
      let (net2, done2, second) = connect_unlocked_lem i mine net1 l.0 m in
      let (net3, done3, third) =
        split_side_lem left mine other net2 l.1 m o fits (λ j h. sub j (ground (arith, h))) apart in
      (
        net3,
        ground (arith, done1, done2, done3),
        ground (arith, first, second, third, sub p, sub q, apart p, apart q),
      )

  -- Where all servers have been started and the two sides are disjoint lists of servers, `partition` does
  -- not end the process, and the end of server p for server q is enabled if both are on one side, and
  -- disabled if they are on different sides. If one of them is on no side, it is as it was.
  pub partition_lem :
      (p1 p2 : List ℕ) (net : Network)
      → AllBelow n p1
      → AllBelow n p2
      → length p1 ≤ n
      → length p2 ≤ n
      → ((i : ℕ) → member i p1 ≡ true → member i p2 ≡ false)
      → (net' : Network) × (partition endnames p1 p2 net ≡ some net')
        × (live (row q) net' ≡ (
            if member p p1 && member q p1 || member p p2 && member q p2
            then true
            else if member p p1 && member q p2 || member p p2 && member q p1
            then false
            else live (row q) net))
  unfolding partition
  partition_lem p1 p2 net l m fits fits' apart =
      let (net1, done1, first) = split_side_lem p1 p1 p2 net l l m fits' (λ i h. h) apart in
      let (net2, done2, second) =
        split_side_lem p2 p2 p1 net1 m m l fits (λ i h. h) (λ i h. ground (arith, h, apart i)) in
      (net2, ground (arith, done1, done2), ground (arith, first, second, apart p, apart q))
