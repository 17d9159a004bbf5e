-- ===== src/Tester/Ends.antt =====
-- src/raft/config.go, `start1`: the ends that it makes.
use mit6824_distribute_syste.Prelude.{
  ℕ, zero, suc, ◌+◌, ◌≤◌, ◌<◌, ◌≡◌, ◌≢◌, refl, sym, ◌∙◌, ◌⊎◌, inl, inr, false, none, some, arith,
  Option-cases, ap, ℕ_discrete,
}
use mathlib.Core.Path.{subst}
use mit6824_distribute_syste.Prelude.Text.{Text, text_eq_iff, itoa}
use mit6824_distribute_syste.Prelude.Maps.{lookup, lookup-put, put}
use mit6824_distribute_syste.Labrpc.Network.{Network, at_key, make_end, connect}
use mit6824_distribute_syste.Tester.Config.{make_ends}
use mit6824_distribute_syste.Tester.Enabling.{live}

-- What the loop of `start1` leaves: the names are new and differ, their ends are disabled and lead to
-- the servers in their order, and the rest is as before.
pub record Made (names : ℕ → Text) (j left : ℕ) (net net' : Network) : Type 0 where
  pub fresh : (q : ℕ) → j ≤ q → q < j + left → lookup (names q) net.ends ≡ none
  pub distinct : (p q : ℕ) → j ≤ p → p < j + left → j ≤ q → q < j + left → names p ≡ names q → p ≡ q
  pub known : (q : ℕ) → j ≤ q → q < j + left → lookup (names q) net'.ends ≢ none
  pub kept : (e : Text) → lookup e net.ends ≢ none → lookup e net'.ends ≢ none
  pub off : (q : ℕ) → j ≤ q → q < j + left → live (names q) net' ≡ false
  pub leads :
      (q : ℕ) → j ≤ q → q < j + left → at_key none (names q) net'.connections ≡ some (itoa q)
  pub others :
      (e : Text)
      → lookup e net.ends ≢ none
      → (live e net' ≡ live e net)
        × (at_key none e net'.connections ≡ at_key none e net.connections)
  pub servers : net'.servers ≡ net.servers

-- A network with one end more.
module _ (e : Text) (name : Text) (net : Network) where
  abbrev with_end : Network
  with_end = record net {
    ends = put e (record { endname = e }) net.ends;
    enabled = put e false net.enabled;
    connections = put e (some name) (put e none net.connections);
  }

  with_end-known : lookup e with_end.ends ≢ none
  with_end-known h =
      ground (arith, h, lookup-put e e (record { endname = e }) net.ends, text_eq_iff e e)

  with_end-kept : (a : Text) → lookup a net.ends ≢ none → lookup a with_end.ends ≢ none
  with_end-kept a ne h = ne (ground (arith, h, lookup-put e a (record { endname = e }) net.ends))

  with_end-fresh : (a : Text) → lookup a with_end.ends ≡ none → lookup a net.ends ≡ none
  with_end-fresh a h = ground (arith, h, lookup-put e a (record { endname = e }) net.ends)

  with_end-off : live e with_end ≡ false
  with_end-off = ground (arith, lookup-put e e false net.enabled, text_eq_iff e e)

  with_end-leads : at_key none e with_end.connections ≡ some name
  with_end-leads =
      ground (arith, lookup-put e e (some name) (put e none net.connections), text_eq_iff e e)

  with_end-others :
      (a : Text)
      → e ≢ a
      → (live a with_end ≡ live a net)
        × (at_key none a with_end.connections ≡ at_key none a net.connections)
  with_end-others a ne = (
    ground (arith, lookup-put e a false net.enabled, text_eq_iff e a),
    ground (
      arith,
      lookup-put e a (some name) (put e none net.connections),
      lookup-put e a none net.connections,
      text_eq_iff e a,
    ),
  )

-- From index `j` on it is `j` or a later one.
from_j : (j left q : ℕ) → j ≤ q → q < j + suc left → (j ≡ q) ⊎ ((j + 1 ≤ q) × (q < j + 1 + left))
from_j j left q le lt = elim (ℕ_discrete j q) [
  | yes e ↦ inl e
  | no ne ↦ inr (omega arith, omega arith)
]

pub make_ends-Made :
    (names : ℕ → Text) (j left : ℕ) (net net' : Network)
    → make_ends names j left net ≡ some net'
    → Made names j left net net'
unfolding make_ends make_end connect
make_ends-Made names j zero net net' h =
    let e : net ≡ net' = ground (arith, h) in
    subst (Made names j 0 net) e (record {
      fresh = λ q le lt. absurd (omega arith);
      distinct = λ p q le lt le' lt'. absurd (omega arith);
      known = λ q le lt. absurd (omega arith);
      kept = λ a k. k;
      off = λ q le lt. absurd (omega arith);
      leads = λ q le lt. absurd (omega arith);
      others = λ a k. (refl, refl);
      servers = refl;
    })
make_ends-Made names j (suc left) net net' h = elim (Option-cases (lookup (names j) net.ends)) [
  | inr (old, there) ↦ absurd (ground (arith, there, h))
  | inl new ↦
      let e = names j in
      let net1 = with_end e (itoa j) net in
      let rest : make_ends names (j + 1) left net1 ≡ some net' = ground (arith, new, h) in
      let r = make_ends-Made names (j + 1) left net1 net' rest in
      let known1 = with_end-known e (itoa j) net in
      let now = r.others e known1 in
      record {
        fresh = λ q le lt. elim (from_j j left q le lt) [
          | inl same ↦ subst (λ x. lookup (names x) net.ends ≡ none) same new
          | inr (le', lt') ↦ with_end-fresh e (itoa j) net (names q) (r.fresh q le' lt')
        ];
        distinct = λ p q le lt le' lt' same. elim (from_j j left p le lt) [
          | inl at_p ↦ elim (from_j j left q le' lt') [
            | inl at_q ↦ sym at_p ∙ at_q
            | inr (a, b) ↦
                absurd
                  (known1 (ap (λ x. lookup x net1.ends) (ap names at_p ∙ same) ∙ r.fresh q a b))
          ]
          | inr (a, b) ↦ elim (from_j j left q le' lt') [
            | inl at_q ↦
                absurd
                  (known1 (ap (λ x. lookup x net1.ends) (ap names at_q ∙ sym same) ∙ r.fresh p a b))
            | inr (c, d) ↦ r.distinct p q a b c d same
          ]
        ];
        known = λ q le lt. elim (from_j j left q le lt) [
          | inl same ↦ subst (λ x. lookup (names x) net'.ends ≢ none) same (r.kept e known1)
          | inr (a, b) ↦ r.known q a b
        ];
        kept = λ a k. r.kept a (with_end-kept e (itoa j) net a k);
        off = λ q le lt. elim (from_j j left q le lt) [
          | inl same ↦
              subst (λ x. live (names x) net' ≡ false) same (now.0 ∙ with_end-off e (itoa j) net)
          | inr (a, b) ↦ r.off q a b
        ];
        leads = λ q le lt. elim (from_j j left q le lt) [
          | inl same ↦
              subst (λ x. at_key none (names x) net'.connections ≡ some (itoa x)) same
                (now.1 ∙ with_end-leads e (itoa j) net)
          | inr (a, b) ↦ r.leads q a b
        ];
        others = λ a k.
            let differ : e ≢ a = λ same. k (subst (λ x. lookup x net.ends ≡ none) same new) in
            let before = with_end-others e (itoa j) net a differ in
            let after = r.others a (with_end-kept e (itoa j) net a k) in
            (after.0 ∙ before.0, after.1 ∙ before.1);
        servers = r.servers;
      }
]
