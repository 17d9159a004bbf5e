-- ===== src/Tester/Rows.antt =====
-- src/raft/config.go and src/kvraft/config.go: the rows of ends when a server gets a new one.
use mathlib.Core.Path.{subst}
use mit6824_distribute_syste.Prelude.{
  ℕ, ◌<◌, ◌≡◌, ◌≢◌, sym, ap, ◌∙◌, Option, none, some, arith, ◌⊎◌, inl, inr, ℕ_discrete,
}
use mit6824_distribute_syste.Prelude.Text.{Text}
use mit6824_distribute_syste.Prelude.Families.{update}
use mit6824_distribute_syste.Prelude.Maps.{lookup}
use mit6824_distribute_syste.Labrpc.Network.{Network}
use mit6824_distribute_syste.Tester.Ends.{Made}

-- A row of ends is the new server's or an older one.
pub which_row :
    (endnames : ℕ → Option (ℕ → Text)) (i p : ℕ) (names row : ℕ → Text)
    → update endnames i (some names) p ≡ some row
    → ((i ≡ p) × (names ≡ row)) ⊎ ((i ≢ p) × (endnames p ≡ some row))
which_row endnames i p names row h = elim (ℕ_discrete i p) [
  | yes e ↦ inl (e, ground (arith, h, e))
  | no ne ↦ inr (ne, ground (arith, h, ne))
]

-- The ends of the servers are known to the network and differ.
pub record Rows (n : ℕ) (endnames : ℕ → Option (ℕ → Text)) (net : Network) : Type 0 where
  pub known :
      (p q : ℕ) (row : ℕ → Text) → q < n → endnames p ≡ some row → lookup (row q) net.ends ≢ none
  pub distinct :
      (p q p' q' : ℕ) (row row' : ℕ → Text)
      → q < n
      → q' < n
      → endnames p ≡ some row
      → endnames p' ≡ some row'
      → row q ≡ row' q'
      → (p ≡ p') × (q ≡ q')

pub Made-Rows :
    {n : ℕ} {endnames : ℕ → Option (ℕ → Text)} {net net' : Network} (i : ℕ) (names : ℕ → Text)
    → Rows n endnames net
    → Made names 0 n net net'
    → Rows n (update endnames i (some names)) net'
Made-Rows {n} {endnames} {net} {net'} i names w m =
    let row = λ (p : ℕ) (r : ℕ → Text). which_row endnames i p names r in
    record {
      known = λ p q r q_lt at. elim (row p r at) [
        | inl (e, same) ↦
            subst (λ f. lookup (f q) net'.ends ≢ none) same (m.known q (omega arith) (omega arith))
        | inr (ne, old) ↦ m.kept (r q) (w.known p q r q_lt old)
      ];
      distinct = λ p q p' q' r r' q_lt q_lt' at at' same. elim (row p r at) [
        | inl (e, is_new) ↦ elim (row p' r' at') [
          | inl (e', is_new') ↦ (
            sym e ∙ e',
            m.distinct q q' (omega arith) (omega arith) (omega arith) (omega arith)
                (ap (λ f. f q) is_new ∙ same ∙ sym (ap (λ f. f q') is_new')),
          )
          | inr (ne, old) ↦ absurd (
              w.known p' q' r' q_lt' old (
                ap (λ e. lookup e net.ends) (sym same ∙ sym (ap (λ f. f q) is_new))
                ∙ m.fresh q (omega arith) (omega arith)))
        ]
        | inr (ne, old) ↦ elim (row p' r' at') [
          | inl (e', is_new') ↦ absurd (
              w.known p q r q_lt old (
                ap (λ e. lookup e net.ends) (same ∙ sym (ap (λ f. f q') is_new'))
                ∙ m.fresh q' (omega arith) (omega arith)))
          | inr (ne', old') ↦ w.distinct p q p' q' r r' q_lt q_lt' old old' same
        ]
      ];
    }
