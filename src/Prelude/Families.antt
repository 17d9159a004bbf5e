-- ===== src/Prelude/Families.antt =====
-- Families `ℕ → A`, as Go's slices whose length does not change: a write at one index, and how many of
-- the first `n` members are marked.
use Prim.Native.Nat.{ℕ, zero, suc, ◌+◌, ◌≤◌, ◌<◌}
use mathlib.Core.Path.{◌≡◌, refl}
use mathlib.Core.Logic.{inl, inr}
use mathlib.Core.Bool.{Bool, true, false}
use native.Mathlib.Omega.{arith}
use mit6824_distribute_syste.Prelude.Tests.{◌==◌, if◌then◌else◌, Bool-cases}

abbrev pub update {ℓ} : {A : Type ℓ} → (ℕ → A) → ℕ → A → ℕ → A
update f i a j = if i == j then a else f j

unfoldable pub tally : ℕ → (ℕ → Bool) → ℕ
tally zero f = 0
tally (suc n) f = tally n f + (if f n then 1 else 0)

tally-update_of_le :
    (n : ℕ) (f : ℕ → Bool) (i : ℕ) (b : Bool) → n ≤ i → tally n (update f i b) ≡ tally n f
unfolding tally
tally-update_of_le zero f i b h = refl
tally-update_of_le (suc n) f i b h = ground (arith, tally-update_of_le n f i b)

-- One more is marked.
pub tally-update :
    (n : ℕ) (f : ℕ → Bool) (i : ℕ)
    → i < n
    → f i ≡ false
    → tally n (update f i true) ≡ suc (tally n f)
unfolding tally
tally-update zero f i h e = absurd (omega arith)
tally-update (suc n) f i h e = elim (Bool-cases (i == n)) [
  | inl last ↦ ground (arith, tally-update_of_le n f i true, e)
  | inr below ↦ ground (arith, tally-update n f i)
]

-- Two sets of more than half of the indices share one.
pub tally-meet :
    (n : ℕ) (f g : ℕ → Bool)
    → n < tally n f + tally n g
    → (i : ℕ) × (i < n) × (f i ≡ true) × (g i ≡ true)
unfolding tally
tally-meet zero f g h = absurd (omega arith)
tally-meet (suc n) f g h = elim (Bool-cases (f n)) [
  | inl fn ↦ elim (Bool-cases (g n)) [
    | inl gn ↦ (n, omega arith, fn, gn)
    | inr gn ↦ let (i, lt, a, b) = tally-meet n f g (ground arith) in (i, omega arith, a, b)
  ]
  | inr fn ↦ let (i, lt, a, b) = tally-meet n f g (ground arith) in (i, omega arith, a, b)
]

pub tally-none : (n : ℕ) → tally n (λ i. false) ≡ 0
unfolding tally
tally-none zero = refl
tally-none (suc n) = ground (arith, tally-none n)
