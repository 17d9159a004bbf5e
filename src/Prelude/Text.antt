-- ===== src/Prelude/Text.antt =====
-- Texts as lists of bytes, as Go's strings are, and `strconv.Itoa`.
use Prim.Native.Nat.{ℕ, zero, suc, ◌+◌, ◌-◌, ◌*◌, ◌/◌, ◌%◌, ◌≤◌, ◌<◌}
use mathlib.Core.Path.{◌≡◌, refl, ap, ◌∙◌}
use mathlib.Core.Logic.{◌≢◌, ◌↔◌, inl, inr}
use mathlib.Core.Bool.{Bool, true, false, ◌&&◌}
use mathlib.Core.List.{List, [], ◌∷◌, ◌++◌}
use native.Mathlib.Omega.{arith}
use mit6824_distribute_syste.Prelude.Tests.{ltb, ◌==◌, if◌then◌else◌, Bool-cases}

abbrev pub Text : Type 0
Text = List ℕ

abbrev pub text_eq : Text → Text → Bool
text_eq [] [] = true
text_eq [] (y ∷ ys) = false
text_eq (x ∷ xs) [] = false
text_eq (x ∷ xs) (y ∷ ys) = x == y && text_eq xs ys

pub text_eq_iff : (xs ys : Text) → (text_eq xs ys ≡ true) ↔ (xs ≡ ys)
text_eq_iff [] [] = ((λ _. refl), (λ _. refl))
text_eq_iff [] (y ∷ ys) = ((λ h. absurd (cc)), (λ h. absurd (cc)))
text_eq_iff (x ∷ xs) [] = ((λ h. absurd (cc)), (λ h. absurd (cc)))
text_eq_iff (x ∷ xs) (y ∷ ys) = ground (arith, text_eq_iff xs ys)

-- Go's `<` on strings.
abbrev pub text_lt : Text → Text → Bool
text_lt [] [] = false
text_lt [] (y ∷ ys) = true
text_lt (x ∷ xs) [] = false
text_lt (x ∷ xs) (y ∷ ys) = let rest = text_lt xs ys in if x == y then rest else ltb x y

-- `strconv.Itoa` of a number that is not negative.
itoa_loop : ℕ → ℕ → Text → Text
itoa_loop zero n acc = acc
itoa_loop (suc fuel) n acc =
    let more = itoa_loop fuel (n / 10) ((48 + n % 10) ∷ acc) in
    if ltb n 10 then (48 + n) ∷ acc else more

unfoldable pub itoa : ℕ → Text
unfolding itoa_loop
itoa n = itoa_loop (suc n) n []

-- The value of decimals that follow a number.
unfoldable pub value_from : ℕ → Text → ℕ
value_from a [] = a
value_from a (d ∷ ds) = value_from (a * 10 + (d - 48)) ds

value_from-itoa_loop :
    (fuel n : ℕ) (acc : Text) → n < fuel → value_from 0 (itoa_loop fuel n acc) ≡ value_from n acc
unfolding value_from itoa_loop
value_from-itoa_loop zero n acc h = absurd (omega arith)
value_from-itoa_loop (suc fuel) n acc h = elim (Bool-cases (ltb n 10)) [
  | inl small ↦ rw small (ap (λ k. value_from k acc) (omega arith))
  | inr large ↦ rw large (
      value_from-itoa_loop fuel (n / 10) ((48 + n % 10) ∷ acc) (ground arith)
      ∙ ap (λ k. value_from k acc) (omega arith))
]

pub value_from-itoa : (n : ℕ) → value_from 0 (itoa n) ≡ n
unfolding itoa value_from
value_from-itoa n = value_from-itoa_loop (suc n) n [] (omega arith)

itoa_loop-ne-nil : (fuel n d : ℕ) (acc : Text) → itoa_loop fuel n (d ∷ acc) ≢ []
unfolding itoa_loop
itoa_loop-ne-nil zero n d acc e = cc
itoa_loop-ne-nil (suc fuel) n d acc e =
    ground (arith, itoa_loop-ne-nil fuel (n / 10) (48 + n % 10) (d ∷ acc))

pub itoa-ne-nil : (n : ℕ) → itoa n ≢ []
unfolding itoa itoa_loop
itoa-ne-nil n e = ground (arith, itoa_loop-ne-nil n (n / 10) (48 + n % 10) [])

-- Different numbers have different decimals.
pub itoa-injective : (n m : ℕ) → itoa n ≡ itoa m → n ≡ m
unfolding itoa value_from
itoa-injective n m e = omega (
  arith,
  value_from-itoa_loop (suc n) n [] (omega arith),
  value_from-itoa_loop (suc m) m [] (omega arith),
  ap (value_from 0) e,
)

-- Every byte is a decimal digit.
abbrev pub AllDigits : Text → Type 0
AllDigits [] = Unit {0}
AllDigits (x ∷ xs) = (48 ≤ x) × (x ≤ 57) × AllDigits xs

itoa_loop-AllDigits : (fuel n : ℕ) (acc : Text) → AllDigits acc → AllDigits (itoa_loop fuel n acc)
unfolding itoa_loop
itoa_loop-AllDigits zero n acc h = h
itoa_loop-AllDigits (suc fuel) n acc h = elim (Bool-cases (ltb n 10)) [
  | inl small ↦ rw small (ground arith)
  | inr large ↦
      rw large
        (itoa_loop-AllDigits fuel (n / 10) ((48 + n % 10) ∷ acc) (omega arith, omega arith, h))
]

pub itoa-AllDigits : (n : ℕ) → AllDigits (itoa n)
unfolding itoa
itoa-AllDigits n = itoa_loop-AllDigits (suc n) n [] tt

pub cancel_prefix : (xs ys zs : Text) → xs ++ ys ≡ xs ++ zs → ys ≡ zs
cancel_prefix [] ys zs e = e
cancel_prefix (x ∷ xs) ys zs e = cancel_prefix xs ys zs (cc)

-- Digits end at the first byte that is none.
pub split_digits :
    (xs xs' ys ys' : Text) (c : ℕ)
    → AllDigits xs
    → AllDigits xs'
    → c < 48
    → xs ++ c ∷ ys ≡ xs' ++ c ∷ ys'
    → (xs ≡ xs') × (ys ≡ ys')
split_digits [] [] ys ys' c d d' h e = (refl, cc)
split_digits [] (x ∷ xs') ys ys' c d d' h e = absurd (ground arith)
split_digits (x ∷ xs) [] ys ys' c d d' h e = absurd (ground arith)
split_digits (x ∷ xs) (x' ∷ xs') ys ys' c d d' h e =
    let (p, q) = split_digits xs xs' ys ys' c d.2 d'.2 h (cc) in (cc, q)
