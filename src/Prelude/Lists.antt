-- ===== src/Prelude/Lists.antt =====
-- Lists measured and indexed by native numbers, under the library's names.
use Prim.Native.Nat.{ℕ, zero, suc, ◌+◌, ◌-◌, ◌≤◌, ◌<◌}
use mathlib.Core.Path.{◌≡◌, refl, ap}
use mathlib.Core.Logic.{◌≢◌, inl, inr}
use mathlib.Core.Option.{Option, none, some}
use mit6824_distribute_syste.Prelude.Tests.{Option-cases}
use mathlib.Core.List.{List, [], ◌∷◌, ◌++◌}
use native.Mathlib.Omega.{arith}
use native.Mathlib.Nat.{suc-add}

module _ {ℓ} {A : Type ℓ} where
  abbrev pub length : List A → ℕ
  length [] = 0
  length (x ∷ xs) = suc (length xs)

  abbrev pub get_elem? : List A → ℕ → Option A
  get_elem? [] i = none
  get_elem? (x ∷ xs) zero = some x
  get_elem? (x ∷ xs) (suc i) = get_elem? xs i

  -- A write out of bounds changes nothing.
  abbrev pub set : List A → ℕ → A → List A
  set [] i v = []
  set (x ∷ xs) zero v = v ∷ xs
  set (x ∷ xs) (suc i) v = x ∷ set xs i v

  -- `xs[i] = v`; `none` where the index is out of range.
  abbrev pub write : List A → ℕ → A → Option (List A)
  write [] i v = none
  write (x ∷ xs) zero v = some (v ∷ xs)
  write (x ∷ xs) (suc i) v = elim (write xs i v) [ none ↦ none | some ys ↦ some (x ∷ ys) ]

  abbrev pub take : ℕ → List A → List A
  take zero xs = []
  take (suc n) [] = []
  take (suc n) (x ∷ xs) = x ∷ take n xs

  abbrev pub drop : ℕ → List A → List A
  drop zero xs = xs
  drop (suc n) [] = []
  drop (suc n) (x ∷ xs) = drop n xs

  abbrev pub replicate : ℕ → A → List A
  replicate zero a = []
  replicate (suc n) a = a ∷ replicate n a

  abbrev pub get_last? : List A → Option A
  get_last? [] = none
  get_last? (x ∷ []) = some x
  get_last? (x ∷ (y ∷ ys)) = get_last? (y ∷ ys)

  pub length-append : (xs ys : List A) → length (xs ++ ys) ≡ length xs + length ys
  length-append [] ys = omega arith
  length-append (x ∷ xs) ys = omega (arith, length-append xs ys)

  pub take-append-drop : (n : ℕ) (xs : List A) → take n xs ++ drop n xs ≡ xs
  take-append-drop zero xs = refl
  take-append-drop (suc n) [] = refl
  take-append-drop (suc n) (x ∷ xs) = rw (take-append-drop n xs)

  pub length-take_of_le : (n : ℕ) (xs : List A) → n ≤ length xs → length (take n xs) ≡ n
  length-take_of_le zero xs h = refl
  length-take_of_le (suc n) [] h = absurd (omega arith)
  length-take_of_le (suc n) (x ∷ xs) h = ap suc (length-take_of_le n xs (omega arith))

  pub length-set : (xs : List A) (i : ℕ) (v : A) → length (set xs i v) ≡ length xs
  length-set [] i v = refl
  length-set (x ∷ xs) zero v = refl
  length-set (x ∷ xs) (suc i) v = ap suc (length-set xs i v)

  pub length-replicate : (n : ℕ) (a : A) → length (replicate n a) ≡ n
  length-replicate zero a = refl
  length-replicate (suc n) a = ap suc (length-replicate n a)

  -- A read in bounds succeeds, and only such a read does.
  pub get_elem?-some : (xs : List A) (i : ℕ) → i < length xs → (a : A) × (get_elem? xs i ≡ some a)
  get_elem?-some [] i h = absurd (omega arith)
  get_elem?-some (x ∷ xs) zero h = (x, refl)
  get_elem?-some (x ∷ xs) (suc i) h = get_elem?-some xs i (omega arith)

  pub get_elem?_lt : (xs : List A) (i : ℕ) {a : A} → get_elem? xs i ≡ some a → i < length xs
  get_elem?_lt [] i h = absurd (cc)
  get_elem?_lt (x ∷ xs) zero h = omega arith
  get_elem?_lt (x ∷ xs) (suc i) h = omega (arith, get_elem?_lt xs i h)

  pub get_elem?-take :
      (n : ℕ) (xs : List A) (i : ℕ) → i < n → get_elem? (take n xs) i ≡ get_elem? xs i
  get_elem?-take zero xs i h = absurd (omega arith)
  get_elem?-take (suc n) [] i h = refl
  get_elem?-take (suc n) (x ∷ xs) zero h = refl
  get_elem?-take (suc n) (x ∷ xs) (suc i) h = get_elem?-take n xs i (omega arith)

  pub get_elem?-append_left :
      (xs ys : List A) (i : ℕ) → i < length xs → get_elem? (xs ++ ys) i ≡ get_elem? xs i
  get_elem?-append_left [] ys i h = absurd (omega arith)
  get_elem?-append_left (x ∷ xs) ys zero h = refl
  get_elem?-append_left (x ∷ xs) ys (suc i) h = get_elem?-append_left xs ys i (omega arith)

  pub get_last?-some : (xs : List A) → 0 < length xs → (a : A) × (get_last? xs ≡ some a)
  get_last?-some [] h = absurd (omega arith)
  get_last?-some (x ∷ []) h = (x, refl)
  get_last?-some (x ∷ (y ∷ ys)) h = get_last?-some (y ∷ ys) (omega arith)

  pub drop-get_elem? :
      (xs : List A) (i : ℕ) {a : A} → get_elem? xs i ≡ some a → drop i xs ≡ a ∷ drop (i + 1) xs
  drop-get_elem? [] i h = absurd (cc)
  drop-get_elem? (x ∷ xs) zero h = cc
  drop-get_elem? (x ∷ xs) (suc i) h = rw suc-add (drop-get_elem? xs i h)

  pub length-drop : (n : ℕ) (xs : List A) → length (drop n xs) ≡ length xs - n
  length-drop zero xs = omega arith
  length-drop (suc n) [] = omega arith
  length-drop (suc n) (x ∷ xs) = omega (arith, length-drop n xs)

  -- A slice that lies in the list has the length that it says.
  pub length-slice : (i n : ℕ) (xs : List A) → i + n ≤ length xs → length (take n (drop i xs)) ≡ n
  length-slice i n xs h = length-take_of_le n (drop i xs) (omega (arith, length-drop i xs))

  pub get_elem?-none : (xs : List A) (i : ℕ) → length xs ≤ i → get_elem? xs i ≡ none
  get_elem?-none [] i h = refl
  get_elem?-none (x ∷ xs) zero h = absurd (omega arith)
  get_elem?-none (x ∷ xs) (suc i) h = get_elem?-none xs i (omega arith)

module _ {ℓ} {A : Type ℓ} where
  -- What a write in bounds does.
  pub get_elem?-write_self :
      (xs : List A) (i : ℕ) (v : A) {ys : List A} → write xs i v ≡ some ys → get_elem? ys i ≡ some v
  get_elem?-write_self [] i v h = absurd (cc)
  get_elem?-write_self (x ∷ xs) zero v h = ground arith
  get_elem?-write_self (x ∷ xs) (suc i) v h = elim (Option-cases (write xs i v)) [
    | inl out ↦ absurd (ground arith)
    | inr (zs, done) ↦ ground (arith, get_elem?-write_self xs i v done)
  ]

  pub get_elem?-write_ne :
      (xs : List A) (i j : ℕ) (v : A) {ys : List A}
      → write xs i v ≡ some ys
      → i ≢ j
      → get_elem? ys j ≡ get_elem? xs j
  get_elem?-write_ne [] i j v h ne = absurd (cc)
  get_elem?-write_ne (x ∷ xs) zero zero v h ne = absurd (ne refl)
  get_elem?-write_ne (x ∷ xs) zero (suc j) v h ne = ground arith
  get_elem?-write_ne (x ∷ xs) (suc i) zero v h ne = elim (Option-cases (write xs i v)) [
    | inl out ↦ absurd (ground arith)
    | inr (zs, done) ↦ ground arith
  ]
  get_elem?-write_ne (x ∷ xs) (suc i) (suc j) v h ne = elim (Option-cases (write xs i v)) [
    | inl out ↦ absurd (ground arith)
    | inr (zs, done) ↦ ground (arith, get_elem?-write_ne xs i j v done (λ e. ne (ap suc e)))
  ]

  pub length-write :
      (xs : List A) (i : ℕ) (v : A) {ys : List A} → write xs i v ≡ some ys → length ys ≡ length xs
  length-write [] i v h = absurd (cc)
  length-write (x ∷ xs) zero v h = ground arith
  length-write (x ∷ xs) (suc i) v h = elim (Option-cases (write xs i v)) [
    | inl out ↦ absurd (ground arith)
    | inr (zs, done) ↦ ground (arith, length-write xs i v done)
  ]

  pub write-some :
      (xs : List A) (i : ℕ) (v : A) → i < length xs → (ys : List A) × (write xs i v ≡ some ys)
  write-some [] i v h = absurd (omega arith)
  write-some (x ∷ xs) zero v h = (v ∷ xs, refl)
  write-some (x ∷ xs) (suc i) v h =
      let (ys, done) = write-some xs i v (omega arith) in (x ∷ ys, rw done)
