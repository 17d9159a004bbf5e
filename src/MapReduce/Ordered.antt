-- ===== src/MapReduce/Ordered.antt =====
-- src/mapreduce/master_splitmerge.go and src/mapreduce/common_reduce.go: sorted keys, and what they
-- determine.
use mit6824_distribute_syste.Prelude.{◌≡◌, refl, true, false, List, [], ◌∷◌, arith}
use mit6824_distribute_syste.Prelude.Text.{Text, text_eq_iff, text_lt}
use mit6824_distribute_syste.MapReduce.Grouping.{has, Ascends}

text_lt_irrefl : (x : Text) → text_lt x x ≡ false
text_lt_irrefl [] = refl
text_lt_irrefl (b ∷ x) = ground (arith, text_lt_irrefl x)

text_lt_trans : (x y z : Text) → text_lt x y ≡ true → text_lt y z ≡ true → text_lt x z ≡ true
text_lt_trans [] [] z h k = absurd (ground arith)
text_lt_trans [] (c ∷ y) [] h k = absurd (ground arith)
text_lt_trans [] (c ∷ y) (d ∷ z) h k = refl
text_lt_trans (b ∷ x) [] z h k = absurd (ground arith)
text_lt_trans (b ∷ x) (c ∷ y) [] h k = absurd (ground arith)
text_lt_trans (b ∷ x) (c ∷ y) (d ∷ z) h k = ground (arith, text_lt_trans x y z)

-- The first key is the least.
head-least :
    (x : Text) (xs : List Text) (k : Text) → Ascends (x ∷ xs) → has k xs ≡ true → text_lt x k ≡ true
head-least x [] k a h = absurd (ground arith)
head-least x (y ∷ ys) k a h =
    ground (arith, text_eq_iff y k, head-least y ys k a.1, text_lt_trans x y k)

tail-Ascends : (x : Text) (xs : List Text) → Ascends (x ∷ xs) → Ascends xs
tail-Ascends x [] a = tt
tail-Ascends x (y ∷ ys) a = a.1

-- Keys in strictly ascending order are determined by which they are.
pub Ascends-unique :
    (xs ys : List Text) → Ascends xs → Ascends ys → ((k : Text) → has k xs ≡ has k ys) → xs ≡ ys
Ascends-unique [] [] a b e = refl
Ascends-unique [] (y ∷ ys) a b e = absurd (ground (arith, e y, text_eq_iff y y))
Ascends-unique (x ∷ xs) [] a b e = absurd (ground (arith, e x, text_eq_iff x x))
Ascends-unique (x ∷ xs) (y ∷ ys) a b e =
    let same : x ≡ y = ground (
      arith,
      e x,
      e y,
      text_eq_iff x x,
      text_eq_iff y y,
      text_eq_iff x y,
      text_eq_iff y x,
      head-least x xs y a,
      head-least y ys x b,
      text_lt_trans x y x,
      text_lt_irrefl x,
    ) in
    let tails : (k : Text) → has k xs ≡ has k ys = λ k. ground (
      arith,
      same,
      e k,
      text_eq_iff x k,
      text_eq_iff y k,
      head-least x xs k a,
      head-least y ys k b,
      text_lt_irrefl x,
      text_lt_irrefl y,
    ) in
    ground (arith, same, Ascends-unique xs ys (tail-Ascends x xs a) (tail-Ascends y ys b) tails)
