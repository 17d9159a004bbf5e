-- ===== src/Raft/Descending.antt =====
-- src/raft/raft.go, `StartAppendLog`: the sorted copy of `MatchIndex`.
use mit6824_distribute_syste.Prelude.{
  ℕ, zero, suc, ◌+◌, ◌≤◌, ◌<◌, ◌≡◌, refl, some, List, [], ◌∷◌, length, get_elem?, leb,
  if◌then◌else◌, arith,
}
use mit6824_distribute_syste.Raft.Leader.{insert_desc, sort_desc}

-- How many of the numbers are at least `n`.
abbrev pub count_ge : ℕ → List ℕ → ℕ
count_ge n [] = 0
count_ge n (x ∷ xs) = (if leb n x then 1 else 0) + count_ge n xs

length-insert_desc : (x : ℕ) (xs : List ℕ) → length (insert_desc x xs) ≡ suc (length xs)
unfolding insert_desc
length-insert_desc x [] = refl
length-insert_desc x (y ∷ ys) = ground (arith, length-insert_desc x ys)

pub length-sort_desc : (xs : List ℕ) → length (sort_desc xs) ≡ length xs
unfolding sort_desc
length-sort_desc [] = refl
length-sort_desc (x ∷ xs) = omega (arith, length-insert_desc x (sort_desc xs), length-sort_desc xs)

count_ge-insert_desc : (n x : ℕ) (xs : List ℕ) → count_ge n (insert_desc x xs) ≡ count_ge n (x ∷ xs)
unfolding insert_desc
count_ge-insert_desc n x [] = refl
count_ge-insert_desc n x (y ∷ ys) = ground (arith, count_ge-insert_desc n x ys)

pub count_ge-sort_desc : (n : ℕ) (xs : List ℕ) → count_ge n (sort_desc xs) ≡ count_ge n xs
unfolding sort_desc
count_ge-sort_desc n [] = refl
count_ge-sort_desc n (x ∷ xs) =
    omega (arith, count_ge-insert_desc n x (sort_desc xs), count_ge-sort_desc n xs)

-- Each number is at least the next.
abbrev pub Descends : List ℕ → Type 0
Descends [] = Unit {0}
Descends (x ∷ []) = Unit {0}
Descends (x ∷ (y ∷ ys)) = (y ≤ x) × Descends (y ∷ ys)

insert_desc-Descends : (x : ℕ) (xs : List ℕ) → Descends xs → Descends (insert_desc x xs)
unfolding insert_desc
insert_desc-Descends x [] d = tt
insert_desc-Descends x (y ∷ []) d = ground arith
insert_desc-Descends x (y ∷ (z ∷ zs)) d = ground (arith, insert_desc-Descends x (z ∷ zs))

pub sort_desc-Descends : (xs : List ℕ) → Descends (sort_desc xs)
unfolding sort_desc
sort_desc-Descends [] = tt
sort_desc-Descends (x ∷ xs) = insert_desc-Descends x (sort_desc xs) (sort_desc-Descends xs)

-- In a descending list no number is above the first.
le_head :
    (x : ℕ) (xs : List ℕ) (i : ℕ) {n : ℕ}
    → Descends (x ∷ xs)
    → get_elem? (x ∷ xs) i ≡ some n
    → n ≤ x
le_head x xs zero d h = ground arith
le_head x [] (suc i) d h = absurd (cc)
le_head x (y ∷ ys) (suc i) d h = omega (arith, le_head y ys i d.1 h)

-- In a descending list the first i + 1 numbers are at least the one at index i.
pub count_ge-Descends :
    (xs : List ℕ) (i : ℕ) {n : ℕ} → Descends xs → get_elem? xs i ≡ some n → i < count_ge n xs
count_ge-Descends [] i d h = absurd (cc)
count_ge-Descends (x ∷ []) zero d h = ground arith
count_ge-Descends (x ∷ []) (suc i) d h = absurd (cc)
count_ge-Descends (x ∷ (y ∷ ys)) zero d h = ground arith
count_ge-Descends (x ∷ (y ∷ ys)) (suc i) {n = n} d h =
    ground (arith, count_ge-Descends (y ∷ ys) i {n = n} d.1 h, le_head y ys i {n = n} d.1 h)

-- Behind a number below m a descending list has no number of at least m.
count_ge-eq-zero : (m x : ℕ) (xs : List ℕ) → Descends (x ∷ xs) → x < m → count_ge m (x ∷ xs) ≡ 0
count_ge-eq-zero m x [] d h = ground arith
count_ge-eq-zero m x (y ∷ ys) d h = ground (arith, count_ge-eq-zero m y ys)

pub count_ge-le :
    (m : ℕ) (xs : List ℕ) (i : ℕ) {n : ℕ}
    → Descends xs
    → get_elem? xs i ≡ some n
    → n < m
    → count_ge m xs ≤ i
count_ge-le m [] i d h lt = omega arith
count_ge-le m (x ∷ xs) zero {n = n} d h lt = ground (arith, count_ge-eq-zero m x xs)
count_ge-le m (x ∷ []) (suc i) d h lt = absurd (cc)
count_ge-le m (x ∷ (y ∷ ys)) (suc i) {n = n} d h lt =
    ground (arith, count_ge-le m (y ∷ ys) i {n = n} d.1 h lt)
