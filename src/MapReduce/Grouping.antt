-- ===== src/MapReduce/Grouping.antt =====
-- src/mapreduce/common_reduce.go: a reduce task groups the pairs by key.
use mit6824_distribute_syste.Prelude.{
  ◌≡◌, refl, ◌∙◌, Bool, true, false, ◌||◌, List, [], ◌∷◌, ◌++◌, if◌then◌else◌, append-nil,
  append_assoc, arith,
}
use mit6824_distribute_syste.Prelude.Text.{Text, text_eq, text_eq_iff, text_lt}
use mit6824_distribute_syste.MapReduce.Common.{KeyValue}
use mit6824_distribute_syste.MapReduce.Reduce.{
  KeyValues, values_at, add_value, add_pairs, keys_of, insert_text, sort_texts,
}

-- The values that the pairs give for a key, in the order of the pairs.
unfoldable pub values_of : Text → List KeyValue → List Text
values_of j [] = []
values_of j (kv ∷ kvs) =
    let rest = values_of j kvs in if text_eq kv.key j then kv.value ∷ rest else rest

-- Whether a key is in a list of keys, and whether some pair has it.
abbrev pub has : Text → List Text → Bool
has j [] = false
has j (k ∷ ks) = text_eq k j || has j ks

abbrev pub has_pair : Text → List KeyValue → Bool
has_pair j [] = false
has_pair j (kv ∷ kvs) = text_eq kv.key j || has_pair j kvs

values_at-add_value :
    (key value j : Text) (m : KeyValues)
    → values_at j (add_value key value m)
      ≡ (if text_eq key j then values_at j m ++ value ∷ [] else values_at j m)
unfolding values_at add_value
values_at-add_value key value j [] = refl
values_at-add_value key value j ((k, vs) ∷ m) = ground (
  arith,
  text_eq_iff key j,
  text_eq_iff k key,
  text_eq_iff k j,
  values_at-add_value key value j m,
)

pub values_at-add_pairs :
    (kvs : List KeyValue) (j : Text) (m : KeyValues)
    → values_at j (add_pairs kvs m) ≡ values_at j m ++ values_of j kvs
unfolding add_pairs values_of
values_at-add_pairs [] j m = rw append-nil
values_at-add_pairs (kv ∷ kvs) j m = ground (
  arith,
  values_at-add_pairs kvs j (add_value kv.key kv.value m),
  values_at-add_value kv.key kv.value j m,
  append_assoc (values_at j m) (kv.value ∷ []) (values_of j kvs),
)

has-add_value :
    (key value j : Text) (m : KeyValues)
    → has j (keys_of (add_value key value m)) ≡ (text_eq key j || has j (keys_of m))
unfolding keys_of add_value
has-add_value key value j [] = refl
has-add_value key value j ((k, vs) ∷ m) =
    ground
      (arith, text_eq_iff key j, text_eq_iff k key, text_eq_iff k j, has-add_value key value j m)

pub has-add_pairs :
    (kvs : List KeyValue) (j : Text) (m : KeyValues)
    → has j (keys_of (add_pairs kvs m)) ≡ (has j (keys_of m) || has_pair j kvs)
unfolding add_pairs
has-add_pairs [] j m = ground arith
has-add_pairs (kv ∷ kvs) j m =
    ground
      (arith, has-add_pairs kvs j (add_value kv.key kv.value m), has-add_value kv.key kv.value j m)

-- No key stands twice.
abbrev pub Distinct : List Text → Type 0
Distinct [] = Unit {0}
Distinct (k ∷ ks) = (has k ks ≡ false) × Distinct ks

add_value-Distinct :
    (key value : Text) (m : KeyValues)
    → Distinct (keys_of m)
    → Distinct (keys_of (add_value key value m))
unfolding keys_of add_value
add_value-Distinct key value [] d = (refl, tt)
add_value-Distinct key value ((k, vs) ∷ m) d = ground (
  arith,
  text_eq_iff k key,
  text_eq_iff key k,
  has-add_value key value k m,
  add_value-Distinct key value m,
)

pub add_pairs-Distinct :
    (kvs : List KeyValue) (m : KeyValues)
    → Distinct (keys_of m)
    → Distinct (keys_of (add_pairs kvs m))
unfolding add_pairs
add_pairs-Distinct [] m d = d
add_pairs-Distinct (kv ∷ kvs) m d =
    add_pairs-Distinct kvs (add_value kv.key kv.value m) (add_value-Distinct kv.key kv.value m d)

-- Each key is less than the next.
abbrev pub Ascends : List Text → Type 0
Ascends [] = Unit {0}
Ascends (x ∷ []) = Unit {0}
Ascends (x ∷ (y ∷ ys)) = (text_lt x y ≡ true) × Ascends (y ∷ ys)

text_lt_total : (x y : Text) → text_lt x y ≡ false → text_eq x y ≡ false → text_lt y x ≡ true
text_lt_total [] [] h k = absurd (ground arith)
text_lt_total [] (y ∷ ys) h k = absurd (ground arith)
text_lt_total (x ∷ xs) [] h k = refl
text_lt_total (x ∷ xs) (y ∷ ys) h k = ground (arith, text_lt_total xs ys)

has-insert_text :
    (x j : Text) (ys : List Text) → has j (insert_text x ys) ≡ (text_eq x j || has j ys)
unfolding insert_text
has-insert_text x j [] = refl
has-insert_text x j (y ∷ ys) = ground (arith, has-insert_text x j ys)

pub has-sort_texts : (j : Text) (ks : List Text) → has j (sort_texts ks) ≡ has j ks
unfolding sort_texts
has-sort_texts j [] = refl
has-sort_texts j (k ∷ ks) = ground (arith, has-insert_text k j (sort_texts ks), has-sort_texts j ks)

insert_text-Ascends :
    (x : Text) (ys : List Text) → has x ys ≡ false → Ascends ys → Ascends (insert_text x ys)
unfolding insert_text
insert_text-Ascends x [] h a = tt
insert_text-Ascends x (y ∷ []) h a =
    ground (arith, text_lt_total x y, text_eq_iff x y, text_eq_iff y x)
insert_text-Ascends x (y ∷ (z ∷ zs)) h a =
    ground
      (arith, text_lt_total x y, text_eq_iff x y, text_eq_iff y x, insert_text-Ascends x (z ∷ zs))

pub sort_texts-Ascends : (ks : List Text) → Distinct ks → Ascends (sort_texts ks)
unfolding sort_texts
sort_texts-Ascends [] d = tt
sort_texts-Ascends (k ∷ ks) d =
    insert_text-Ascends k (sort_texts ks) (has-sort_texts k ks ∙ d.0) (sort_texts-Ascends ks d.1)

pub values_of-append :
    (k : Text) (xs ys : List KeyValue) → values_of k (xs ++ ys) ≡ values_of k xs ++ values_of k ys
unfolding values_of
values_of-append k [] ys = refl
values_of-append k (kv ∷ kvs) ys = ground (arith, values_of-append k kvs ys)

pub has_pair-append :
    (k : Text) (xs ys : List KeyValue) → has_pair k (xs ++ ys) ≡ (has_pair k xs || has_pair k ys)
has_pair-append k [] ys = refl
has_pair-append k (kv ∷ kvs) ys = ground (arith, has_pair-append k kvs ys)
