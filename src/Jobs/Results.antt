-- ===== src/Jobs/Results.antt =====
-- src/main/wc.go and src/main/ii.go: what the two jobs write for a word.
use mit6824_distribute_syste.Prelude.{
  ℕ, ◌+◌, ◌<◌, ◌≡◌, refl, Bool, false, some, List, [], ◌∷◌, ◌++◌, ◌==◌, if◌then◌else◌, arith,
  Bool-cases, inl, inr,
}
use mit6824_distribute_syste.Prelude.Text.{
  Text, text_eq_iff, itoa, itoa-AllDigits, itoa-ne-nil, value_from, value_from-itoa,
}
use mit6824_distribute_syste.Prelude.Maps.{Map, lookup}
use mit6824_distribute_syste.MapReduce.Common.{KeyValue}
use mit6824_distribute_syste.MapReduce.Grouping.{values_of, values_of-append}
use mit6824_distribute_syste.Jobs.Words.{
  fields_func, occurrences, count_words, count_at, Counts, key_in,
}
use mit6824_distribute_syste.Jobs.WordCount.{map_f, atoi, two_63, add_values, reduce_f, itoa_64}
use mit6824_distribute_syste.Jobs.InvertedIndex.{document_pairs, index_map_f}
use mit6824_distribute_syste.Jobs.Counting.{
  atoi-digits, values_of-map_f, count_words-Counts, count_at-count_words,
}

-- All pairs that a map function gives for the documents, a name and a text each.
abbrev pub all_pairs : (Text → Text → List KeyValue) → List (Text × Text) → List KeyValue
all_pairs f [] = []
all_pairs f ((document, value) ∷ ds) = f document value ++ all_pairs f ds

-- How often a word occurs in all the documents.
abbrev pub total : (ℕ → Bool) → Text → List (Text × Text) → ℕ
total is_letter word [] = 0
total is_letter word ((document, value) ∷ ds) =
    occurrences word (fields_func is_letter value) + total is_letter word ds

-- The documents that a word occurs in.
abbrev pub documents_with : (ℕ → Bool) → Text → List (Text × Text) → List Text
documents_with is_letter word [] = []
documents_with is_letter word ((document, value) ∷ ds) =
    let rest = documents_with is_letter word ds in
    if occurrences word (fields_func is_letter value) == 0 then rest else document ∷ rest

atoi-itoa : (n : ℕ) → n < two_63 → atoi (itoa n) ≡ some n
unfolding value_from
atoi-itoa n lt =
    let v = value_from-itoa n in
    rw v at (atoi-digits (itoa n) (itoa-AllDigits n) (itoa-ne-nil n) (rw v lt))

add_values-all_pairs :
    (is_letter : ℕ → Bool) (word : Text) (ds : List (Text × Text)) (tot : ℕ)
    → tot + total is_letter word ds < two_63
    → add_values tot (values_of word (all_pairs (map_f is_letter) ds))
      ≡ some (tot + total is_letter word ds)
unfolding add_values values_of
add_values-all_pairs is_letter word [] tot lt = ground arith
add_values-all_pairs is_letter word ((document, value) ∷ ds) tot lt =
    let n = occurrences word (fields_func is_letter value) in
    elim (Bool-cases (n == 0)) [
      | inl none_here ↦ ground (
        arith,
        values_of-append word (map_f is_letter document value) (all_pairs (map_f is_letter) ds),
        values_of-map_f is_letter word document value,
        add_values-all_pairs is_letter word ds tot,
      )
      | inr some_here ↦ ground (
        arith,
        values_of-append word (map_f is_letter document value) (all_pairs (map_f is_letter) ds),
        values_of-map_f is_letter word document value,
        atoi-itoa n,
        add_values-all_pairs is_letter word ds (tot + n),
      )
    ]

-- For a word that occurs less than 2 ^ 63 times in the documents, the reduce function of the word
-- count, given the values that the map function gives for the word in each of them, returns, and it
-- returns the decimals of the number of occurrences in all of them.
pub word_count_lem :
    (is_letter : ℕ → Bool) (word : Text) (ds : List (Text × Text))
    → total is_letter word ds < two_63
    → reduce_f word (values_of word (all_pairs (map_f is_letter) ds))
      ≡ some (itoa (total is_letter word ds))
unfolding reduce_f itoa_64
word_count_lem is_letter word ds lt = ground (arith, add_values-all_pairs is_letter word ds 0)

no_key :
    (word document : Text) (mp : Map ℕ)
    → key_in word mp ≡ false
    → values_of word (document_pairs document mp) ≡ []
unfolding values_of document_pairs
no_key word document [] h = refl
no_key word document ((k, n) ∷ mp) h = ground (arith, no_key word document mp)

values_of-document_pairs :
    (word document : Text) (mp : Map ℕ)
    → Counts mp
    → values_of word (document_pairs document mp)
      ≡ (if count_at word mp == 0 then [] else document ∷ [])
unfolding values_of document_pairs lookup
values_of-document_pairs word document [] h = ground arith
values_of-document_pairs word document ((k, n) ∷ mp) h = ground (
  arith,
  text_eq_iff k word,
  values_of-document_pairs word document mp h.2,
  no_key word document mp,
  h,
)

values_of-index_map_f :
    (is_letter : ℕ → Bool) (word document value : Text)
    → values_of word (index_map_f is_letter document value)
      ≡ (if occurrences word (fields_func is_letter value) == 0 then [] else document ∷ [])
unfolding index_map_f lookup
values_of-index_map_f is_letter word document value =
    let ws = fields_func is_letter value in
    ground (
      arith,
      values_of-document_pairs word document (count_words ws []) (count_words-Counts ws [] tt),
      count_at-count_words ws word [],
    )

-- The values that the map function of the inverted index gives for a word are the documents in which
-- it occurs, each once for each time it is among the documents, and in their order.
pub inverted_index_lem :
    (is_letter : ℕ → Bool) (word : Text) (ds : List (Text × Text))
    → values_of word (all_pairs (index_map_f is_letter) ds) ≡ documents_with is_letter word ds
unfolding values_of
inverted_index_lem is_letter word [] = refl
inverted_index_lem is_letter word ((document, value) ∷ ds) = ground (
  arith,
  values_of-append word (index_map_f is_letter document value)
      (all_pairs (index_map_f is_letter) ds),
  values_of-index_map_f is_letter word document value,
  inverted_index_lem is_letter word ds,
)
