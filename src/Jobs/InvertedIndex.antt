-- ===== src/Jobs/InvertedIndex.antt =====
-- src/main/ii.go: the inverted index.
use mit6824_distribute_syste.Prelude.{ℕ, Bool, List, [], ◌∷◌, ◌++◌, length}
use mit6824_distribute_syste.Prelude.Text.{Text, itoa}
use mit6824_distribute_syste.Prelude.Maps.{Map}
use mit6824_distribute_syste.MapReduce.Common.{KeyValue}
use mit6824_distribute_syste.Jobs.Words.{fields_func, count_words}

-- `for k, _ := range mp`, in the order in which the words came.
unfoldable pub document_pairs : Text → Map ℕ → List KeyValue
document_pairs document [] = []
document_pairs document ((k, v) ∷ mp) =
    record { key = k; value = document } ∷ document_pairs document mp

-- `mapF`
unfoldable pub index_map_f : (ℕ → Bool) → Text → Text → List KeyValue
index_map_f is_letter document value =
    document_pairs document (count_words (fields_func is_letter value) [])

-- `strings.Join(values, ",")`
unfoldable pub join : List Text → Text
join [] = []
join (v ∷ []) = v
join (v ∷ (u ∷ vs)) = v ++ (b',' ∷ join (u ∷ vs))

-- `reduceF`
unfoldable pub index_reduce_f : Text → List Text → Text
index_reduce_f key values = itoa (length values) ++ (b' ' ∷ join values)
