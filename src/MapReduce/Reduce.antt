-- ===== src/MapReduce/Reduce.antt =====
-- src/mapreduce/common_reduce.go: a reduce task. `none` is the end of the process, by `log.Fatal`.
use mit6824_distribute_syste.Prelude.{
  ℕ, zero, suc, ◌+◌, Option, none, some, List, [], ◌∷◌, ◌++◌, if◌then◌else◌, ◌>>=◌,
}
use mit6824_distribute_syste.Prelude.Text.{Text, text_eq, text_lt}
use mit6824_distribute_syste.MapReduce.Common.{KeyValue, reduce_name, merge_name}
use mit6824_distribute_syste.MapReduce.Files.{
  Files, open_file, create, append_file, Json, decode_all,
}

-- `map[string][]string`, in the order in which the keys came.
abbrev pub KeyValues : Type 0
KeyValues = List (Text × List Text)

-- `keyValues[key]`; nil where there is none.
unfoldable pub values_at : Text → KeyValues → List Text
values_at key [] = []
values_at key ((k, vs) ∷ m) = if text_eq k key then vs else values_at key m

-- `keyValues[key] = append(keyValues[key], value)`
unfoldable pub add_value : Text → Text → KeyValues → KeyValues
add_value key value [] = (key, value ∷ []) ∷ []
add_value key value ((k, vs) ∷ m) =
    if text_eq k key then (k, vs ++ value ∷ []) ∷ m else (k, vs) ∷ add_value key value m

-- The loop over the pairs of one file.
unfoldable pub add_pairs : List KeyValue → KeyValues → KeyValues
add_pairs [] m = m
add_pairs (kv ∷ kvs) m = add_pairs kvs (add_value kv.key kv.value m)

-- The loop over the files of the map tasks i, i + 1, ...
unfoldable pub collect : Json → Text → ℕ → ℕ → ℕ → Files → KeyValues → Option KeyValues
collect json job_name reduce_task i zero fs m = some m
collect json job_name reduce_task i (suc left) fs m =
    elim (open_file (reduce_name job_name i reduce_task) fs) [
      | none ↦ none
      | some t ↦ collect json job_name reduce_task (i + 1) left fs (add_pairs (decode_all json t) m)
    ]

-- `for k := range keyValues`
unfoldable pub keys_of : KeyValues → List Text
keys_of [] = []
keys_of ((k, vs) ∷ m) = k ∷ keys_of m

-- `sort.Strings`
unfoldable pub insert_text : Text → List Text → List Text
insert_text x [] = x ∷ []
insert_text x (y ∷ ys) =
    let rest = insert_text x ys in if text_lt x y then x ∷ (y ∷ ys) else y ∷ rest

unfoldable pub sort_texts : List Text → List Text
unfolding insert_text
sort_texts [] = []
sort_texts (x ∷ xs) = insert_text x (sort_texts xs)

-- The loop that calls the reduce function and writes its results.
unfoldable pub write_results :
    Json → (Text → List Text → Text) → KeyValues → Text → List Text → Files → Files
write_results json reduce_f m out [] fs = fs
write_results json reduce_f m out (k ∷ ks) fs =
    write_results json reduce_f m out ks
      (append_file out (json.encode (record { key = k; value = reduce_f k (values_at k m) })) fs)

-- `doReduce`
unfoldable pub do_reduce : Json → Text → ℕ → ℕ → (Text → List Text → Text) → Files → Option Files
do_reduce json job_name reduce_task n_map reduce_f fs = do
  key_values ← collect json job_name reduce_task 0 n_map fs []
  let keys = sort_texts (keys_of key_values)
  let out = merge_name job_name reduce_task
  some (write_results json reduce_f key_values out keys (create out fs))
