-- ===== src/MapReduce/Merge.antt =====
-- src/mapreduce/master_splitmerge.go: the last phase of a job, and the removal of its files. `none`
-- is the end of the process, by `log.Fatal`.
use mit6824_distribute_syste.Prelude.{
  ℕ, zero, suc, ◌+◌, Option, none, some, List, [], ◌∷◌, ◌++◌, length, if◌then◌else◌, ◌>>=◌,
}
use mit6824_distribute_syste.Prelude.Text.{Text, text_eq}
use mit6824_distribute_syste.MapReduce.Common.{KeyValue, reduce_name, merge_name, output_name}
use mit6824_distribute_syste.MapReduce.Files.{
  Files, open_file, create, append_file, remove, Json, decode_all,
}
use mit6824_distribute_syste.MapReduce.Reduce.{sort_texts}

-- `map[string]string`, in the order in which the keys came.
abbrev pub Values : Type 0
Values = List (Text × Text)

-- `kvs[key]`; the empty string where there is none.
unfoldable pub value_at : Text → Values → Text
value_at key [] = []
value_at key ((k, v) ∷ m) = if text_eq k key then v else value_at key m

-- `kvs[key] = value`
unfoldable pub set_value : Text → Text → Values → Values
set_value key value [] = (key, value) ∷ []
set_value key value ((k, v) ∷ m) =
    if text_eq k key then (key, value) ∷ m else (k, v) ∷ set_value key value m

-- The loop over the pairs of one file.
unfoldable pub set_pairs : List KeyValue → Values → Values
set_pairs [] m = m
set_pairs (kv ∷ kvs) m = set_pairs kvs (set_value kv.key kv.value m)

-- `for k := range kvs`
unfoldable pub value_keys : Values → List Text
value_keys [] = []
value_keys ((k, v) ∷ m) = k ∷ value_keys m

-- The loop over the outputs of the reduce tasks i, i + 1, ...
unfoldable pub read_outputs : Json → Text → ℕ → ℕ → Files → Values → Option Values
read_outputs json job_name i zero fs m = some m
read_outputs json job_name i (suc left) fs m = elim (open_file (merge_name job_name i) fs) [
  | none ↦ none
  | some t ↦ read_outputs json job_name (i + 1) left fs (set_pairs (decode_all json t) m)
]

-- "%s: %s\n"
abbrev pub line : Text → Text → Text
line k v = k ++ (b':' ∷ (b' ' ∷ (v ++ (10 ∷ []))))

unfoldable pub lines : (Text → Text) → List Text → Text
lines value [] = []
lines value (k ∷ ks) = line k (value k) ++ lines value ks

-- `merge`. The buffered writer is flushed before the file is closed: the lines are written at once.
unfoldable pub merge : Json → Text → ℕ → Files → Option Files
merge json job_name n_reduce fs = do
  kvs ← read_outputs json job_name 0 n_reduce fs []
  let keys = sort_texts (value_keys kvs)
  let out = output_name job_name
  some (append_file out (lines (λ k. value_at k kvs) keys) (create out fs))

-- The inner loop of `CleanupFiles`.
remove_row : Text → ℕ → ℕ → ℕ → Files → Option Files
remove_row job_name i j zero fs = some fs
remove_row job_name i j (suc left) fs = elim (remove (reduce_name job_name i j) fs) [
  | none ↦ none
  | some fs' ↦ remove_row job_name i (j + 1) left fs'
]

remove_rows : Text → ℕ → ℕ → ℕ → Files → Option Files
remove_rows job_name n_reduce i zero fs = some fs
remove_rows job_name n_reduce i (suc left) fs = elim (remove_row job_name i 0 n_reduce fs) [
  | none ↦ none
  | some fs' ↦ remove_rows job_name n_reduce (i + 1) left fs'
]

remove_outputs : Text → ℕ → ℕ → Files → Option Files
remove_outputs job_name i zero fs = some fs
remove_outputs job_name i (suc left) fs = elim (remove (merge_name job_name i) fs) [
  | none ↦ none
  | some fs' ↦ remove_outputs job_name (i + 1) left fs'
]

-- `CleanupFiles`
unfoldable pub cleanup_files : Text → List Text → ℕ → Files → Option Files
unfolding remove_row remove_rows remove_outputs
cleanup_files job_name files n_reduce fs = do
  fs1 ← remove_rows job_name n_reduce 0 (length files) fs
  fs2 ← remove_outputs job_name 0 n_reduce fs1
  remove (output_name job_name) fs2
