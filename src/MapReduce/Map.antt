-- ===== src/MapReduce/Map.antt =====
-- src/mapreduce/common_map.go: a map task. `none` is the end of the process, by `log.Fatal` or by a
-- panic.
use mit6824_distribute_syste.Prelude.{
  ℕ, zero, suc, ◌+◌, ◌*◌, ◌%◌, Option, none, some, List, [], ◌∷◌, ◌==◌, if◌then◌else◌,
}
use mit6824_distribute_syste.Prelude.Text.{Text}
use mit6824_distribute_syste.MapReduce.Common.{KeyValue, reduce_name}
use mit6824_distribute_syste.MapReduce.Files.{Files, open_file, create, append_file, Json}
use Prim.Native.Nat.{bit_xor}

-- `fnv.New32a`: the hash of the bytes from `h` on.
unfoldable pub fnv32a : ℕ → Text → ℕ
fnv32a h [] = h
fnv32a h (b ∷ bs) = fnv32a ((bit_xor h b * 16777619) % 4294967296) bs

-- `ihash`
unfoldable pub ihash : Text → ℕ
unfolding fnv32a
ihash s = fnv32a 2166136261 s

-- `ihash(key) % uint32(nReduce)`, for an `nReduce` that is not 0 as a uint32.
unfoldable pub partition_of : ℕ → Text → ℕ
partition_of n_reduce key = ihash key % (n_reduce % 4294967296)

module _ (job_name : Text) (map_task : ℕ) where
  -- The first loop: it creates the files of the reduce tasks i, i + 1, ...
  unfoldable pub create_files : ℕ → ℕ → Files → Files
  create_files i zero fs = fs
  create_files i (suc left) fs =
      create_files (i + 1) left (create (reduce_name job_name map_task i) fs)

  -- The second loop: each pair goes to the file of its key. With nothing to divide the hash by, the
  -- first pair is the end.
  unfoldable pub write_pairs : Json → ℕ → List KeyValue → Files → Option Files
  write_pairs json n_reduce [] fs = some fs
  write_pairs json n_reduce (word ∷ words) fs =
      let rest = write_pairs json n_reduce words (
        append_file (reduce_name job_name map_task (partition_of n_reduce word.key))
          (json.encode word) fs) in
      if n_reduce % 4294967296 == 0 then none else rest

-- `doMap`. Without the input file it gives up and returns.
unfoldable pub do_map :
    Json → Text → ℕ → Text → ℕ → (Text → Text → List KeyValue) → Files → Option Files
do_map json job_name map_task in_file n_reduce map_f fs = elim (open_file in_file fs) [
  | none ↦ some fs
  | some contents ↦
      write_pairs job_name map_task json n_reduce (map_f in_file contents)
        (create_files job_name map_task 0 n_reduce fs)
]

-- The pairs for reduce task `r`, in their order.
unfoldable pub bucket : ℕ → ℕ → List KeyValue → List KeyValue
bucket n_reduce r [] = []
bucket n_reduce r (kv ∷ kvs) =
    let rest = bucket n_reduce r kvs in
    if partition_of n_reduce kv.key == r then kv ∷ rest else rest
