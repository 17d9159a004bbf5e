-- ===== src/MapReduce/WholeJob.antt =====
-- src/mapreduce/master.go, `Sequential`: the phases of a job together.
use mit6824_distribute_syste.Prelude.{
  ℕ, zero, suc, ◌+◌, ◌<◌, ◌≡◌, ap, ◌∙◌, ◌&&◌, some, List, [], ◌∷◌, ◌++◌, ltb, leb, ◌==◌,
  if◌then◌else◌, arith, length,
}
use mathlib.Core.Path.{subst}
use native.Mathlib.Nat.{zero-add}
use mit6824_distribute_syste.Prelude.Int
use mit6824_distribute_syste.Prelude.Text.{Text, text_eq_iff}
use mit6824_distribute_syste.MapReduce.Common.{KeyValue, reduce_name, merge_name, output_name}
use mit6824_distribute_syste.MapReduce.Files.{Files, open_file, Json, IsJson, encode_all}
use mit6824_distribute_syste.MapReduce.Map.{partition_of, bucket}
use mit6824_distribute_syste.MapReduce.Partition.{partition_of-lt}
use mit6824_distribute_syste.MapReduce.Grouping.{
  values_of, values_of-append, has_pair-append, has, has_pair, Ascends,
}
use mit6824_distribute_syste.MapReduce.Reducing.{
  gather, Graph, reduce_output, has_pair-reduce_output, Graph-reduce_output,
}
use mit6824_distribute_syste.MapReduce.Merge.{merge, lines}
use mit6824_distribute_syste.MapReduce.Merging.{merge_lem}
use mit6824_distribute_syste.MapReduce.Sequential.{Master, sequential, new_master, assign_job}
use mit6824_distribute_syste.MapReduce.Phases.{emitted, Inputs, run_maps_lem, run_reduces_lem}

values_of-bucket :
    (n r : ℕ) (k : Text) (kvs : List KeyValue)
    → values_of k (bucket n r kvs) ≡ (if partition_of n k == r then values_of k kvs else [])
unfolding values_of bucket
values_of-bucket n r k [] = ground arith
values_of-bucket n r k (kv ∷ kvs) = ground (arith, text_eq_iff kv.key k, values_of-bucket n r k kvs)

has_pair-bucket :
    (n r : ℕ) (k : Text) (kvs : List KeyValue)
    → has_pair k (bucket n r kvs) ≡ ((partition_of n k == r) && has_pair k kvs)
unfolding bucket
has_pair-bucket n r k [] = ground arith
has_pair-bucket n r k (kv ∷ kvs) = ground (arith, text_eq_iff kv.key k, has_pair-bucket n r k kvs)

module _ (n r : ℕ) (k : Text) (kvs : ℕ → List KeyValue) where
  values_of-gather :
      (i left : ℕ)
      → values_of k (gather (λ q. bucket n r (kvs q)) i left)
        ≡ (if partition_of n k == r then values_of k (gather kvs i left) else [])
  unfolding gather values_of
  values_of-gather i zero = ground arith
  values_of-gather i (suc left) = ground (
    arith,
    values_of-append k (bucket n r (kvs i)) (gather (λ q. bucket n r (kvs q)) (i + 1) left),
    values_of-append k (kvs i) (gather kvs (i + 1) left),
    values_of-bucket n r k (kvs i),
    values_of-gather (i + 1) left,
  )

  has_pair-gather :
      (i left : ℕ)
      → has_pair k (gather (λ q. bucket n r (kvs q)) i left)
        ≡ ((partition_of n k == r) && has_pair k (gather kvs i left))
  unfolding gather
  has_pair-gather i zero = ground arith
  has_pair-gather i (suc left) = ground (
    arith,
    has_pair-append k (bucket n r (kvs i)) (gather (λ q. bucket n r (kvs q)) (i + 1) left),
    has_pair-append k (kvs i) (gather kvs (i + 1) left),
    has_pair-bucket n r k (kvs i),
    has_pair-gather (i + 1) left,
  )

-- The outputs of the reduce tasks together.
module _ (n : ℕ) (reduce_f : Text → List Text → Text) (kvs : ℕ → List KeyValue) (n_map : ℕ) where
  abbrev all_pairs : List KeyValue
  all_pairs = gather kvs 0 n_map

  abbrev pub task_pairs : ℕ → List KeyValue
  task_pairs r = gather (λ q. bucket n r (kvs q)) 0 n_map

  has_pair-outputs :
      (k : Text) (i left : ℕ)
      → has_pair k (gather (λ r. reduce_output reduce_f (task_pairs r)) i left)
        ≡ (leb i (partition_of n k) && ltb (partition_of n k) (i + left) && has_pair k all_pairs)
  unfolding gather
  has_pair-outputs k i zero = ground arith
  has_pair-outputs k i (suc left) = ground (
    arith,
    has_pair-append k (reduce_output reduce_f (task_pairs i))
        (gather (λ r. reduce_output reduce_f (task_pairs r)) (i + 1) left),
    has_pair-reduce_output reduce_f (task_pairs i) k,
    has_pair-gather n i k kvs 0 n_map,
    has_pair-outputs k (i + 1) left,
  )

  Graph-append :
      (g : Text → Text) (xs ys : List KeyValue) → Graph g xs → Graph g ys → Graph g (xs ++ ys)
  Graph-append g [] ys p q = q
  Graph-append g (x ∷ xs) ys p q = (p.0, Graph-append g xs ys p.1 q)

  Graph-outputs :
      (i left : ℕ)
      → Graph
          (λ k. reduce_f k (values_of k all_pairs))
          (gather (λ r. reduce_output reduce_f (task_pairs r)) i left)
  unfolding gather
  Graph-outputs i zero = tt
  Graph-outputs i (suc left) =
      Graph-append (λ k. reduce_f k (values_of k all_pairs)) (reduce_output reduce_f (task_pairs i))
        (gather (λ r. reduce_output reduce_f (task_pairs r)) (i + 1) left)
        (Graph-reduce_output reduce_f (task_pairs i) (λ k. reduce_f k (values_of k all_pairs))
          (λ k e. ap (reduce_f k) (
            ground (arith, values_of-gather n i k kvs 0 n_map, has_pair-gather n i k kvs 0 n_map))))
        (Graph-outputs (i + 1) left)

-- What a job leaves in its output file: one line for each key that the map function gives for some
-- file, and no other, in strictly ascending order, with the reduce function's value of all the values
-- of the key, in the order of the files and of the pairs in each.
pub record JobDone (map_f : Text → Text → List KeyValue) (reduce_f : Text → List Text → Text)
    (contents : Text → Text) (job : Text) (files : List Text) (fs' : Files) : Type 0 where
  pub keys : List Text
  pub ascending : Ascends keys
  pub complete :
      (k : Text) → has k keys ≡ has_pair k (gather (emitted map_f contents files) 0 (length files))
  pub written :
      open_file (output_name job) fs'
      ≡ some (
          lines
            (λ k. reduce_f k (values_of k (gather (emitted map_f contents files) 0 (length files))))
            keys)

module _ {json : Json} (codec : IsJson json) (map_f : Text → Text → List KeyValue)
    (reduce_f : Text → List Text → Text) (contents : Text → Text) (job : Text) where
  -- The output of a reduce task, once the map tasks have run.
  abbrev pub task_output : ℕ → List Text → ℕ → List KeyValue
  task_output n files r =
      reduce_output reduce_f (task_pairs n reduce_f (emitted map_f contents files) (length files) r)

  -- Where the reduce tasks have made their outputs, the merge ends the job.
  pub merged_job :
      (n : ℕ) (files : List Text) (fs : Files)
      → 0 < n
      → n < 4294967296
      → ((r : ℕ)
          → r < n
          → open_file (merge_name job r) fs ≡ some (encode_all json (task_output n files r)))
      → (fs' : Files) × (merge json job n fs ≡ some fs')
        × JobDone map_f reduce_f contents job files fs'
  merged_job n files fs pos small made =
      let n_map = length files in
      let kvs = emitted map_f contents files in
      let g = λ (k : Text). reduce_f k (values_of k (gather kvs 0 n_map)) in
      let (fs', keys, merged, ascending, complete, written) =
        merge_lem codec job (task_output n files) n g fs made
          (Graph-outputs n reduce_f kvs n_map 0 n) in
      (
        fs',
        merged,
        record {
          keys = keys;
          ascending = ascending;
          complete = λ k.
              complete k
              ∙ ground (
                arith,
                has_pair-outputs n reduce_f kvs n_map k 0 n,
                partition_of-lt n k pos small,
              );
          written = written;
        },
      )

  -- A sequential job with at least one and fewer than 2 ^ 32 reduce tasks, whose input files are there
  -- and are none of its intermediate files, ends, and its output is that of the two functions alone:
  -- neither the number of reduce tasks nor the hash shows in it.
  pub sequential_lem :
      (n : ℕ) (files : List Text) (fs : Files)
      → 0 < n
      → n < 4294967296
      → Inputs contents job files fs
      → (mr : Master) × (fs' : Files) × (sequential json map_f reduce_f job files n fs
          ≡ some (mr, fs'))
        × JobDone map_f reduce_f contents job files fs'
  unfolding sequential
  sequential_lem n files fs pos small inputs =
      let n_map = length files in
      let kvs = emitted map_f contents files in
      let (fs1, mapped, maps) =
        run_maps_lem json map_f reduce_f contents job n pos small 0 files fs inputs in
      let (fs2, reduced, reduces) =
        run_reduces_lem codec map_f reduce_f job n_map (λ r q. bucket n r (kvs q)) 0 n fs1
          (λ q r lt k.
            subst
              (λ m.
                open_file (reduce_name job m r) fs1 ≡ some (encode_all json (bucket n r (kvs q))))
              (zero-add q) (maps.made q r lt (omega arith))) in
      let (fs3, merged, done) =
        merged_job n files fs2 pos small (λ r lt. reduces.made r (omega arith) (omega arith)) in
      (
        record (assign_job job files n
            (new_master (b'm' ∷ (b'a' ∷ (b's' ∷ (b't' ∷ (b'e' ∷ (b'r' ∷ [])))))))) {
              stats = Int.pos (n_map + n) ∷ [];
            },
        fs3,
        rw (mapped, reduced, merged),
        done,
      )
