-- ===== src/MapReduce/Reducing.antt =====
-- src/mapreduce/common_reduce.go: what a reduce task writes.
use mit6824_distribute_syste.Prelude.{
  ℕ, zero, suc, ◌+◌, ◌<◌, ◌≡◌, ◌≢◌, refl, ap, sym, ◌∙◌, true, ◌||◌, some, List, [], ◌∷◌, ◌++◌, map,
  append-nil, append_assoc, arith,
}
use mathlib.Core.Path.{fun_ext}
use mit6824_distribute_syste.Prelude.Text.{Text, text_eq, text_eq_iff}
use mit6824_distribute_syste.MapReduce.Common.{KeyValue, reduce_name, merge_name}
use mit6824_distribute_syste.MapReduce.Files.{
  Files, open_file, create, append_file, Json, IsJson, encode_all, decode_all-encode_all,
  open_file-create, open_file-append_file,
}
use mit6824_distribute_syste.MapReduce.Reduce.{
  KeyValues, values_at, add_pairs, collect, keys_of, sort_texts, write_results, do_reduce,
}
use mit6824_distribute_syste.MapReduce.Grouping.{
  values_of, has, has_pair, Ascends, values_at-add_pairs, has-add_pairs, add_pairs-Distinct,
  has-sort_texts, sort_texts-Ascends,
}

-- Every pair has the value that `g` gives for its key.
abbrev pub Graph : (Text → Text) → List KeyValue → Type 0
Graph g [] = Unit {0}
Graph g (kv ∷ kvs) = (kv.value ≡ g kv.key) × Graph g kvs

-- The pairs of `left` files from the one at `i` on, one file after another.
unfoldable pub gather : (ℕ → List KeyValue) → ℕ → ℕ → List KeyValue
gather kvs i zero = []
gather kvs i (suc left) = kvs i ++ gather kvs (i + 1) left

add_pairs-append :
    (xs ys : List KeyValue) (m : KeyValues) → add_pairs (xs ++ ys) m ≡ add_pairs ys (add_pairs xs m)
unfolding add_pairs
add_pairs-append [] ys m = refl
add_pairs-append (kv ∷ kvs) ys m = add_pairs-append kvs ys _

module _ {json : Json} (codec : IsJson json) (job : Text) (r : ℕ) (kvs : ℕ → List KeyValue) where
  collect_lem :
      (i left : ℕ) (fs : Files) (m : KeyValues)
      → ((q : ℕ)
          → q < i + left
          → open_file (reduce_name job q r) fs ≡ some (encode_all json (kvs q)))
      → collect json job r i left fs m ≡ some (add_pairs (gather kvs i left) m)
  unfolding collect gather add_pairs
  collect_lem i zero fs m h = refl
  collect_lem i (suc left) fs m h =
      rw (h i (omega arith), collect, decode_all-encode_all codec (kvs i))
        (collect_lem (i + 1) left fs (add_pairs (kvs i) m) (λ q lt. h q (omega arith))
          ∙ ap some (sym (add_pairs-append (kvs i) (gather kvs (i + 1) left) m)))

module _ (json : Json) (reduce_f : Text → List Text → Text) (m : KeyValues) (out : Text) where
  abbrev result : Text → KeyValue
  result k = record { key = k; value = reduce_f k (values_at k m) }

  appended :
      (k : Text) (fs : Files) {old : Text}
      → open_file out fs ≡ some old
      → open_file out (append_file out (json.encode (result k)) fs)
        ≡ some (old ++ json.encode (result k))
  appended k fs h =
      ground
        (arith, open_file-append_file out out (json.encode (result k)) fs h, text_eq_iff out out)

  write_results_lem :
      (ks : List Text) (fs : Files) {old : Text}
      → open_file out fs ≡ some old
      → open_file out (write_results json reduce_f m out ks fs)
        ≡ some (old ++ encode_all json (map result ks))
  unfolding write_results encode_all
  write_results_lem [] fs h = simp append-nil h
  write_results_lem (k ∷ ks) fs {old} h =
      write_results_lem ks (append_file out (json.encode (result k)) fs) (appended k fs h)
      ∙ ap some (append_assoc old (json.encode (result k)) (encode_all json (map result ks)))

  write_results_other :
      (ks : List Text) (fs : Files) (j : Text) {old : Text}
      → open_file out fs ≡ some old
      → out ≢ j
      → open_file j (write_results json reduce_f m out ks fs) ≡ open_file j fs
  unfolding write_results
  write_results_other [] fs j h ne = refl
  write_results_other (k ∷ ks) fs j h ne =
      write_results_other ks (append_file out (json.encode (result k)) fs) j (appended k fs h) ne
      ∙ ground (arith, open_file-append_file out j (json.encode (result k)) fs h, text_eq_iff out j)

-- The keys of the pairs in the order of the output, and the output.
reduced_keys : List KeyValue → List Text
reduced_keys pairs = sort_texts (keys_of (add_pairs pairs []))

pub reduce_output : (Text → List Text → Text) → List KeyValue → List KeyValue
unfolding reduced_keys
reduce_output reduce_f pairs =
    map (λ k. record { key = k; value = reduce_f k (values_of k pairs) }) (reduced_keys pairs)

reduced_keys-Ascends : (pairs : List KeyValue) → Ascends (reduced_keys pairs)
unfolding reduced_keys keys_of
reduced_keys-Ascends pairs =
    sort_texts-Ascends (keys_of (add_pairs pairs [])) (add_pairs-Distinct pairs [] tt)

has-reduced_keys :
    (k : Text) (pairs : List KeyValue) → has k (reduced_keys pairs) ≡ has_pair k pairs
unfolding reduced_keys keys_of
has-reduced_keys k pairs =
    has-sort_texts k (keys_of (add_pairs pairs [])) ∙ has-add_pairs pairs k []

has_pair-map :
    (h : Text → Text) (k : Text) (ks : List Text)
    → has_pair k (map (λ j. record { key = j; value = h j }) ks) ≡ has k ks
has_pair-map h k [] = refl
has_pair-map h k (j ∷ ks) = ap (λ b. text_eq j k || b) (has_pair-map h k ks)

Graph-map :
    (h g : Text → Text) (ks : List Text)
    → ((k : Text) → has k ks ≡ true → h k ≡ g k)
    → Graph g (map (λ j. record { key = j; value = h j }) ks)
Graph-map h g [] e = tt
Graph-map h g (k ∷ ks) e =
    (e k (ground (arith, text_eq_iff k k)), Graph-map h g ks (λ j q. e j (ground arith)))

pub has_pair-reduce_output :
    (reduce_f : Text → List Text → Text) (pairs : List KeyValue) (k : Text)
    → has_pair k (reduce_output reduce_f pairs) ≡ has_pair k pairs
unfolding reduce_output
has_pair-reduce_output reduce_f pairs k =
    has_pair-map (λ j. reduce_f j (values_of j pairs)) k (reduced_keys pairs)
    ∙ has-reduced_keys k pairs

-- The output gives each of its keys the value of `g`, if that is the value for the pairs.
pub Graph-reduce_output :
    (reduce_f : Text → List Text → Text) (pairs : List KeyValue) (g : Text → Text)
    → ((k : Text) → has_pair k pairs ≡ true → reduce_f k (values_of k pairs) ≡ g k)
    → Graph g (reduce_output reduce_f pairs)
unfolding reduce_output
Graph-reduce_output reduce_f pairs g e =
    Graph-map (λ j. reduce_f j (values_of j pairs)) g (reduced_keys pairs)
      (λ k q. e k (sym (has-reduced_keys k pairs) ∙ q))

-- What a reduce task leaves for the pairs that it read: its output has one pair for each key that
-- some pair has and no other, in strictly ascending order, with the reduce function's value of all
-- the values of the key in their order; and every other file is as it was.
pub record Reduced (json : Json) (out : Text) (reduce_f : Text → List Text → Text)
    (pairs : List KeyValue) (fs fs' : Files) : Type 0 where
  pub keys : List Text
  pub ascending : Ascends keys
  pub complete : (k : Text) → has k keys ≡ has_pair k pairs
  pub written :
      open_file out fs'
      ≡ some (
          encode_all json
            (map (λ k. record { key = k; value = reduce_f k (values_of k pairs) }) keys))
  pub others : (j : Text) → out ≢ j → open_file j fs' ≡ open_file j fs

module _ {json : Json} (codec : IsJson json) (job : Text) (r n_map : ℕ)
    (reduce_f : Text → List Text → Text) (kvs : ℕ → List KeyValue) (fs : Files)
    (inputs : (q : ℕ)
      → q < n_map
      → open_file (reduce_name job q r) fs ≡ some (encode_all json (kvs q))) where
  pub do_reduce_output :
      (fs' : Files) × (do_reduce json job r n_map reduce_f fs ≡ some fs')
      × (open_file (merge_name job r) fs'
          ≡ some (encode_all json (reduce_output reduce_f (gather kvs 0 n_map))))
      × ((j : Text) → merge_name job r ≢ j → open_file j fs' ≡ open_file j fs)
  unfolding do_reduce keys_of values_at reduce_output
  do_reduce_output =
      let pairs = gather kvs 0 n_map in
      let m = add_pairs pairs [] in
      let out = merge_name job r in
      let ks = reduced_keys pairs in
      let fs1 = create out fs in
      let made : open_file out fs1 ≡ some [] =
        ground (arith, open_file-create out out fs, text_eq_iff out out) in
      (
        write_results json reduce_f m out ks fs1,
        rw (collect_lem codec job r kvs 0 n_map fs [] (λ q lt. inputs q (omega arith))),
        write_results_lem json reduce_f m out ks fs1 made
            ∙ ap
                (λ (f : Text → List Text).
                  some
                    (encode_all json (map (λ k. record { key = k; value = reduce_f k (f k) }) ks)))
                (fun_ext (λ k. values_at-add_pairs pairs k [])),
        (λ j ne.
            write_results_other json reduce_f m out ks fs1 j made ne
            ∙ ground (arith, open_file-create out j fs, text_eq_iff out j)),
      )

  -- A reduce task whose input files are there, as the map tasks write them, ends and groups their
  -- pairs.
  pub do_reduce_lem :
      (fs' : Files) × (do_reduce json job r n_map reduce_f fs ≡ some fs')
      × Reduced json (merge_name job r) reduce_f (gather kvs 0 n_map) fs fs'
  unfolding reduce_output
  do_reduce_lem =
      let pairs = gather kvs 0 n_map in
      let (fs', done, written, others) = do_reduce_output in
      (
        fs',
        done,
        record {
          keys = reduced_keys pairs;
          ascending = reduced_keys-Ascends pairs;
          complete = λ k. has-reduced_keys k pairs;
          written = written;
          others = others;
        },
      )
