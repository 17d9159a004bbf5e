-- ===== src/MapReduce/Merging.antt =====
-- src/mapreduce/master_splitmerge.go: what the last phase writes.
use mit6824_distribute_syste.Prelude.{
  ℕ, zero, suc, ◌+◌, ◌<◌, ◌≡◌, refl, ap, sym, ◌∙◌, true, ◌||◌, some, List, [], ◌∷◌, ◌++◌,
  if◌then◌else◌, arith,
}
use mathlib.Core.Path.{ap₂}
use mit6824_distribute_syste.Prelude.Text.{Text, text_eq, text_eq_iff}
use mit6824_distribute_syste.MapReduce.Common.{KeyValue, merge_name, output_name}
use mit6824_distribute_syste.MapReduce.Files.{
  Files, open_file, create, append_file, Json, IsJson, encode_all, decode_all-encode_all,
  open_file-create, open_file-append_file,
}
use mit6824_distribute_syste.MapReduce.Reduce.{sort_texts}
use mit6824_distribute_syste.MapReduce.Grouping.{
  has, has_pair, Distinct, Ascends, has-sort_texts, sort_texts-Ascends,
}
use mit6824_distribute_syste.MapReduce.Reducing.{gather, Graph}
use mit6824_distribute_syste.MapReduce.Merge.{
  Values, value_at, set_value, set_pairs, value_keys, read_outputs, line, lines, merge,
}

value_at-set_value :
    (key value j : Text) (m : Values)
    → value_at j (set_value key value m) ≡ (if text_eq key j then value else value_at j m)
unfolding value_at set_value
value_at-set_value key value j [] = refl
value_at-set_value key value j ((k, v) ∷ m) =
    ground (
      arith,
      text_eq_iff key j,
      text_eq_iff k key,
      text_eq_iff k j,
      value_at-set_value key value j m,
    )

value_at-set_pairs :
    (g : Text → Text) (kvs : List KeyValue) (j : Text) (m : Values)
    → Graph g kvs
    → value_at j (set_pairs kvs m) ≡ (if has_pair j kvs then g j else value_at j m)
unfolding set_pairs
value_at-set_pairs g [] j m h = refl
value_at-set_pairs g (kv ∷ kvs) j m h = ground (
  arith,
  value_at-set_pairs g kvs j (set_value kv.key kv.value m),
  value_at-set_value kv.key kv.value j m,
  text_eq_iff kv.key j,
)

has-set_value :
    (key value j : Text) (m : Values)
    → has j (value_keys (set_value key value m)) ≡ (text_eq key j || has j (value_keys m))
unfolding value_keys set_value
has-set_value key value j [] = refl
has-set_value key value j ((k, v) ∷ m) =
    ground
      (arith, text_eq_iff key j, text_eq_iff k key, text_eq_iff k j, has-set_value key value j m)

has-set_pairs :
    (kvs : List KeyValue) (j : Text) (m : Values)
    → has j (value_keys (set_pairs kvs m)) ≡ (has j (value_keys m) || has_pair j kvs)
unfolding set_pairs
has-set_pairs [] j m = ground arith
has-set_pairs (kv ∷ kvs) j m =
    ground
      (arith, has-set_pairs kvs j (set_value kv.key kv.value m), has-set_value kv.key kv.value j m)

set_value-Distinct :
    (key value : Text) (m : Values)
    → Distinct (value_keys m)
    → Distinct (value_keys (set_value key value m))
unfolding value_keys set_value
set_value-Distinct key value [] d = (refl, tt)
set_value-Distinct key value ((k, v) ∷ m) d = ground (
  arith,
  text_eq_iff k key,
  text_eq_iff key k,
  has-set_value key value k m,
  set_value-Distinct key value m,
)

set_pairs-Distinct :
    (kvs : List KeyValue) (m : Values)
    → Distinct (value_keys m)
    → Distinct (value_keys (set_pairs kvs m))
unfolding set_pairs
set_pairs-Distinct [] m d = d
set_pairs-Distinct (kv ∷ kvs) m d =
    set_pairs-Distinct kvs (set_value kv.key kv.value m) (set_value-Distinct kv.key kv.value m d)

set_pairs-append :
    (xs ys : List KeyValue) (m : Values) → set_pairs (xs ++ ys) m ≡ set_pairs ys (set_pairs xs m)
unfolding set_pairs
set_pairs-append [] ys m = refl
set_pairs-append (kv ∷ kvs) ys m = set_pairs-append kvs ys _

pub lines_eq :
    (f g : Text → Text) (ks : List Text)
    → ((k : Text) → has k ks ≡ true → f k ≡ g k)
    → lines f ks ≡ lines g ks
unfolding lines
lines_eq f g [] h = refl
lines_eq f g (k ∷ ks) h =
    ap₂ ◌++◌ (ap (line k) (h k (ground (arith, text_eq_iff k k))))
      (lines_eq f g ks (λ j e. h j (ground arith)))

module _ {json : Json} (codec : IsJson json) (job : Text) (outs : ℕ → List KeyValue) where
  read_outputs_lem :
      (i left : ℕ) (fs : Files) (m : Values)
      → ((q : ℕ) → q < i + left → open_file (merge_name job q) fs ≡ some (encode_all json (outs q)))
      → read_outputs json job i left fs m ≡ some (set_pairs (gather outs i left) m)
  unfolding read_outputs gather set_pairs
  read_outputs_lem i zero fs m h = refl
  read_outputs_lem i (suc left) fs m h =
      rw (h i (omega arith), read_outputs, decode_all-encode_all codec (outs i))
        (read_outputs_lem (i + 1) left fs (set_pairs (outs i) m) (λ q lt. h q (omega arith))
          ∙ ap some (sym (set_pairs-append (outs i) (gather outs (i + 1) left) m)))

  -- Where the outputs of the reduce tasks give each key one value, the merged file has one line for
  -- each of their keys, in strictly ascending order, with that value.
  pub merge_lem :
      (n : ℕ) (g : Text → Text) (fs : Files)
      → ((q : ℕ) → q < n → open_file (merge_name job q) fs ≡ some (encode_all json (outs q)))
      → Graph g (gather outs 0 n)
      → (fs' : Files) × (keys : List Text) × (merge json job n fs ≡ some fs')
        × Ascends keys
        × ((k : Text) → has k keys ≡ has_pair k (gather outs 0 n))
        × (open_file (output_name job) fs' ≡ some (lines g keys))
  unfolding merge value_keys value_at
  merge_lem n g fs h graph =
      let pairs = gather outs 0 n in
      let m = set_pairs pairs [] in
      let keys = sort_texts (value_keys m) in
      let out = output_name job in
      let text = lines (λ k. value_at k m) keys in
      let complete : (k : Text) → has k keys ≡ has_pair k pairs =
        λ k. has-sort_texts k (value_keys m) ∙ has-set_pairs pairs k [] in
      let made : open_file out (create out fs) ≡ some [] =
        ground (arith, open_file-create out out fs, text_eq_iff out out) in
      let same : text ≡ lines g keys =
        lines_eq (λ k. value_at k m) g keys
          (λ k e. value_at-set_pairs g pairs k [] graph ∙ rw (sym (complete k) ∙ e)) in
      (
        append_file out text (create out fs),
        keys,
        rw (read_outputs_lem 0 n fs [] (λ q lt. h q (omega arith))),
        sort_texts-Ascends (value_keys m) (set_pairs-Distinct pairs [] tt),
        complete,
        ground (
          arith,
          open_file-append_file out out text (create out fs) made,
          text_eq_iff out out,
          same,
        ),
      )
