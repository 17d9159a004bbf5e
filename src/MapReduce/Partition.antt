-- ===== src/MapReduce/Partition.antt =====
-- src/mapreduce/common_map.go: a map task partitions its pairs.
use mit6824_distribute_syste.Prelude.{
  ℕ, zero, suc, ◌+◌, ◌%◌, ◌<◌, ◌≡◌, ◌≢◌, refl, ap, ◌∙◌, Bool-cases, some, List, [], ◌∷◌, ◌++◌, inl,
  inr, ◌==◌, ltb, leb, ◌&&◌, ℕ_discrete, if◌then◌else◌, append-nil, append_assoc, arith,
}
use mit6824_distribute_syste.Prelude.Text.{Text, text_eq, text_eq_iff}
use mit6824_distribute_syste.MapReduce.Common.{KeyValue, reduce_name, reduce_name-injective}
use mit6824_distribute_syste.MapReduce.Files.{
  Files, open_file, create, append_file, Json, encode_all, open_file-create, open_file-append_file,
}
use mit6824_distribute_syste.MapReduce.Map.{partition_of, create_files, write_pairs, do_map, bucket}

pub partition_of-lt : (n : ℕ) (key : Text) → 0 < n → n < 4294967296 → partition_of n key < n
unfolding partition_of
partition_of-lt n key h k = let e : n % 4294967296 ≡ n = omega arith in rw e (grind arith)

module _ (job_name : Text) (map_task : ℕ) where
  abbrev name : ℕ → Text
  name r = reduce_name job_name map_task r

  same_name : (q r : ℕ) → text_eq (name q) (name r) ≡ (q == r)
  same_name q r = elim (ℕ_discrete q r) [
    | yes e ↦ rw e (ground (arith, text_eq_iff (name r) (name r)))
    | no ne ↦
        ground (
          arith,
          text_eq_iff (name q) (name r),
          reduce_name-injective job_name map_task q map_task r,
        )
  ]

  -- Creating the files from i on empties those and leaves the others.
  create_files_lem :
      (i left : ℕ) (fs : Files) (r : ℕ)
      → open_file (name r) (create_files job_name map_task i left fs)
        ≡ (if leb i r && ltb r (i + left) then some [] else open_file (name r) fs)
  unfolding create_files
  create_files_lem i zero fs r = ground arith
  create_files_lem i (suc left) fs r = ground (
    arith,
    create_files_lem (i + 1) left (create (name i) fs) r,
    open_file-create (name i) (name r) fs,
    same_name i r,
  )

  create_files_other :
      (i left : ℕ) (fs : Files) (j : Text)
      → ((r : ℕ) → name r ≢ j)
      → open_file j (create_files job_name map_task i left fs) ≡ open_file j fs
  unfolding create_files
  create_files_other i zero fs j h = refl
  create_files_other i (suc left) fs j h =
      create_files_other (i + 1) left (create (name i) fs) j h
      ∙ ground (arith, open_file-create (name i) j fs, text_eq_iff (name i) j, h i)

  -- Every file of the task is there.
  abbrev Opens : ℕ → Files → Type 0
  Opens n fs = (q : ℕ) → q < n → (t : Text) × (open_file (name q) fs ≡ some t)

  Opens-append_file :
      (n q : ℕ) (more : Text) (fs : Files)
      → q < n
      → Opens n fs
      → Opens n (append_file (name q) more fs)
  Opens-append_file n q more fs h all r k =
      let (old, there) = all q h in
      let (t, here) = all r k in
      elim (Bool-cases (q == r)) [
        | inl same ↦ (
          old ++ more,
          rw (open_file-append_file (name q) (name r) more fs there, same_name q r, same),
        )
        | inr other ↦ (
          t,
          rw (open_file-append_file (name q) (name r) more fs there, same_name q r, other) here,
        )
      ]

  -- What writing the pairs does to each file of the task, and to any other file.
  record Written (json : Json) (n : ℕ) (kvs : List KeyValue) (fs fs' : Files) : Type 0 where
    added :
        (r : ℕ) (old : Text)
        → r < n
        → open_file (name r) fs ≡ some old
        → open_file (name r) fs' ≡ some (old ++ encode_all json (bucket n r kvs))
    kept : (j : Text) → ((r : ℕ) → name r ≢ j) → open_file j fs' ≡ open_file j fs

  Written-cons :
      (json : Json) (n q : ℕ) (kv : KeyValue) (kvs : List KeyValue) (fs fs' : Files) {old_q : Text}
      → q ≡ partition_of n kv.key
      → open_file (name q) fs ≡ some old_q
      → Written json n kvs (append_file (name q) (json.encode kv) fs) fs'
      → Written json n (kv ∷ kvs) fs fs'
  unfolding bucket encode_all
  Written-cons json n q kv kvs fs fs' {old_q} part there w = record {
    added = λ r old lt e. elim (Bool-cases (q == r)) [
      | inl same ↦
          let at : open_file (name r) (append_file (name q) (json.encode kv) fs)
              ≡ some (old ++ json.encode kv) =
            ground (
              arith,
              open_file-append_file (name q) (name r) (json.encode kv) fs there,
              same_name q r,
            ) in
          w.added r (old ++ json.encode kv) lt at
          ∙ rw (← part, same)
              (ap some (append_assoc old (json.encode kv) (encode_all json (bucket n r kvs))))
      | inr other ↦
          let at : open_file (name r) (append_file (name q) (json.encode kv) fs) ≡ some old =
            ground (
              arith,
              open_file-append_file (name q) (name r) (json.encode kv) fs there,
              same_name q r,
            ) in
          w.added r old lt at ∙ rw (← part, other)
    ];
    kept = λ j ne.
        w.kept j ne
        ∙ ground (
          arith,
          open_file-append_file (name q) j (json.encode kv) fs there,
          text_eq_iff (name q) j,
          ne q,
        );
  }

  write_pairs_lem :
      (json : Json) (n : ℕ) (kvs : List KeyValue) (fs : Files)
      → 0 < n
      → n < 4294967296
      → Opens n fs
      → (fs' : Files) × (write_pairs job_name map_task json n kvs fs ≡ some fs')
        × Written json n kvs fs fs'
  unfolding write_pairs bucket encode_all
  write_pairs_lem json n [] fs h k all =
      (fs, refl, record { added = λ r old lt e. simp append-nil e; kept = λ j ne. refl })
  write_pairs_lem json n (kv ∷ kvs) fs h k all =
      let q = partition_of n kv.key in
      let q_lt = partition_of-lt n kv.key h k in
      let (old_q, there) = all q q_lt in
      let fs1 = append_file (name q) (json.encode kv) fs in
      let (fs', done, w) =
        write_pairs_lem json n kvs fs1 h k (Opens-append_file n q (json.encode kv) fs q_lt all) in
      (fs', ground (arith, done), Written-cons json n q kv kvs fs fs' refl there w)

  -- What a map task leaves: file r holds the pairs that hash to r, in the order in which the map
  -- function gave them, and every file that is none of the task's is as it was.
  pub record Mapped (json : Json) (n : ℕ) (kvs : List KeyValue) (fs fs' : Files) : Type 0 where
    pub buckets :
        (r : ℕ)
        → r < n
        → open_file (reduce_name job_name map_task r) fs' ≡ some (encode_all json (bucket n r kvs))
    pub others :
        (j : Text)
        → ((r : ℕ) → reduce_name job_name map_task r ≢ j)
        → open_file j fs' ≡ open_file j fs

  -- A map task whose input is there, with a number of reduce tasks that fits a uint32 and is not 0,
  -- ends and partitions its pairs.
  pub do_map_lem :
      (json : Json) (in_file contents : Text) (n : ℕ) (map_f : Text → Text → List KeyValue)
      (fs : Files)
      → 0 < n
      → n < 4294967296
      → open_file in_file fs ≡ some contents
      → (fs' : Files) × (do_map json job_name map_task in_file n map_f fs ≡ some fs')
        × Mapped json n (map_f in_file contents) fs fs'
  unfolding do_map
  do_map_lem json in_file contents n map_f fs h k there =
      let kvs = map_f in_file contents in
      let fs1 = create_files job_name map_task 0 n fs in
      let empty : (r : ℕ) → r < n → open_file (name r) fs1 ≡ some [] =
        λ r lt. ground (arith, create_files_lem 0 n fs r) in
      let (fs', done, w) = write_pairs_lem json n kvs fs1 h k (λ r lt. ([], empty r lt)) in
      (
        fs',
        rw (there, do_map) done,
        record {
          buckets = λ r lt. w.added r [] lt (empty r lt);
          others = λ j ne. w.kept j ne ∙ create_files_other 0 n fs j ne;
        },
      )
