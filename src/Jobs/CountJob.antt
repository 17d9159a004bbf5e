-- ===== src/Jobs/CountJob.antt =====
-- src/main/wc.go on src/mapreduce/master.go: word count as a whole sequential job.
use mit6824_distribute_syste.Prelude.{
  ℕ, ◌+◌, ◌<◌, ◌≡◌, refl, ap, sym, ◌∙◌, Bool, true, false, not, some, List, [], ◌∷◌, ◌++◌, length,
  length-append, get_elem?, append_assoc, ◌==◌, arith,
}
use mit6824_distribute_syste.Prelude.Text.{Text, itoa}
use mit6824_distribute_syste.MapReduce.Common.{KeyValue, output_name}
use mit6824_distribute_syste.MapReduce.Files.{Files, open_file, Json, IsJson}
use mit6824_distribute_syste.MapReduce.Grouping.{values_of, has, has_pair, has_pair-append, Ascends}
use mit6824_distribute_syste.MapReduce.Reducing.{gather}
use mit6824_distribute_syste.MapReduce.Merge.{lines}
use mit6824_distribute_syste.MapReduce.Merging.{lines_eq}
use mit6824_distribute_syste.MapReduce.Sequential.{Master, sequential}
use mit6824_distribute_syste.MapReduce.Phases.{emitted, Inputs}
use mit6824_distribute_syste.MapReduce.WholeJob.{sequential_lem}
use mit6824_distribute_syste.Jobs.WordCount.{map_f, reduce_f, two_63}
use mit6824_distribute_syste.Jobs.Counting.{values_of-map_f}
use mit6824_distribute_syste.Jobs.Results.{all_pairs, total, word_count_lem}

-- The input files with their contents.
abbrev pub documents_of : (Text → Text) → List Text → List (Text × Text)
documents_of contents [] = []
documents_of contents (f ∷ files) = (f, contents f) ∷ documents_of contents files

get_elem?-middle :
    (pre files : List Text) (f : Text) → get_elem? (pre ++ f ∷ files) (length pre) ≡ some f
get_elem?-middle [] files f = refl
get_elem?-middle (x ∷ pre) files f = ground (arith, get_elem?-middle pre files f)

gather-emitted :
    (f : Text → Text → List KeyValue) (contents : Text → Text) (pre files : List Text) (i : ℕ)
    → i ≡ length pre
    → gather (emitted f contents (pre ++ files)) i (length files)
      ≡ all_pairs f (documents_of contents files)
unfolding gather
gather-emitted f contents pre [] i e = refl
gather-emitted f contents pre (x ∷ files) i e =
    let now : emitted f contents (pre ++ x ∷ files) i ≡ f x (contents x) =
      ground (arith, e, get_elem?-middle pre files x) in
    let same : (pre ++ x ∷ []) ++ files ≡ pre ++ x ∷ files = append_assoc pre (x ∷ []) files in
    let rest =
      gather-emitted f contents (pre ++ x ∷ []) files (i + 1)
        (omega (arith, length-append pre (x ∷ []), e)) in
    rw now (
      ap (λ r. f x (contents x) ++ r)
        (ap (λ l. gather (emitted f contents l) (i + 1) (length files)) (sym same) ∙ rest))

-- Whether some pair has a key, by its values.
abbrev some_value : List Text → Bool
some_value [] = false
some_value (v ∷ vs) = true

has_pair-values_of :
    (k : Text) (kvs : List KeyValue) → has_pair k kvs ≡ some_value (values_of k kvs)
unfolding values_of
has_pair-values_of k [] = refl
has_pair-values_of k (kv ∷ kvs) = ground (arith, has_pair-values_of k kvs)

has_pair-all_pairs :
    (is_letter : ℕ → Bool) (word : Text) (ds : List (Text × Text))
    → has_pair word (all_pairs (map_f is_letter) ds) ≡ not (total is_letter word ds == 0)
has_pair-all_pairs is_letter word [] = refl
has_pair-all_pairs is_letter word ((document, value) ∷ ds) = ground (
  arith,
  has_pair-append word (map_f is_letter document value) (all_pairs (map_f is_letter) ds),
  has_pair-values_of word (map_f is_letter document value),
  values_of-map_f is_letter word document value,
  has_pair-all_pairs is_letter word ds,
)

-- What the job leaves: a line for each word that occurs in some document, and for no other, in strictly
-- ascending order, with the decimals of the number of its occurrences in all of them.
pub record Counted (is_letter : ℕ → Bool) (docs : List (Text × Text)) (job : Text) (fs' : Files)
    : Type 0 where
  pub words : List Text
  pub ascending : Ascends words
  pub complete : (word : Text) → has word words ≡ not (total is_letter word docs == 0)
  pub written :
      open_file (output_name job) fs'
      ≡ some (lines (λ word. itoa (total is_letter word docs)) words)

module _ {json : Json} (codec : IsJson json) (is_letter : ℕ → Bool)
    (reduce : Text → List Text → Text)
    (agrees : (word : Text) (values : List Text) (t : Text)
      → reduce_f word values ≡ some t
      → reduce word values ≡ t)
    (contents : Text → Text) (job : Text) where
  -- The word count, run as a sequential job with the map function of wc.go and a reduce function that
  -- gives what that of wc.go returns, ends and counts the words of its input files, where no word
  -- occurs 2 ^ 63 times: that of wc.go does return. The input files are there and are none of the
  -- intermediate files, and there are at least one and fewer than 2 ^ 32 reduce tasks.
  pub count_job_lem :
      (n : ℕ) (files : List Text) (fs : Files)
      → 0 < n
      → n < 4294967296
      → Inputs contents job files fs
      → ((word : Text) → total is_letter word (documents_of contents files) < two_63)
      → (mr : Master) × (fs' : Files) × (sequential json (map_f is_letter) reduce job files n fs
          ≡ some (mr, fs'))
        × Counted is_letter (documents_of contents files) job fs'
  count_job_lem n files fs pos small inputs bound =
      let docs = documents_of contents files in
      let pairs : gather (emitted (map_f is_letter) contents files) 0 (length files)
          ≡ all_pairs (map_f is_letter) docs =
        gather-emitted (map_f is_letter) contents [] files 0 refl in
      let (mr, fs', done, job_done) =
        sequential_lem codec (map_f is_letter) reduce contents job n files fs pos small inputs in
      let value : (word : Text)
          → reduce word
              (values_of word (gather (emitted (map_f is_letter) contents files) 0 (length files)))
            ≡ itoa (total is_letter word docs) =
        λ word.
          ap (λ ps. reduce word (values_of word ps)) pairs
          ∙ agrees word (values_of word (all_pairs (map_f is_letter) docs))
              (itoa (total is_letter word docs))
              (word_count_lem is_letter word docs (bound word)) in
      (
        mr,
        fs',
        done,
        record {
          words = job_done.keys;
          ascending = job_done.ascending;
          complete = λ word.
              job_done.complete word
              ∙ ap (has_pair word) pairs
              ∙ has_pair-all_pairs is_letter word docs;
          written = job_done.written ∙ ap some (lines_eq _ _ job_done.keys (λ word h. value word));
        },
      )
