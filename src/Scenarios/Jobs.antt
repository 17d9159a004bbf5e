-- ===== src/Scenarios/Jobs.antt =====
-- The two jobs of src/main on two documents.
use mit6824_distribute_syste.Prelude.{
  suc, zero, ◌≢◌, ◌<◌, none, get_elem?, ℕ, ◌≡◌, refl, Bool, ◌&&◌, some, List, [], ◌∷◌, leb, arith,
}
use mit6824_distribute_syste.Prelude.Text.{Text, itoa}
use mit6824_distribute_syste.MapReduce.Common.{reduce_name}
use mit6824_distribute_syste.MapReduce.Files.{Files, open_file}
use mit6824_distribute_syste.MapReduce.Sequential.{Master, sequential}
use mit6824_distribute_syste.Jobs.CountJob.{count_job_lem, Counted, documents_of}
use mit6824_distribute_syste.Scenarios.Json.{bytes_json, bytes_json-IsJson}
use mit6824_distribute_syste.MapReduce.Grouping.{values_of}
use mit6824_distribute_syste.Jobs.Words.{fields_func, occurrences}
use mit6824_distribute_syste.Jobs.WordCount.{map_f, reduce_f, two_63}
use mit6824_distribute_syste.Jobs.InvertedIndex.{index_map_f}
use mit6824_distribute_syste.Jobs.Results.{
  word_count_lem, inverted_index_lem, all_pairs, total, documents_with,
}

abbrev is_lower : ℕ → Bool
is_lower c = leb 97 c && leb c 122

abbrev word : Text
word = b'a' ∷ (b'b' ∷ [])

-- "ab, ab"
abbrev twice : Text
twice = b'a' ∷ (b'b' ∷ (b',' ∷ (b' ' ∷ (b'a' ∷ (b'b' ∷ [])))))

abbrev documents : List (Text × Text)
documents = (b'x' ∷ [], twice) ∷ ((b'y' ∷ [], b'c' ∷ []) ∷ ((b'z' ∷ [], word) ∷ []))

two_words : fields_func is_lower twice ≡ word ∷ (word ∷ [])
unfolding fields_func
two_words = refl

word_count_lem_example :
    reduce_f word (values_of word (all_pairs (map_f is_lower) documents))
    ≡ some (itoa (total is_lower word documents))
unfolding fields_func occurrences
word_count_lem_example = word_count_lem is_lower word documents (omega arith)

inverted_index_lem_example :
    values_of word (all_pairs (index_map_f is_lower) documents)
    ≡ documents_with is_lower word documents
inverted_index_lem_example = inverted_index_lem is_lower word documents

abbrev reduce : Text → List Text → Text
reduce k vs = elim (reduce_f k vs) [ none ↦ [] | some t ↦ t ]

agrees : (k : Text) (vs : List Text) (t : Text) → reduce_f k vs ≡ some t → reduce k vs ≡ t
agrees k vs t e = ground (arith, e)

abbrev contents : Text → Text
contents f = b',' ∷ f

abbrev files : List Text
files = (b'a' ∷ []) ∷ ((b'b' ∷ []) ∷ [])

abbrev disk : Files
disk = (b'a' ∷ [], contents (b'a' ∷ [])) ∷ ((b'b' ∷ [], contents (b'b' ∷ [])) ∷ [])

abbrev job : Text
job = b'j' ∷ []

there : (q : ℕ) (f : Text) → get_elem? files q ≡ some f → open_file f disk ≡ some (contents f)
unfolding open_file
there zero f e = ground arith
there (suc zero) f e = ground arith
there (suc (suc q)) f e = ground arith

apart : (q : ℕ) (f : Text) → get_elem? files q ≡ some f → (m r : ℕ) → reduce_name job m r ≢ f
unfolding reduce_name
apart zero f e m r k = ground arith
apart (suc zero) f e m r k = ground arith
apart (suc (suc q)) f e m r k = ground arith

few : (w : Text) → total is_lower w (documents_of contents files) < two_63
unfolding fields_func occurrences
few w = ground arith

count_job_lem_example :
    (mr : Master) × (fs' : Files) × (sequential bytes_json (map_f is_lower) reduce job files 3 disk
      ≡ some (mr, fs'))
    × Counted is_lower (documents_of contents files) job fs'
count_job_lem_example =
    count_job_lem bytes_json-IsJson is_lower reduce agrees contents job 3 files disk (omega arith)
      (omega arith) (record { there = there; apart = apart }) few
