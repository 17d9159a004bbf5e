-- ===== src/Jobs/Counting.antt =====
-- src/main/wc.go and src/main/ii.go: the counts of a text, and what becomes of them in the jobs.
use mit6824_distribute_syste.Prelude.{
  ℕ, ◌+◌, ◌*◌, ◌-◌, ◌<◌, ◌≡◌, ◌≢◌, refl, Bool, false, ◌||◌, some, List, [], ◌∷◌, ◌==◌,
  if◌then◌else◌, arith,
}
use mit6824_distribute_syste.Prelude.Text.{Text, text_eq, text_eq_iff, itoa, AllDigits, value_from}
use mit6824_distribute_syste.Prelude.Maps.{Map, lookup}
use mit6824_distribute_syste.MapReduce.Grouping.{values_of}
use mit6824_distribute_syste.Jobs.Words.{
  increment, count_words, occurrences, count_at, key_in, Counts, fields_func,
}
use mit6824_distribute_syste.Jobs.WordCount.{
  count_pairs, map_f, decimal, in_range, atoi, two_63, digits_of,
}

count_at-increment :
    (w word : Text) (mp : Map ℕ)
    → count_at word (increment w mp) ≡ (if text_eq w word then 1 else 0) + count_at word mp
unfolding increment lookup
count_at-increment w word [] = ground arith
count_at-increment w word ((k, n) ∷ mp) =
    ground
      (arith, text_eq_iff w word, text_eq_iff k w, text_eq_iff k word, count_at-increment w word mp)

key_in-increment :
    (w word : Text) (mp : Map ℕ) → key_in word (increment w mp) ≡ (text_eq w word || key_in word mp)
unfolding increment
key_in-increment w word [] = ground arith
key_in-increment w word ((k, n) ∷ mp) =
    ground
      (arith, text_eq_iff w word, text_eq_iff k w, text_eq_iff k word, key_in-increment w word mp)

increment-Counts : (w : Text) (mp : Map ℕ) → Counts mp → Counts (increment w mp)
unfolding increment
increment-Counts w [] h = ground arith
increment-Counts w ((k, n) ∷ mp) h =
    ground
      (arith, text_eq_iff k w, text_eq_iff w k, key_in-increment w k mp, increment-Counts w mp h.2)

pub count_words-Counts : (ws : List Text) (mp : Map ℕ) → Counts mp → Counts (count_words ws mp)
unfolding count_words
count_words-Counts [] mp h = h
count_words-Counts (w ∷ ws) mp h = count_words-Counts ws (increment w mp) (increment-Counts w mp h)

pub count_at-count_words :
    (ws : List Text) (word : Text) (mp : Map ℕ)
    → count_at word (count_words ws mp) ≡ count_at word mp + occurrences word ws
unfolding count_words occurrences
count_at-count_words [] word mp = omega arith
count_at-count_words (w ∷ ws) word mp =
    omega (arith, count_at-count_words ws word (increment w mp), count_at-increment w word mp)

no_key : (word : Text) (mp : Map ℕ) → key_in word mp ≡ false → values_of word (count_pairs mp) ≡ []
unfolding values_of count_pairs
no_key word [] h = refl
no_key word ((k, n) ∷ mp) h = ground (arith, no_key word mp)

values_of-count_pairs :
    (word : Text) (mp : Map ℕ)
    → Counts mp
    → values_of word (count_pairs mp)
      ≡ (if count_at word mp == 0 then [] else itoa (count_at word mp) ∷ [])
unfolding values_of count_pairs lookup
values_of-count_pairs word [] h = ground arith
values_of-count_pairs word ((k, n) ∷ mp) h =
    ground (arith, text_eq_iff k word, values_of-count_pairs word mp h.2, no_key word mp, h)

-- What `mapF` gives for a word: the number of its occurrences, if there are any.
pub values_of-map_f :
    (is_letter : ℕ → Bool) (word document value : Text)
    → values_of word (map_f is_letter document value) ≡ (
        if occurrences word (fields_func is_letter value) == 0
        then []
        else itoa (occurrences word (fields_func is_letter value)) ∷ [])
unfolding map_f lookup
values_of-map_f is_letter word document value =
    let ws = fields_func is_letter value in
    ground (
      arith,
      values_of-count_pairs word (count_words ws []) (count_words-Counts ws [] tt),
      count_at-count_words ws word [],
    )

decimal-digits : (n : ℕ) (ds : Text) → AllDigits ds → decimal n ds ≡ some (value_from n ds)
unfolding decimal value_from
decimal-digits n [] h = refl
decimal-digits n (d ∷ ds) h = ground (arith, decimal-digits (n * 10 + (d - 48)) ds h.2, h)

pub atoi-digits :
    (ds : Text)
    → AllDigits ds
    → ds ≢ []
    → value_from 0 ds < two_63
    → atoi ds ≡ some (value_from 0 ds)
unfolding atoi in_range digits_of
atoi-digits [] h ne lt = absurd (ne refl)
atoi-digits (d ∷ ds) h ne lt = ground (arith, decimal-digits 0 (d ∷ ds) h, h)
