-- ===== src/Jobs/Words.antt =====
-- The words of a text, as `mapF` of src/main/wc.go and src/main/ii.go find them, and how often each
-- occurs. A text is its runes; `unicode.IsLetter` is a parameter.
use mit6824_distribute_syste.Prelude.{
  ℕ, suc, ◌+◌, ◌≢◌, ◌≡◌, Bool, false, ◌||◌, none, some, List, [], ◌∷◌, if◌then◌else◌,
}
use mit6824_distribute_syste.Prelude.Text.{Text, text_eq}
use mit6824_distribute_syste.Prelude.Maps.{Map, lookup}

-- The word that is being read goes before the words after it, unless it is empty.
abbrev pub end_word : Text → List Text → List Text
end_word [] ws = ws
end_word (b ∷ w) ws = (b ∷ w) ∷ ws

module _ (is_letter : ℕ → Bool) where
  -- `strings.FieldsFunc`: the first word is the one that `s` begins with, perhaps empty.
  fields_loop : Text → Text × List Text
  fields_loop [] = ([], [])
  fields_loop (c ∷ s) =
      let (w, ws) = fields_loop s in if is_letter c then (c ∷ w, ws) else ([], end_word w ws)

  unfoldable pub fields_func : Text → List Text
  unfolding fields_loop
  fields_func s = let (w, ws) = fields_loop s in end_word w ws

-- `mp[word]++`
unfoldable pub increment : Text → Map ℕ → Map ℕ
increment word [] = (word, 1) ∷ []
increment word ((k, n) ∷ mp) =
    if text_eq k word then (k, suc n) ∷ mp else (k, n) ∷ increment word mp

-- `for _, word := range words`
unfoldable pub count_words : List Text → Map ℕ → Map ℕ
count_words [] mp = mp
count_words (w ∷ ws) mp = count_words ws (increment w mp)

-- How often a word is among the words.
unfoldable pub occurrences : Text → List Text → ℕ
occurrences word [] = 0
occurrences word (w ∷ ws) = (if text_eq w word then 1 else 0) + occurrences word ws

-- The value of a map at a key, 0 where there is none.
abbrev pub count_at : Text → Map ℕ → ℕ
count_at word mp = elim (lookup word mp) [ none ↦ 0 | some n ↦ n ]

-- The keys of a map are different, and no value is 0.
abbrev pub key_in : Text → Map ℕ → Bool
key_in word [] = false
key_in word ((k, n) ∷ mp) = text_eq k word || key_in word mp

abbrev pub Counts : Map ℕ → Type 0
Counts [] = Unit
Counts ((k, n) ∷ mp) = (key_in k mp ≡ false) × (n ≢ 0) × Counts mp
