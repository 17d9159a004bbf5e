-- ===== src/Jobs/WordCount.antt =====
-- src/main/wc.go: word count.
use mit6824_distribute_syste.Prelude.{
  ℕ, ◌+◌, ◌-◌, ◌*◌, Bool, true, false, ◌&&◌, Option, none, some, List, [], ◌∷◌, if◌then◌else◌, leb,
  ltb, ◌==◌, ◌%◌, ◌>>=◌,
}
use mit6824_distribute_syste.Prelude.Text.{Text, itoa}
use mit6824_distribute_syste.Prelude.Maps.{Map}
use mit6824_distribute_syste.MapReduce.Common.{KeyValue}
use mit6824_distribute_syste.Jobs.Words.{fields_func, count_words}

-- `for k, v := range mp`, in the order in which the words came.
unfoldable pub count_pairs : Map ℕ → List KeyValue
count_pairs [] = []
count_pairs ((k, v) ∷ mp) = record { key = k; value = itoa v } ∷ count_pairs mp

-- `mapF`
unfoldable pub map_f : (ℕ → Bool) → Text → Text → List KeyValue
map_f is_letter document value = count_pairs (count_words (fields_func is_letter value) [])

-- Decimals; `none` where a byte is no digit.
unfoldable pub decimal : ℕ → Text → Option ℕ
decimal n [] = some n
decimal n (d ∷ ds) =
    let rest = decimal (n * 10 + (d - 48)) ds in if leb 48 d && leb d 57 then rest else none

-- 2 ^ 63
abbrev pub two_63 : ℕ
two_63 = 9223372036854775808

-- 2 ^ 64
abbrev pub two_64 : ℕ
two_64 = 18446744073709551616

-- An int of 64 bits is kept as the number from 0 to 2 ^ 64 - 1 that stands for it.
unfoldable pub in_range : Bool → Option ℕ → Option ℕ
in_range negative none = none
in_range negative (some n) =
    if negative
    then (if leb n two_63 then some ((two_64 - n) % two_64) else none)
    else (if ltb n two_63 then some n else none)

unfoldable pub digits_of : Bool → Text → Option ℕ
digits_of negative [] = none
digits_of negative (d ∷ ds) = in_range negative (decimal 0 (d ∷ ds))

-- `strconv.Atoi`; `none` where it fails.
unfoldable pub atoi : Text → Option ℕ
unfolding digits_of
atoi [] = none
atoi (c ∷ s) =
    if c == b'-'
    then digits_of true s
    else (if c == b'+' then digits_of false s else digits_of false (c ∷ s))

-- `strconv.Itoa`
unfoldable pub itoa_64 : ℕ → Text
itoa_64 n = if ltb n two_63 then itoa n else b'-' ∷ itoa (two_64 - n)

-- The loop of `reduceF`.
unfoldable pub add_values : ℕ → List Text → Option ℕ
add_values tot [] = some tot
add_values tot (value ∷ values) = do cur ← atoi value; add_values ((tot + cur) % two_64) values

-- `reduceF`; `none` is the end of the process, by `log.Fatal`.
unfoldable pub reduce_f : Text → List Text → Option Text
reduce_f key values = do tot ← add_values 0 values; some (itoa_64 tot)
