-- ===== src/MapReduce/Files.antt =====
-- The file system that the tasks share (src/mapreduce uses `os` and `ioutil`), and JSON streams.
-- Creating, writing and closing a file is taken to succeed; opening one that is not there fails.
use mit6824_distribute_syste.Prelude.{
  ℕ, zero, suc, ◌≤◌, ◌<◌, ◌≡◌, refl, ap, Option, none, some, List, [], ◌∷◌, ◌++◌, length,
  length-append, if◌then◌else◌, append_assoc, arith,
}
use mit6824_distribute_syste.Prelude.Text.{Text, text_eq, text_eq_iff}
use mit6824_distribute_syste.MapReduce.Common.{KeyValue}

abbrev pub Files : Type 0
Files = List (Text × Text)

-- `os.Open` and `ioutil.ReadFile`
unfoldable pub open_file : Text → Files → Option Text
open_file name [] = none
open_file name ((n, c) ∷ fs) = if text_eq n name then some c else open_file name fs

put_file : Text → Text → Files → Files
put_file name contents [] = (name, contents) ∷ []
put_file name contents ((n, c) ∷ fs) =
    if text_eq n name then (name, contents) ∷ fs else (n, c) ∷ put_file name contents fs

-- `os.Create`: the file is empty, whether or not it was there.
unfoldable pub create : Text → Files → Files
unfolding put_file
create name fs = put_file name [] fs

-- A write at the end of a file that was created.
unfoldable pub append_file : Text → Text → Files → Files
unfolding put_file
append_file name more fs =
    put_file name ((elim (open_file name fs) [ none ↦ [] | some old ↦ old ]) ++ more) fs

-- `os.Remove`; `none` where there is no such file.
unfoldable pub remove : Text → Files → Option Files
remove name [] = none
remove name ((n, c) ∷ fs) =
    let rest = remove name fs in
    if text_eq n name then some fs else elim rest [ none ↦ none | some fs' ↦ some ((n, c) ∷ fs') ]

open_file-put_file :
    (name j c : Text) (fs : Files)
    → open_file j (put_file name c fs) ≡ (if text_eq name j then some c else open_file j fs)
unfolding open_file put_file
open_file-put_file name j c [] = refl
open_file-put_file name j c ((n, d) ∷ fs) =
    ground (
      arith,
      text_eq_iff name j,
      text_eq_iff n name,
      text_eq_iff n j,
      open_file-put_file name j c fs,
    )

pub open_file-create :
    (name j : Text) (fs : Files)
    → open_file j (create name fs) ≡ (if text_eq name j then some [] else open_file j fs)
unfolding create
open_file-create name j fs = open_file-put_file name j [] fs

pub open_file-append_file :
    (name j more : Text) (fs : Files) {old : Text}
    → open_file name fs ≡ some old
    → open_file j (append_file name more fs)
      ≡ (if text_eq name j then some (old ++ more) else open_file j fs)
unfolding append_file
open_file-append_file name j more fs {old} h = rw h (open_file-put_file name j (old ++ more) fs)

-- `encoding/json` as the tasks use it: `Encode` of a pair, and `Decode` of the next one with what
-- is left of the stream.
pub record Json : Type 0 where
  pub encode : KeyValue → Text
  pub decode : Text → Option (KeyValue × Text)

-- Its documentation: pairs of UTF-8 texts come back as they were written and in their order, a stream
-- that has ended has no next pair, and a pair takes some bytes.
pub record IsJson (json : Json) : Type 0 where
  pub decode-encode :
      (kv : KeyValue) (rest : Text) → json.decode (json.encode kv ++ rest) ≡ some (kv, rest)
  pub decode-nil : json.decode [] ≡ none
  pub encode_pos : (kv : KeyValue) → 0 < length (json.encode kv)

-- The pairs of a stream, one after another.
unfoldable pub encode_all : Json → List KeyValue → Text
encode_all json [] = []
encode_all json (kv ∷ kvs) = json.encode kv ++ encode_all json kvs

-- `dec.Decode` until it fails, on fuel; a stream has no more pairs than bytes.
decode_loop : Json → ℕ → Text → List KeyValue
decode_loop json zero t = []
decode_loop json (suc fuel) t = elim (json.decode t) [
  | none ↦ []
  | some (kv, rest) ↦ kv ∷ decode_loop json fuel rest
]

unfoldable pub decode_all : Json → Text → List KeyValue
unfolding decode_loop
decode_all json t = decode_loop json (suc (length t)) t

module _ {json : Json} (codec : IsJson json) where
  length-le-encode_all : (kvs : List KeyValue) → length kvs ≤ length (encode_all json kvs)
  unfolding encode_all
  length-le-encode_all [] = omega arith
  length-le-encode_all (kv ∷ kvs) = omega (
    arith,
    length-append {0} (json.encode kv) (encode_all json kvs),
    codec.encode_pos kv,
    length-le-encode_all kvs,
  )

  decode_loop-encode_all :
      (fuel : ℕ) (kvs : List KeyValue)
      → length kvs < fuel
      → decode_loop json fuel (encode_all json kvs) ≡ kvs
  unfolding decode_loop encode_all
  decode_loop-encode_all zero kvs h = absurd (omega arith)
  decode_loop-encode_all (suc fuel) [] h = rw (codec.decode-nil, decode_loop)
  decode_loop-encode_all (suc fuel) (kv ∷ kvs) h =
      rw (codec.decode-encode kv (encode_all json kvs), decode_loop)
        (ap (λ r. kv ∷ r) (decode_loop-encode_all fuel kvs (omega arith)))

  -- With a codec that keeps its promises, a task that decodes until the stream ends reads the pairs
  -- that another one encoded, all of them and in their order.
  pub decode_all-encode_all : (kvs : List KeyValue) → decode_all json (encode_all json kvs) ≡ kvs
  unfolding decode_all
  decode_all-encode_all kvs =
      decode_loop-encode_all (suc (length (encode_all json kvs))) kvs
        (omega (arith, length-le-encode_all kvs))

  pub encode_all-append :
      (kvs kvs' : List KeyValue)
      → encode_all json (kvs ++ kvs') ≡ encode_all json kvs ++ encode_all json kvs'
  unfolding encode_all
  encode_all-append [] kvs' = refl
  encode_all-append (kv ∷ kvs) kvs' = simp (encode_all-append kvs kvs', append_assoc)
