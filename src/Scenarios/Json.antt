-- ===== src/Scenarios/Json.antt =====
-- A JSON-like codec for the pairs of src/mapreduce, to instantiate the parameter `json`: each byte is
-- written one higher, and a zero ends each text.
use mit6824_distribute_syste.Prelude.{
  zero, suc, ◌<◌, ◌≡◌, refl, arith, Option, none, some, [], ◌∷◌, ◌++◌, length,
}
use mit6824_distribute_syste.Prelude.Text.{Text}
use mit6824_distribute_syste.MapReduce.Common.{KeyValue}
use mit6824_distribute_syste.MapReduce.Files.{Json, IsJson}

abbrev encode_text : Text → Text → Text
encode_text [] rest = 0 ∷ rest
encode_text (b ∷ t) rest = suc b ∷ encode_text t rest

abbrev decode_text : Text → Option (Text × Text)
decode_text [] = none
decode_text (zero ∷ rest) = some ([], rest)
decode_text (suc b ∷ t) = elim (decode_text t) [ none ↦ none | some (s, rest) ↦ some (b ∷ s, rest) ]

abbrev decode_pair : Text → Option (KeyValue × Text)
decode_pair t = elim (decode_text t) [
  | none ↦ none
  | some (k, rest) ↦ elim (decode_text rest) [
    | none ↦ none
    | some (v, rest') ↦ some (record { key = k; value = v }, rest')
  ]
]

abbrev pub bytes_json : Json
bytes_json = record {
  encode = λ kv. encode_text kv.key (encode_text kv.value []);
  decode = decode_pair;
}

decode_text-encode_text :
    (t more rest : Text) → decode_text (encode_text t more ++ rest) ≡ some (t, more ++ rest)
decode_text-encode_text [] more rest = refl
decode_text-encode_text (b ∷ t) more rest = ground (arith, decode_text-encode_text t more rest)

encode_text-pos : (t more : Text) → 0 < length (encode_text t more)
encode_text-pos [] more = omega arith
encode_text-pos (b ∷ t) more = omega arith

pub bytes_json-IsJson : IsJson bytes_json
bytes_json-IsJson = record {
  decode-encode = λ kv rest. ground (
    arith,
    decode_text-encode_text kv.key (encode_text kv.value []) rest,
    decode_text-encode_text kv.value [] rest,
  );
  decode-nil = refl;
  encode_pos = λ kv. encode_text-pos kv.key (encode_text kv.value []);
}
