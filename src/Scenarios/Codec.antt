-- ===== src/Scenarios/Codec.antt =====
-- A codec for a peer's state (src/raft/raft.go, `persist`), to instantiate the parameter `gob`: each
-- value is a few numbers.
use mit6824_distribute_syste.Prelude.{
  ℕ, zero, suc, ◌≡◌, refl, arith, Option, none, some, List, [], ◌∷◌,
}
use mit6824_distribute_syste.Prelude.Int.{ℤ, pos, negsuc}
use mit6824_distribute_syste.Raft.Persister.{Bytes}
use mit6824_distribute_syste.Raft.Peer.{Log, Gob, IsCodec}

abbrev encode_option : Option ℕ → ℕ
encode_option none = 0
encode_option (some n) = suc n

abbrev decode_option : ℕ → Option ℕ
decode_option zero = none
decode_option (suc n) = some n

abbrev encode_log : List (Log ℕ) → Bytes
encode_log [] = []
encode_log (e ∷ es) =
    let rest = encode_log es in
    elim e.term [
      | pos n ↦ 0 ∷ (n ∷ (encode_option e.command ∷ rest))
      | negsuc n ↦ 1 ∷ (n ∷ (encode_option e.command ∷ rest))
    ]

abbrev decode_term : ℕ → ℕ → ℤ
decode_term zero n = pos n
decode_term (suc s) n = negsuc n

abbrev decode_log : Bytes → List (Log ℕ)
decode_log (s ∷ (n ∷ (c ∷ rest))) =
    record { term = decode_term s n; command = decode_option c } ∷ decode_log rest
decode_log _ = []

abbrev pub numbers_gob : Gob ℕ
numbers_gob = record {
  encode = λ t v l. t ∷ (encode_option v ∷ encode_log l);
  decode = elim [
    | [] ↦ (none, none, none)
    | t ∷ rest ↦ elim rest [
      | [] ↦ (some t, none, none)
      | v ∷ l ↦ (some t, some (decode_option v), some (decode_log l))
    ]
  ];
}

decode_option-encode_option : (o : Option ℕ) → decode_option (encode_option o) ≡ o
decode_option-encode_option none = refl
decode_option-encode_option (some n) = refl

decode_log-encode_log : (l : List (Log ℕ)) → decode_log (encode_log l) ≡ l
decode_log-encode_log [] = refl
decode_log-encode_log (e ∷ es) = ground (arith, decode_log-encode_log es)

pub numbers_gob-IsCodec : IsCodec numbers_gob
numbers_gob-IsCodec = record {
  decode-encode = λ t v l. rw (decode_option-encode_option v, decode_log-encode_log l);
  decode-nil = refl;
}
