-- ===== src/Scenarios/Partition.antt =====
-- The partitions of src/kvraft/config.go with three servers, and with four.
use mit6824_distribute_syste.Prelude.{
  ◌+◌, ℕ, ◌≡◌, refl, sym, ap, ◌∙◌, true, false, ◌&&◌, ◌||◌, Option, none, some, List, [], ◌∷◌,
  if◌then◌else◌, length, arith,
}
use mit6824_distribute_syste.Prelude.Text.{Text}
use mit6824_distribute_syste.Labrpc.Network.{Network, make_network, connect}
use mit6824_distribute_syste.Prelude.Maps.{lookup, put}
use mit6824_distribute_syste.Tester.Enabling.{live}
use mit6824_distribute_syste.Tester.Partition.{partition, make_partition, place_servers}
use mit6824_distribute_syste.Tester.Sides.{member, Started, partition_lem}
use mit6824_distribute_syste.Raft.Peer.{Raft}
use mit6824_distribute_syste.Raft.Persister.{make_persister}
use mit6824_distribute_syste.Raft.Roles.{make}
use mit6824_distribute_syste.Scenarios.Codec.{numbers_gob}
use mit6824_distribute_syste.Tester.Isolate.{find_leader, isolate_leader, one_partition_lem}
use mit6824_distribute_syste.Tester.KvConfig.{KvConfig, empty_config, make_config}
use mit6824_distribute_syste.Tester.Minority.{Split, make_partition_lem}

abbrev rows : ℕ → Option (ℕ → Text)
rows p = some (λ q. p ∷ (q ∷ []))

some_injective {ℓ} : {A : Type ℓ} {a b : A} → some a ≡ some b → a ≡ b
some_injective h = cc

names_differ :
    (p q p' q' : ℕ) (row row' : ℕ → Text)
    → rows p ≡ some row
    → rows p' ≡ some row'
    → row q ≡ row' q'
    → (p ≡ p') × (q ≡ q')
names_differ p q p' q' row row' at at' same =
    let r : (λ (x : ℕ). p ∷ (x ∷ [])) ≡ row = some_injective at in
    let r' : (λ (x : ℕ). p' ∷ (x ∷ [])) ≡ row' = some_injective at' in
    let e : p ∷ (q ∷ []) ≡ p' ∷ (q' ∷ []) = ap (λ f. f q) r ∙ same ∙ sym (ap (λ f. f q') r') in
    (ground (arith, e), ground (arith, e))

rows-Started : Started 3 rows
rows-Started = record {
  rows = λ p lt. ((λ q. p ∷ (q ∷ [])), refl);
  distinct = λ p q p' q' row row' p_lt q_lt p_lt' q_lt' at at' same.
      names_differ p q p' q' row row' at at' same;
}

-- Server 0 leads: it is cut off from the other two.
abbrev side1 : List ℕ
side1 = 1 ∷ (2 ∷ [])

abbrev side2 : List ℕ
side2 = 0 ∷ []

partition_lem_example :
    (net' : Network) × (partition rows side1 side2 make_network ≡ some net')
    × (live (0 ∷ (1 ∷ [])) net' ≡ (
        if member 0 side1 && member 1 side1 || member 0 side2 && member 1 side2
        then true
        else if member 0 side1 && member 1 side2 || member 0 side2 && member 1 side1
        then false
        else live (0 ∷ (1 ∷ [])) make_network))
partition_lem_example =
    partition_lem rows-Started 0 1 (λ q. 0 ∷ (q ∷ [])) (omega arith) (omega arith) refl side1 side2
      make_network (omega arith, (omega arith, tt)) (omega arith, tt) (omega arith) (omega arith)
      (λ i h. ground arith)

make_partition_lem_example :
    (p1 p2 : List ℕ) × (make_partition 3 0 ≡ some (p1, p2)) × Split 1 3 0 p1 p2
make_partition_lem_example = make_partition_lem 1 3 0 refl (omega arith) (omega arith)

-- Peers that have come up, and do not lead.
abbrev peers_up : ℕ → Raft ℕ
peers_up p = make numbers_gob 3 p make_persister

abbrev kv_names : ℕ → ℕ → Text
kv_names p q = p ∷ (q ∷ [])

abbrev or_empty : Option (KvConfig ℕ) → KvConfig ℕ
or_empty none = empty_config 3
or_empty (some cfg) = cfg

abbrev kv : KvConfig ℕ
kv = or_empty (make_config numbers_gob kv_names (λ i. i) 3 false)

kv_made : make_config numbers_gob kv_names (λ i. i) 3 false ≡ some kv
unfolding make_config lookup connect put
kv_made = refl

one_partition_lem_example :
    (live (0 ∷ (1 ∷ [])) kv.net ≡ true)
    × ((p1 p2 : List ℕ) × (net' : Network) × (isolate_leader peers_up kv.n kv.endnames kv.net
          ≡ some ((p1, p2), net'))
        × (length p1 ≡ 1 + 1)
        × (length p2 ≡ 1)
        × (member (find_leader peers_up 0 kv.n).1 p2 ≡ true)
        × (live (0 ∷ (1 ∷ [])) net' ≡ (if member 0 p1 then member 1 p1 else member 1 p2)))
unfolding make_config lookup connect put
one_partition_lem_example =
    one_partition_lem numbers_gob kv_names (λ i. i) 1 3 false kv peers_up 0 1 (λ q. 0 ∷ (q ∷ []))
      refl (omega arith) kv_made (omega arith) (omega arith) refl

-- With four servers, a place of the second side is not filled: server 0 is on both sides.
four_servers : make_partition 4 1 ≡ some (0 ∷ (2 ∷ (3 ∷ [])), 0 ∷ (1 ∷ []))
unfolding make_partition place_servers
four_servers = refl
