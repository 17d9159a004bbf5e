-- ===== src/Tester/Isolate.antt =====
-- src/kvraft/config.go: the tests cut the leader off with a minority, by `Leader`, `make_partition` and
-- `partition`.
use mit6824_distribute_syste.Prelude.{
  ℕ, zero, suc, ◌+◌, ◌≤◌, ◌<◌, ◌≡◌, refl, ◌∙◌, Bool, true, false, not, ◌&&◌, ◌||◌, Option, some,
  List, [], ◌∷◌, ◌==◌, if◌then◌else◌, ◌>>=◌, length, arith, Bool-cases, inl, inr,
}
use mit6824_distribute_syste.Prelude.Text.{Text}
use mit6824_distribute_syste.Labrpc.Network.{Network}
use mit6824_distribute_syste.Raft.Peer.{Raft, Gob}
use mit6824_distribute_syste.Raft.Roles.{get_state}
use mit6824_distribute_syste.Tester.Enabling.{live}
use mit6824_distribute_syste.Tester.Partition.{partition, make_partition}
use mit6824_distribute_syste.Tester.Sides.{member, AllBelow, Started, partition_lem}
use mit6824_distribute_syste.Tester.KvConfig.{KvConfig, make_config}
use mit6824_distribute_syste.Tester.KvStart.{make_config_lem}
use mit6824_distribute_syste.Tester.Minority.{make_partition_lem}

-- `Leader`, from server `i` on, by the states of the peers when they are read.
unfoldable pub find_leader : {C : Type 0} → (ℕ → Raft C) → ℕ → ℕ → Bool × ℕ
unfolding get_state
find_leader rafts i zero = (false, 0)
find_leader rafts i (suc left) =
    let rest = find_leader rafts (i + 1) left in if (get_state (rafts i)).1 then (true, i) else rest

-- What the tests do with it.
unfoldable pub isolate_leader :
    {C : Type 0}
    → (ℕ → Raft C)
    → ℕ
    → (ℕ → Option (ℕ → Text))
    → Network
    → Option ((List ℕ × List ℕ) × Network)
unfolding find_leader
isolate_leader rafts n endnames net = do
  sides ← make_partition n (find_leader rafts 0 n).1
  net' ← partition endnames sides.0 sides.1 net
  some (sides, net')

find_leader-lt :
    {C : Type 0} (rafts : ℕ → Raft C) (i left n : ℕ)
    → i + left ≤ n
    → 0 < n
    → (find_leader rafts i left).1 < n
unfolding find_leader
find_leader-lt rafts i zero n le pos = pos
find_leader-lt rafts i (suc left) n le pos = elim (Bool-cases (get_state (rafts i)).1) [
  | inl leads ↦ rw leads (omega arith)
  | inr not ↦ rw not (find_leader-lt rafts (i + 1) left n (omega arith) pos)
]

member-lt : (n i : ℕ) (xs : List ℕ) → AllBelow n xs → member i xs ≡ true → i < n
member-lt n i [] all h = absurd (cc)
member-lt n i (x ∷ xs) all h = elim (Bool-cases (i == x)) [
  | inl e ↦ let f : i ≡ x = ground (arith, e) in omega (arith, f, all.0)
  | inr ne ↦ member-lt n i xs all.1 (ground (arith, h, ne))
]

same_side :
    (a b c d old : Bool)
    → a ≡ not c
    → b ≡ not d
    → (if a && b || c && d then true else if a && d || c && b then false else old)
      ≡ (if a then b else d)
same_side a b c d old e f = ground (arith, e, f)

-- With an odd number of servers that have all been started, three at least, the tests put the first
-- server that says it leads, or server 0, on a side with less than half of the servers, and the end of
-- server p for server q is enabled exactly if both are on one side.
pub isolate_leader_lem :
    {C : Type 0} (rafts : ℕ → Raft C) (k : ℕ) {n : ℕ} {endnames : ℕ → Option (ℕ → Text)}
    (started : Started n endnames) (net : Network) (p q : ℕ) (row : ℕ → Text)
    → n ≡ k + k + 1
    → 0 < k
    → p < n
    → q < n
    → endnames p ≡ some row
    → (p1 p2 : List ℕ) × (net' : Network) × (isolate_leader rafts n endnames net
        ≡ some ((p1, p2), net'))
      × (length p1 ≡ k + 1)
      × (length p2 ≡ k)
      × (member (find_leader rafts 0 n).1 p2 ≡ true)
      × (live (row q) net' ≡ (if member p p1 then member q p1 else member q p2))
unfolding isolate_leader
isolate_leader_lem rafts k {n} {endnames} started net p q row odd pos p_lt q_lt at =
    let l = (find_leader rafts 0 n).1 in
    let (p1, p2, made, s) =
      make_partition_lem k n l odd pos (find_leader-lt rafts 0 n n (omega arith) (omega arith)) in
    let apart : (i : ℕ) → member i p1 ≡ true → member i p2 ≡ false =
      λ i h. ground (arith, h, s.one_side i (member-lt n i p1 s.servers1 h)) in
    let (net', parted, links) =
      partition_lem started p q row p_lt q_lt at p1 p2 net s.servers1 s.servers2
        (omega (arith, s.majority, odd)) (omega (arith, s.minority, odd)) apart in
    (
      p1,
      p2,
      net',
      rw (made, parted) refl,
      s.majority,
      s.minority,
      s.leader_there,
      links
          ∙ same_side (member p p1) (member q p1) (member p p2) (member q p2) (live (row q) net)
              (s.one_side p p_lt) (s.one_side q q_lt),
    )

-- A test that begins with an odd number of servers, three at least: at first every end is enabled. When
-- it has cut off the first server that says it leads, or server 0, that server is on a side with less than
-- half of the servers, and the end of server p for server q is enabled exactly if both are on one side.
pub one_partition_lem :
    {C : Type 0} (gob : Gob C) (names : ℕ → ℕ → Text) (addresses : ℕ → ℕ) (k n : ℕ)
    (unreliable : Bool) (cfg : KvConfig C) (rafts : ℕ → Raft C) (p q : ℕ) (row : ℕ → Text)
    → n ≡ k + k + 1
    → 0 < k
    → make_config gob names addresses n unreliable ≡ some cfg
    → p < cfg.n
    → q < cfg.n
    → cfg.endnames p ≡ some row
    → (live (row q) cfg.net ≡ true)
      × ((p1 p2 : List ℕ) × (net' : Network) × (isolate_leader rafts cfg.n cfg.endnames cfg.net
            ≡ some ((p1, p2), net'))
          × (length p1 ≡ k + 1)
          × (length p2 ≡ k)
          × (member (find_leader rafts 0 cfg.n).1 p2 ≡ true)
          × (live (row q) net' ≡ (if member p p1 then member q p1 else member q p2)))
one_partition_lem gob names addresses k n unreliable cfg rafts p q row odd pos h p_lt q_lt at =
    let (same_n, started, on) = make_config_lem gob names addresses n unreliable cfg h in
    (
      on p q row p_lt q_lt at,
      isolate_leader_lem rafts k started cfg.net p q row (same_n ∙ odd) pos p_lt q_lt at,
    )
