-- ===== src/Tester/Partition.antt =====
-- src/kvraft/config.go (and the copy of it in src/shardmaster/config.go): the tester enables and
-- disables ends in lists of servers, and splits the servers into two sides. `endnames` is that field, a
-- row for each server; `none` is the end of the process, where a nil row is indexed.
use mit6824_distribute_syste.Prelude.{
  ℕ, zero, suc, ◌+◌, ◌-◌, ◌/◌, true, false, Option, none, some, List, [], ◌∷◌, ltb, ◌==◌,
  if◌then◌else◌, length, replicate, write, ◌>>=◌,
}
use mit6824_distribute_syste.Prelude.Text.{Text}
use mit6824_distribute_syste.Labrpc.Network.{Network, enable}

module _ (endnames : ℕ → Option (ℕ → Text)) where
  -- The loops of `connectUnlocked`.
  unfoldable pub enable_out : ℕ → List ℕ → Network → Option Network
  enable_out i [] net = some net
  enable_out i (t ∷ to) net = do row ← endnames i; enable_out i to (enable (row t) true net)

  unfoldable pub enable_in : ℕ → List ℕ → Network → Option Network
  enable_in i [] net = some net
  enable_in i (t ∷ to) net = do row ← endnames t; enable_in i to (enable (row i) true net)

  -- `connectUnlocked`
  unfoldable pub connect_unlocked : ℕ → List ℕ → Network → Option Network
  unfolding enable_out enable_in
  connect_unlocked i to net = do net1 ← enable_out i to net; enable_in i to net1

  -- The loops of `disconnectUnlocked`. The second looks whether row `j` is nil, and takes row `from[j]`.
  unfoldable pub disable_out : ℕ → List ℕ → Network → Network
  disable_out i [] net = net
  disable_out i (t ∷ from) net =
      disable_out i from (elim (endnames i) [ none ↦ net | some row ↦ enable (row t) false net ])

  unfoldable pub disable_in : ℕ → ℕ → List ℕ → Network → Option Network
  disable_in i j [] net = some net
  disable_in i j (t ∷ from) net = do
    net1 ← elim (endnames j) [
      | none ↦ some net
      | some _ ↦ (do row ← endnames t; some (enable (row i) false net))
    ]
    disable_in i (j + 1) from net1

  -- `disconnectUnlocked`
  unfoldable pub disconnect_unlocked : ℕ → List ℕ → Network → Option Network
  unfolding disable_out disable_in
  disconnect_unlocked i from net = disable_in i 0 from (disable_out i from net)

  -- A loop of `partition`, over the servers of one side.
  unfoldable pub split_side : List ℕ → List ℕ → List ℕ → Network → Option Network
  unfolding connect_unlocked disconnect_unlocked
  split_side [] mine other net = some net
  split_side (i ∷ left) mine other net = do
    net1 ← disconnect_unlocked i other net
    net2 ← connect_unlocked i mine net1
    split_side left mine other net2

  -- `partition`
  unfoldable pub partition : List ℕ → List ℕ → Network → Option Network
  unfolding split_side
  partition p1 p2 net = do net1 ← split_side p1 p1 p2 net; split_side p2 p2 p1 net1

-- The loop of `make_partition` over the servers from `i` on, but the leader `l`: a place in `p1` while
-- there is one, then in `p2`.
unfoldable pub place_servers : ℕ → ℕ → ℕ → ℕ → List ℕ → List ℕ → Option (List ℕ × List ℕ)
place_servers l i zero j p1 p2 = some (p1, p2)
place_servers l i (suc left) j p1 p2 =
    let skip = place_servers l (i + 1) left j p1 p2 in
    let first : Option (List ℕ × List ℕ) = elim (write p1 j i) [
      | none ↦ none
      | some p1' ↦ place_servers l (i + 1) left (j + 1) p1' p2
    ] in
    let second : Option (List ℕ × List ℕ) = elim (write p2 (j - length p1) i) [
      | none ↦ none
      | some p2' ↦ place_servers l (i + 1) left (j + 1) p1 p2'
    ] in
    if i == l then skip else if ltb j (length p1) then first else second

-- `make_partition`, given the leader. With less than two servers there is no last place in `p2`.
unfoldable pub make_partition : ℕ → ℕ → Option (List ℕ × List ℕ)
unfolding place_servers
make_partition n l = do
  let p1 = replicate (n / 2 + 1) 0
  let p2 = replicate (n / 2) 0
  (q1, q2) ← place_servers l 0 n 0 p1 p2
  p2' ← elim (length q2) [ zero ↦ none | suc k ↦ write q2 k l ]
  some (q1, p2')
