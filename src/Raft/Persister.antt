-- ===== src/Raft/Persister.antt =====
-- src/raft/persister.go: stable storage for a peer's state and its snapshot. The mutex makes each
-- method atomic, so a method is one function on the record.
use mit6824_distribute_syste.Prelude.{ℕ, List, [], length}

-- `[]byte`
abbrev pub Bytes : Type 0
Bytes = List ℕ

pub record Persister : Type 0 where
  pub raftstate : Bytes
  pub snapshot : Bytes

unfoldable pub make_persister : Persister
make_persister = record { raftstate = []; snapshot = [] }

-- `Copy`: a new Persister with the same contents.
unfoldable pub copy : Persister → Persister
unfolding make_persister
copy ps =
    let np = make_persister in
    let np1 = record np { raftstate = ps.raftstate } in record np1 { snapshot = ps.snapshot }

unfoldable pub save_raft_state : Bytes → Persister → Persister
save_raft_state bytes ps = record ps { raftstate = bytes }

unfoldable pub read_raft_state : Persister → Bytes
read_raft_state ps = ps.raftstate

unfoldable pub raft_state_size : Persister → ℕ
raft_state_size ps = length ps.raftstate

unfoldable pub save_snapshot : Bytes → Persister → Persister
save_snapshot bytes ps = record ps { snapshot = bytes }

unfoldable pub read_snapshot : Persister → Bytes
read_snapshot ps = ps.snapshot
