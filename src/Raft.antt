-- ===== src/Raft.antt =====
-- The Raft library of labs 2 and 3 (src/raft).
pub mod Persister
pub mod Peer
pub mod Roles
pub mod Vote
pub mod Append
pub mod Leader
pub mod Steps
pub mod Terms
pub mod Cluster
pub mod Tame
pub mod Ballots
pub mod Elections
pub mod Delivery
pub mod Replication
pub mod Descending
pub mod Commit
pub mod Voting
pub mod Durable
pub mod Faults
pub mod CatchUp
