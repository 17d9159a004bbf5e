-- ===== src/Scenarios.antt =====
-- Tests, and each theorem at an input that meets its hypotheses.
mod Codec
mod Elections
mod Json
mod Jobs
mod Labrpc
mod Lockservice
mod MapReduce
mod Worker
mod Raft
mod Shards
mod Distributed
mod Tester
mod Partition
