-- ===== src/Tester.antt =====
-- The testers of the labs (config.go of src/raft and of src/kvraft).
pub mod Leaders
pub mod OneLeader
pub mod Polls
pub mod Commits
pub mod Agreement
pub mod Applied
pub mod Config
pub mod Enabling
pub mod Ends
pub mod Links
pub mod Restarts
pub mod Reachable
pub mod Partition
pub mod Sides
pub mod Split
pub mod Minority
pub mod Waiting
pub mod Agreeing
pub mod Isolate
pub mod KvConfig
pub mod KvStart
pub mod Rows
