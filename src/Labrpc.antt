-- ===== src/Labrpc.antt =====
-- src/labrpc/labrpc.go: the RPC network of the labs.
pub mod Network
pub mod Server
pub mod Process
pub mod Calls
pub mod Killed
pub mod Progress
