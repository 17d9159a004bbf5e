-- ===== src/Shards.antt =====
-- src/shardmaster and src/shardkv: the clerks of the sharded key/value service.
pub mod Retry
pub mod Master
pub mod Client
pub mod Asking
pub mod Groups
pub mod Served
pub mod PutServed
