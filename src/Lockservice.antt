-- ===== src/Lockservice.antt =====
-- src/lockservice: the lock server and its client.
pub mod Server
pub mod Locking
pub mod Accepting
