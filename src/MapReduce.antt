-- ===== src/MapReduce.antt =====
-- The MapReduce library of lab 1 (src/mapreduce).
pub mod Common
pub mod Files
pub mod Map
pub mod Partition
pub mod Reduce
pub mod Grouping
pub mod Reducing
pub mod Merge
pub mod Sequential
pub mod Merging
pub mod Phases
pub mod WholeJob
pub mod Schedule
pub mod Scheduling
pub mod Held
pub mod Worker
pub mod Serving
pub mod Quota
pub mod Distributed
pub mod TasksDone
pub mod DistributedJob
pub mod Ordered
