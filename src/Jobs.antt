-- ===== src/Jobs.antt =====
-- src/main/wc.go and src/main/ii.go: the map and reduce functions of two jobs.
pub mod Words
pub mod WordCount
pub mod InvertedIndex
pub mod Counting
pub mod Results
pub mod CountJob
