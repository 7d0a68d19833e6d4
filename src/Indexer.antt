-- ===== src/Indexer.antt =====
-- indexer/indexer.go: the indexer.
pub mod Data
pub mod Process
pub mod Batches
pub mod BatchIndex
pub mod Restart
pub mod Interleave
pub mod Rerun
pub mod Realtime
pub mod Start
