-- ===== src/Tests.antt =====
-- Concrete databases, texts and blocks, and the theorems at them.
pub mod Hex
pub mod Stores
pub mod Blocks
pub mod Codecs
pub mod Searches
pub mod Records
pub mod Queries
pub mod Batches
pub mod BlockDb
pub mod Paths
pub mod Run
pub mod Chain
pub mod Requests
pub mod Restart
pub mod Settings
pub mod Interleave
pub mod Realtime
