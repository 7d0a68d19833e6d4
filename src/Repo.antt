-- ===== src/Repo.antt =====
-- repository/keyvalue: the repositories over key-value stores.
pub mod Store
pub mod Query
pub mod Blocks
pub mod Batches
