-- ===== src/Marshal.antt =====
-- repository/keyvalue/marshal/byte_marshaller.go: ByteMarshaller, one module for each database.
pub mod Address
pub mod Block
pub mod Batch
pub mod Text
