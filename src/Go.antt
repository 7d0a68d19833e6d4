-- ===== src/Go.antt =====
-- The parts of Go's standard library that the program computes with.
pub mod BigInt
pub mod Strings
