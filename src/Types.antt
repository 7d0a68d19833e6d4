-- ===== src/Types.antt =====
-- core/types: the indexed data, the data received from the chain, and the batches.
pub mod Batch
use account_indexer.Common.{ℕ, Bytes, List, Option}
use account_indexer.Common.Int.{ℤ}

-- `Sequence` is a uint8.
pub record AddressSequence : Type 0 where
  pub address : Bytes
  pub sequence : ℕ

-- A *big.Int that the code may leave nil is an `Option ℤ`.
pub record AddressIndex : Type 0 where
  pub address_sequence : AddressSequence
  pub open address_sequence use *
  pub tx_hash : Bytes
  pub value : ℤ
  pub time : Option ℤ
  pub couple_address : Bytes

pub record BlockIndex : Type 0 where
  pub block_number : Bytes
  pub addresses : List AddressSequence
  pub time : Option ℤ
  pub created_at : Option ℤ

pub record TransactionDetail : Type 0 where
  pub from : Bytes
  pub to : Bytes
  pub tx_hash : Bytes
  pub value : ℤ

-- A slice that is nil is `none`. `gas` is a uint64.
pub record TransactionExtra : Type 0 where
  pub data_bytes : Option Bytes
  pub gas : ℕ
  pub gas_price : ℤ

pub record BlockDetail : Type 0 where
  pub block_number : ℤ
  pub time : ℤ
  pub transactions : List TransactionDetail

-- `Step` is a byte.
pub record BatchStatus : Type 0 where
  pub from : Option ℤ
  pub to : Option ℤ
  pub created_at : Option ℤ
  pub step : ℕ
  pub current : Option ℤ
  pub updated_at : Option ℤ
