-- ===== src/Http/Types.antt =====
-- http/types/response.go: what the server answers with.
use account_indexer.Common.{ℕ, Bytes, List, Option, none}
use account_indexer.Common.Int.{ℤ}
use account_indexer.Common.Outcome.{Outcome, ok, deref, ◌>>=◌}
use account_indexer.Types.{AddressIndex, BlockIndex}
use account_indexer.DateTime.{Time, unmarshall_int_to_time}
use account_indexer.DateTime.Format.{format_rfc3339}

pub record EiTotalTransaction : Type 0 where
  pub total : ℕ

-- A slice or a *big.Int that is nil is `none`.
pub record EiAddress : Type 0 where
  pub address : Bytes
  pub tx_hash : Bytes
  pub value : ℤ
  pub time : Bytes
  pub couple_address : Bytes
  pub data_bytes : Option Bytes
  pub gas : ℕ
  pub gas_price : Option ℤ

pub record EiTransactionsByAccount : Type 0 where
  pub total : Bytes
  pub start : ℤ
  pub indexes : List EiAddress

pub record EiBlocks : Type 0 where
  pub total : ℕ
  pub start : ℤ
  pub indexes : List BlockIndex

pub record EiBatchStatus : Type 0 where
  pub from : Option ℤ
  pub to : Option ℤ
  pub step : ℕ
  pub current : Bytes
  pub created_at : Time
  pub updated_at : Time

-- `local` are the offsets of the local zone.
unfoldable pub address_to_ei_address : (ℤ → ℤ) → AddressIndex → Outcome EiAddress
address_to_ei_address local address_index = do
  time ← deref address_index.time
  ok (record {
    address = address_index.address;
    tx_hash = address_index.tx_hash;
    value = address_index.value;
    time = format_rfc3339 local (unmarshall_int_to_time time);
    couple_address = address_index.couple_address;
    data_bytes = none;
    gas = 0;
    gas_price = none;
  })
