-- ===== src/Dao.antt =====
-- repository/keyvalue/dao/dao.go: key-value records and the interface of a store of them.
pub mod Order
pub mod Apart
pub mod Sorted
pub mod Iterate
pub mod Contract
pub mod Reads
pub mod Leveldb
pub mod Memdb
use account_indexer.Common.{ℕ, Bytes, Bool, List, Option, ◌⊎◌}
use account_indexer.Common.Int.{ℤ}
use account_indexer.Common.Outcome.{Error, Outcome}

pub record KeyValue : Type 0 where
  pub key : Bytes
  pub value : Bytes

abbrev pub new_key_value : Bytes → Bytes → KeyValue
new_key_value key value = record { key = key; value = value }

-- goleveldb's util.Range: from Start on and below Limit. A nil Limit is no limit.
pub record Range : Type 0 where
  pub start : Bytes
  pub limit : Option Bytes

-- A goleveldb iterator, by what its moves show: Next from the first entry on, and Last followed by
-- Prev.
pub record Iterator : Type 0 where
  pub forward : List KeyValue
  pub backward : List KeyValue

abbrev pub Predicate : Type 0
Predicate = KeyValue → Outcome Bool

-- An operation that changes the store returns it beside its error.
pub record KeyValueDao : Type 1 where
  pub Db : Type 0
  pub put : KeyValue → Db → Option Error × Db
  pub batch_put : List KeyValue → Db → Option Error × Db
  pub batch_delete : List Bytes → Db → Option Error × Db
  pub delete_by_key : Bytes → Db → Option Error × Db
  pub find_by_key_prefix : Bytes → Bool → ℤ → ℤ → Db → ℕ × List KeyValue
  pub count_by_key_prefix : Bytes → Db → ℕ
  pub find_by_range : Range → Bool → ℤ → ℤ → Db → ℕ × List KeyValue
  pub count_by_range : Range → Db → ℕ
  pub find_by_key : Bytes → Db → Error ⊎ KeyValue
  pub get_n_first_records : ℕ → Db → List KeyValue
  pub get_n_last_records : ℕ → Db → List KeyValue
  pub get_n_first_predicate : Predicate → Db → Outcome (List KeyValue)
  pub get_all_records : Db → List KeyValue
