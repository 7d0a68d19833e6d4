-- ===== src/Repo/Query.antt =====
-- index_repo.go: the searches by address and time.
pub mod Keys
pub mod Within
pub mod Read
pub mod Chronology
pub mod Exact
use account_indexer.Common.{
  ℕ, Bytes, Bool, true, false, not, ◌||◌, List, [], ◌∷◌, length, ◌==◌, if◌then◌else◌, some,
}
use account_indexer.Common.Int.{ℤ, pos, int64, ◌+ℤ◌}
use account_indexer.Common.Outcome.{Outcome, ok, traverse, ◌>>=◌}
use account_indexer.Geth.{Geth}
use account_indexer.Types.{AddressIndex}
use account_indexer.DateTime.{Time, is_zero}
use account_indexer.Dao.{KeyValue, Range, KeyValueDao}
use account_indexer.Marshal.Address.{
  marshall_address_key_prefix, marshall_address_key_prefix3, unmarshall_address_key,
  unmarshall_address_value,
}
use account_indexer.Repo.Store.{IndexRepo}

-- tm.Add(1 * time.Second), whose seconds are an int64 that wraps.
unfoldable pub next_second : Time → Time
next_second tm = record tm { unix = int64 (tm.unix +ℤ pos 1) }

-- `bytes_prefix` is goleveldb's util.BytesPrefix.
module _ (g : Geth) (bytes_prefix : Bytes → Range) where
  -- The range where there is a bound on the time.
  unfoldable pub time_range : Bytes → Time → Time → Range
  time_range address from_time to_time =
      let all_time_range = bytes_prefix (marshall_address_key_prefix g address) in
      let from_prefix = marshall_address_key_prefix3 g address from_time in
      let to_prefix = marshall_address_key_prefix3 g address (next_second to_time) in
      if is_zero from_time
      then record { start = all_time_range.start; limit = some to_prefix }
      else if is_zero to_time
      then record { start = from_prefix; limit = all_time_range.limit }
      else record { start = from_prefix; limit = some to_prefix }

-- The address and the time come from the key, the rest from the value.
unfoldable pub key_value_to_address_index : Geth → KeyValue → Outcome AddressIndex
key_value_to_address_index g key_value = do
  address_index ← unmarshall_address_value g key_value.value
  (address, time) ← unmarshall_address_key g key_value.key
  ok (record address_index {
    address_sequence = record address_index.address_sequence { address = address };
    time = some time;
  })

module _ (g : Geth) (address_dao block_dao : KeyValueDao) (bytes_prefix : Bytes → Range) where
  unfoldable pub get_total_transaction : Bytes → Time → Time → IndexRepo g address_dao block_dao → ℕ
  get_total_transaction address from_time to_time repo =
      let prefix = marshall_address_key_prefix g address in
      let has_from = not (is_zero from_time) in
      let has_to = not (is_zero to_time) in
      if has_from || has_to
      then address_dao.count_by_range (time_range g bytes_prefix address from_time to_time)
          repo.address_db
      else if length prefix == 0
      then 0
      else address_dao.count_by_key_prefix prefix repo.address_db

  unfoldable pub to_indexes : ℕ × List KeyValue → Outcome (ℕ × List AddressIndex)
  to_indexes (total, key_values) = do
    address_indexes ← traverse (key_value_to_address_index g) key_values
    ok (total, address_indexes)

  -- Oldest first where a time is given, newest first otherwise.
  unfoldable pub get_transaction_by_address :
      Bytes
      → ℤ
      → ℤ
      → Time
      → Time
      → IndexRepo g address_dao block_dao
      → Outcome (ℕ × List AddressIndex)
  unfolding to_indexes
  get_transaction_by_address address rows start from_time to_time repo =
      let prefix = marshall_address_key_prefix g address in
      let has_from = not (is_zero from_time) in
      let has_to = not (is_zero to_time) in
      if has_from || has_to
      then to_indexes (
          address_dao.find_by_range (time_range g bytes_prefix address from_time to_time) true rows
            start repo.address_db)
      else if length prefix == 0
      then ok (0, [])
      else to_indexes (address_dao.find_by_key_prefix prefix false rows start repo.address_db)
