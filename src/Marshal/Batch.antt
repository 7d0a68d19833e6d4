-- ===== src/Marshal/Batch.antt =====
-- byte_marshaller.go: keys and values of the batch status database.
pub mod RoundTrip
use account_indexer.Common.{
  ℕ, ◌+◌, ◌*◌, ◌-◌, Bytes, [], ◌∷◌, ◌++◌, Option, none, some, replicate, length, ltb, if◌then◌else◌,
}
use account_indexer.Common.Int.{ℤ, pos}
use account_indexer.Common.Outcome.{Outcome, ok, deref, slice, slice_from, index, ◌>>=◌}
use account_indexer.Go.BigInt.{string, set_string_or, set_bytes, to_bytes}
use account_indexer.DateTime.{marshall_time, unmarshall_time_to_int, ptr_string}
use account_indexer.Types.{BatchStatus}
use account_indexer.Marshal.Address.{timestamp_byte_length}

abbrev pub block_number_marshall_length : ℕ
block_number_marshall_length = 10

-- Zeros are put before a short number. A number of ten digits or more is not written at all.
unfoldable pub block_number_wid_pad : Bytes → Bytes
block_number_wid_pad block_number =
    if ltb (length block_number) block_number_marshall_length
    then replicate (10 - length block_number) b'0' ++ block_number
    else []

unfoldable pub marshall_batch_value : Option ℤ → Option ℤ → Outcome Bytes
marshall_batch_value updated_at current_block = do
  current ← deref current_block
  ok (marshall_time updated_at ++ to_bytes current)

unfoldable pub unmarshall_batch_value : Bytes → Outcome BatchStatus
unmarshall_batch_value value = do
  timestamp ← slice 0 timestamp_byte_length value
  current_block ← slice_from timestamp_byte_length value
  ok (record {
    from = none;
    to = none;
    created_at = none;
    step = 0;
    current = some (pos (set_bytes current_block));
    updated_at = some (unmarshall_time_to_int timestamp);
  })

unfoldable pub marshall_batch_key : Option ℤ → Option ℤ → ℕ → Option ℤ → Bytes
marshall_batch_key from to step created_at =
    block_number_wid_pad (ptr_string from)
    ++ (block_number_wid_pad (ptr_string to) ++ ((step ∷ []) ++ ptr_string created_at))

unfoldable pub marshall_batch_key_from : Option ℤ → Bytes
marshall_batch_key_from from = block_number_wid_pad (ptr_string from)

unfoldable pub unmarshall_batch_key : Bytes → Outcome BatchStatus
unmarshall_batch_key key = do
  from_str ← slice 0 block_number_marshall_length key
  to_str ← slice block_number_marshall_length (2 * block_number_marshall_length) key
  step ← index (2 * block_number_marshall_length) key
  created_at_str ← slice_from (2 * block_number_marshall_length + 1) key
  ok (record {
    from = some (set_string_or from_str);
    to = some (set_string_or to_str);
    created_at = some (set_string_or created_at_str);
    step = step;
    current = none;
    updated_at = none;
  })
