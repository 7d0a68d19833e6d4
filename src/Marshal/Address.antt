-- ===== src/Marshal/Address.antt =====
-- byte_marshaller.go: keys and values of the address database.
pub mod RoundTrip
use account_indexer.Common.{ℕ, ◌+◌, Bytes, [], ◌∷◌, ◌++◌, Option, none, some}
use account_indexer.Common.Int.{ℤ, pos}
use account_indexer.Common.Outcome.{Outcome, ok, slice, slice_from, ◌>>=◌}
use account_indexer.Go.BigInt.{to_bytes, set_bytes}
use account_indexer.DateTime.{Time, marshall_time, marshall_time2}
use account_indexer.Geth.{Geth}
use account_indexer.Types.{AddressIndex}

abbrev pub timestamp_byte_length : ℕ
timestamp_byte_length = 4

module _ (g : Geth) where
  open g use {decode, encode, address_length, hash_length}

  -- The address, which is the key's prefix. The error of Decode is dropped.
  unfoldable pub marshall_address_key_prefix : Bytes → Bytes
  marshall_address_key_prefix address = (decode address).0

  unfoldable pub marshall_address_key_prefix2 : Bytes → Option ℤ → Bytes
  marshall_address_key_prefix2 address tm = (decode address).0 ++ marshall_time tm

  unfoldable pub marshall_address_key_prefix3 : Bytes → Time → Bytes
  marshall_address_key_prefix3 address tm = (decode address).0 ++ marshall_time2 tm

  unfoldable pub marshall_address_key_str : Bytes → Option ℤ → ℕ → Bytes
  unfolding marshall_address_key_prefix2
  marshall_address_key_str address time sequence =
      marshall_address_key_prefix2 address time ++ (sequence ∷ [])

  unfoldable pub marshall_address_key : AddressIndex → Bytes
  unfolding marshall_address_key_str
  marshall_address_key index = marshall_address_key_str index.address index.time index.sequence

  unfoldable pub marshall_address_value : AddressIndex → Bytes
  marshall_address_value index =
      (decode index.tx_hash).0 ++ ((decode index.couple_address).0 ++ to_bytes index.value)

  -- LevelDB key to address and time.
  unfoldable pub unmarshall_address_key : Bytes → Outcome (Bytes × ℤ)
  unmarshall_address_key key = do
    address ← slice 0 address_length key
    block_time ← slice address_length (address_length + timestamp_byte_length) key
    ok (encode address, pos (set_bytes block_time))

  -- The fields that the value does not hold keep their zero values.
  unfoldable pub unmarshall_address_value : Bytes → Outcome AddressIndex
  unmarshall_address_value value = do
    tx_hash ← slice 0 hash_length value
    address ← slice hash_length (hash_length + address_length) value
    tx_value ← slice_from (hash_length + address_length) value
    ok (record {
      address_sequence = record { address = []; sequence = 0 };
      tx_hash = encode tx_hash;
      value = pos (set_bytes tx_value);
      time = none;
      couple_address = encode address;
    })
