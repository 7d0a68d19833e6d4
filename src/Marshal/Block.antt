-- ===== src/Marshal/Block.antt =====
-- byte_marshaller.go: keys and values of the block database.
pub mod Layout
pub mod RoundTrip
use account_indexer.Common.{
  ℕ, zero, suc, ◌+◌, ◌*◌, ◌-◌, ◌/◌, Bytes, List, [], ◌∷◌, ◌++◌, Option, none, some, replicate,
  length, codes, ltb, if◌then◌else◌, take, drop,
}
use account_indexer.Common.Int.{ℤ}
use account_indexer.Common.Outcome.{
  Outcome, ok, panic, out_of_range, slice, slice_from, index, ◌>>=◌,
}
use account_indexer.Go.BigInt.{set_string_or}
use account_indexer.DateTime.{marshall_time, unmarshall_time_to_int}
use account_indexer.Geth.{Geth}
use account_indexer.Types.{AddressSequence, BlockIndex}
use account_indexer.Marshal.Address.{timestamp_byte_length}

-- make([]byte, n)
abbrev pub zeros : ℕ → Bytes
zeros n = replicate n 0

-- for i, x := range xs { result[offset+i] = x }: a write past the end is a panic.
unfoldable pub write : ℕ → Bytes → Bytes → Outcome Bytes
write offset [] result = ok result
write offset (x ∷ xs) result =
    let rest = write (offset + 1) xs (take offset result ++ (x ∷ drop (offset + 1) result)) in
    if ltb offset (length result) then rest else panic out_of_range

-- The key is the text of the block number.
unfoldable pub marshall_block_key : Bytes → Bytes
marshall_block_key block_number = block_number

unfoldable pub unmarshall_block_key : Bytes → ℤ
unmarshall_block_key key = set_string_or key

module _ (g : Geth) where
  open g use {decode, encode, address_length}

  -- The loop over the addresses; `at` is offset+i*addrSeqLen.
  unfoldable pub write_addresses : ℕ → List AddressSequence → Bytes → Outcome Bytes
  write_addresses at [] result = ok result
  write_addresses at (a ∷ as') result = do
    result ← write at (decode a.address).0 result
    result ← write (at + address_length) (a.sequence ∷ []) result
    write_addresses (at + (address_length + 1)) as' result

  fill : BlockIndex → Option ℤ → Option ℤ → Outcome Bytes
  unfolding write_addresses
  fill block_index created_at time = do
    let addr_seq_len = address_length + 1
    let result = zeros (2 * timestamp_byte_length + length block_index.addresses * addr_seq_len)
    result ← write 0 (marshall_time created_at) result
    result ← write timestamp_byte_length (marshall_time time) result
    write_addresses (2 * timestamp_byte_length) block_index.addresses result

  unfoldable pub marshall_block_value : BlockIndex → Outcome Bytes
  unfolding fill
  marshall_block_value block_index = elim block_index.created_at [
    | none ↦ panic (codes "block data is not correct")
    | some c ↦ elim block_index.time [
      | none ↦ panic (codes "block data is not correct")
      | some t ↦ fill block_index (some c) (some t)
    ]
  ]

  -- The loop over numAddress records, from record `i` on.
  unfoldable pub read_addresses : ℕ → ℕ → Bytes → Outcome (List AddressSequence)
  read_addresses zero i addr_value = ok []
  read_addresses (suc n) i addr_value = do
    let address_seq_len = address_length + 1
    address ← slice (i * address_seq_len) ((i + 1) * address_seq_len - 1) addr_value
    sequence ← index ((i + 1) * address_seq_len - 1) addr_value
    rest ← read_addresses n (i + 1) addr_value
    ok (record { address = encode address; sequence = sequence } ∷ rest)

  unfoldable pub unmarshall_block_value : Bytes → Outcome BlockIndex
  unfolding read_addresses
  unmarshall_block_value value = do
    created_at ← slice 0 timestamp_byte_length value
    block_time ← slice timestamp_byte_length (2 * timestamp_byte_length) value
    let num_address = (length value - 2 * timestamp_byte_length) / (address_length + 1)
    addr_value ← slice_from (2 * timestamp_byte_length) value
    addresses ← read_addresses num_address 0 addr_value
    ok (record {
      block_number = [];
      addresses = addresses;
      time = some (unmarshall_time_to_int block_time);
      created_at = some (unmarshall_time_to_int created_at);
    })
