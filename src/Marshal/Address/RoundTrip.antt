-- ===== src/Marshal/Address/RoundTrip.antt =====
-- What is read back from the records of the address database.
use account_indexer.Common.{
  ℕ, ◌+◌, Bytes, [], ◌∷◌, ◌++◌, append_assoc, none, some, ◌≡◌, refl, ap, length,
}
use account_indexer.Common.Int.{pos, abs}
use account_indexer.Common.Outcome.{ok, slice-prefix, slice-append, slice_from-append2}
use account_indexer.Go.BigInt.{to_bytes}
use account_indexer.Go.BigInt.RoundTrip.{be4, set_bytes-be4, set_bytes-to_bytes}
use account_indexer.DateTime.Laws.{InRange, marshall_time-be4}
use account_indexer.Geth.{Geth}
use account_indexer.Types.{AddressIndex}
use account_indexer.Marshal.Address.{
  marshall_address_key_str, marshall_address_value, unmarshall_address_key,
  unmarshall_address_value,
}

-- A text that stands for an address.
abbrev pub IsAddress : Geth → Bytes → Type 0
IsAddress g s = length (g.decode s).0 ≡ g.address_length

-- A text that stands for a transaction hash.
abbrev pub IsHash : Geth → Bytes → Type 0
IsHash g s = length (g.decode s).0 ≡ g.hash_length

-- The text that is read back for a stored one.
abbrev pub canonical : Geth → Bytes → Bytes
canonical g s = g.encode (g.decode s).0

module _ (g : Geth) where
  -- A key of an address in the time range is the address, four bytes of the time and the sequence.
  pub key_layout :
      (address : Bytes) (t sequence : ℕ)
      → InRange t
      → marshall_address_key_str g address (some (pos t)) sequence
        ≡ (g.decode address).0 ++ (be4 t ++ (sequence ∷ []))
  unfolding marshall_address_key_str
  key_layout address t sequence h =
      rw (marshall_time-be4 t h) (append_assoc (g.decode address).0 (be4 t) (sequence ∷ []))

  -- Address and time are read back from an address key, for an address of the right length and a
  -- time in the range of four bytes.
  pub unmarshall_address_key-marshall_address_key_str :
      (address : Bytes) (t sequence : ℕ)
      → IsAddress g address
      → InRange t
      → unmarshall_address_key g (marshall_address_key_str g address (some (pos t)) sequence)
        ≡ ok (canonical g address, pos t)
  unfolding unmarshall_address_key
  unmarshall_address_key-marshall_address_key_str address t sequence a h =
      let b = (g.decode address).0 in
      rw (
        key_layout address t sequence h,
        slice-prefix b (be4 t ++ (sequence ∷ [])) a,
        slice-append g.address_length b (be4 t) (sequence ∷ []) a refl,
        set_bytes-be4 t,
      )

  -- Hash and other address are read back from the value of an address record, where they have their
  -- lengths, and of the amount its absolute value: the sign is lost.
  pub unmarshall_address_value-marshall_address_value :
      (idx : AddressIndex)
      → IsHash g idx.tx_hash
      → IsAddress g idx.couple_address
      → unmarshall_address_value g (marshall_address_value g idx)
        ≡ ok (record {
          address_sequence = record { address = []; sequence = 0 };
          tx_hash = canonical g idx.tx_hash;
          value = pos (abs idx.value);
          time = none;
          couple_address = canonical g idx.couple_address;
        })
  unfolding unmarshall_address_value marshall_address_value
  unmarshall_address_value-marshall_address_value idx h a =
      let b = (g.decode idx.tx_hash).0 in
      let c = (g.decode idx.couple_address).0 in
      let v = to_bytes idx.value in
      rw (
        slice-prefix b (c ++ v) h,
        slice-append g.hash_length b c v h (ap (λ n. g.hash_length + n) a),
        slice_from-append2 b c v h a,
        set_bytes-to_bytes idx.value,
      )
