-- ===== src/Marshal/Block/RoundTrip.antt =====
-- What is read back from the records of the block database.
use native.Mathlib.Nat.{mul-div_left}
use account_indexer.Common.{
  ℕ, ◌+◌, ◌*◌, ◌-◌, ◌/◌, Bytes, List, [], ◌∷◌, ◌++◌, append_assoc, some, length, map, All,
  length-append, ◌≡◌, refl, ap, ◌∙◌, arith,
}
use account_indexer.Common.Int.{ℤ, pos}
use account_indexer.Common.Outcome.{
  ok, slice-append, index-append, slice-prefix, slice_from-append2, ◌>>=◌,
}
use account_indexer.Go.BigInt.{string}
use account_indexer.Go.BigInt.RoundTrip.{be4, set_bytes-be4, set_string_or-string}
use account_indexer.DateTime.{unmarshall_time_to_int}
use account_indexer.DateTime.Laws.{InRange}
use account_indexer.Geth.{Geth}
use account_indexer.Types.{AddressSequence, BlockIndex}
use account_indexer.Marshal.Address.RoundTrip.{IsAddress, canonical}
use account_indexer.Marshal.Block.{
  read_addresses, marshall_block_key, unmarshall_block_key, marshall_block_value,
  unmarshall_block_value,
}
use account_indexer.Marshal.Block.Layout.{rows, block_layout}

-- The number of a block is read back from the key that its decimal text gives, for every integer.
pub unmarshall_block_key-marshall_block_key :
    (n : ℤ) → unmarshall_block_key (marshall_block_key (string n)) ≡ n
unfolding unmarshall_block_key marshall_block_key
unmarshall_block_key-marshall_block_key n = set_string_or-string n

module _ (g : Geth) where
  -- The address as it is read back.
  abbrev pub read_back : AddressSequence → AddressSequence
  read_back a = record a { address = canonical g a.address }

  length-rows :
      (as' : List AddressSequence)
      → All (λ (a : AddressSequence). IsAddress g a.address) as'
      → length (rows g as') ≡ length as' * (g.address_length + 1)
  length-rows [] _ = omega arith
  length-rows (a ∷ as') (ha, has) = omega (
    arith,
    ha,
    length-append (g.decode a.address).0 (a.sequence ∷ rows g as'),
    length-rows as' has,
  )

  read_addresses-rows :
      (as' : List AddressSequence) (i : ℕ) (pre : Bytes)
      → length pre ≡ i * (g.address_length + 1)
      → All (λ (a : AddressSequence). IsAddress g a.address) as'
      → read_addresses g (length as') i (pre ++ rows g as') ≡ ok (map read_back as')
  unfolding read_addresses
  read_addresses-rows [] i pre h _ = refl
  read_addresses-rows (a ∷ as') i pre h (ha, has) =
      let b = (g.decode a.address).0 in
      let r = rows g as' in
      rw (
        slice-append (i * (g.address_length + 1)) pre b (a.sequence ∷ r)
            {m = (i + 1) * (g.address_length + 1) - 1} h (omega (arith, ha)),
        index-append pre b r a.sequence {n = (i + 1) * (g.address_length + 1) - 1}
            (omega (arith, ha, h)),
        next_row b r,
        read_addresses-rows as' (i + 1) (pre ++ (b ++ (a.sequence ∷ []))) (longer b ha) has,
      )
    where
      next_row :
          (b r : Bytes) → pre ++ (b ++ (a.sequence ∷ r)) ≡ (pre ++ (b ++ (a.sequence ∷ []))) ++ r
      next_row b r = simp append_assoc

      longer :
          (b : Bytes)
          → length b ≡ g.address_length
          → length (pre ++ (b ++ (a.sequence ∷ []))) ≡ (i + 1) * (g.address_length + 1)
      longer b k =
          omega
            (arith, length-append pre (b ++ (a.sequence ∷ [])), length-append b (a.sequence ∷ []))

  count_rows :
      (as' : List AddressSequence) (c t : ℕ)
      → All (λ (a : AddressSequence). IsAddress g a.address) as'
      → (length (be4 c ++ (be4 t ++ rows g as')) - 8) / (g.address_length + 1) ≡ length as'
  count_rows as' c t h =
      ap (λ n. n / (g.address_length + 1)) drop_eight ∙ mul-div_left (length as') (omega arith)
    where
      drop_eight : length (be4 c ++ (be4 t ++ rows g as')) - 8 ≡ length as' * (g.address_length + 1)
      drop_eight = omega (arith, length-rows as' h)

  pub unmarshall_layout :
      (as' : List AddressSequence) (c t : ℕ)
      → All (λ (a : AddressSequence). IsAddress g a.address) as'
      → unmarshall_block_value g (be4 c ++ (be4 t ++ rows g as'))
        ≡ ok (record {
          block_number = [];
          addresses = map read_back as';
          time = some (pos t);
          created_at = some (pos c);
        })
  unfolding unmarshall_block_value unmarshall_time_to_int
  unmarshall_layout as' c t h =
      let r = rows g as' in
      rw (
        slice-prefix (be4 c) (be4 t ++ r) {n = 4} refl,
        slice-append 4 (be4 c) (be4 t) r {m = 8} refl refl,
        slice_from-append2 (be4 c) (be4 t) r {n = 4} {m = 4} refl refl,
        count_rows as' c t h,
        read_addresses-rows as' 0 [] zero_rows h,
        set_bytes-be4 c,
        set_bytes-be4 t,
      )
    where
      zero_rows : 0 ≡ 0 * (g.address_length + 1)
      zero_rows = omega arith

  -- A block record whose two times are in the range of four bytes and whose addresses have the
  -- length of an address is read back from its value, but for the block number, which is in the
  -- key, and the spelling of the addresses, which becomes that of hexutil.Encode.
  pub unmarshall_block_value-marshall_block_value :
      (b : BlockIndex) (c t : ℕ)
      → b.created_at ≡ some (pos c)
      → b.time ≡ some (pos t)
      → InRange c
      → InRange t
      → All (λ (a : AddressSequence). IsAddress g a.address) b.addresses
      → (marshall_block_value g b >>= unmarshall_block_value g)
        ≡ ok (record b { block_number = []; addresses = map read_back b.addresses })
  unmarshall_block_value-marshall_block_value b c t ec et hc ht h =
      rw (block_layout g b c t ec et hc ht h) (rw (ec, et) (unmarshall_layout b.addresses c t h))
