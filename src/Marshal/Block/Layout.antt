-- ===== src/Marshal/Block/Layout.antt =====
-- The bytes of a block record: two times, then an address and a sequence for each address.
use native.Mathlib.Nat.{zero-add, suc-add, zero-mul}
use account_indexer.Common.{
  ℕ, zero, suc, ◌+◌, ◌*◌, Bytes, List, [], ◌∷◌, ◌++◌, append_assoc, some, replicate, length, drop,
  All, length-append, take-append, drop-append, length-replicate, ◌≡◌, refl, sym, ap, ◌∙◌, arith,
}
use account_indexer.Common.Int.{pos}
use account_indexer.Common.Outcome.{ok}
use account_indexer.Go.BigInt.RoundTrip.{be4}
use account_indexer.DateTime.Laws.{InRange, marshall_time-be4}
use account_indexer.Geth.{Geth}
use account_indexer.Types.{AddressSequence, BlockIndex}
use account_indexer.Marshal.Address.RoundTrip.{IsAddress}
use account_indexer.Marshal.Block.{zeros, write, write_addresses, fill, marshall_block_value}

length-snoc : (xs : Bytes) (x : ℕ) → length (xs ++ (x ∷ [])) ≡ length xs + 1
length-snoc xs x = omega (arith, length-append xs (x ∷ []))

-- A write replaces as many bytes as it has, and leaves the others.
pub write-append :
    (offset : ℕ) (pre xs old post : Bytes)
    → length pre ≡ offset
    → length old ≡ length xs
    → write offset xs (pre ++ (old ++ post)) ≡ ok (pre ++ (xs ++ post))
unfolding write
write-append offset pre [] [] post h k = refl
write-append offset pre [] (o ∷ old) post h k = absurd (omega arith)
write-append offset pre (x ∷ xs) [] post h k = absurd (omega arith)
write-append offset pre (x ∷ xs) (o ∷ old) post h k = ground (
  arith,
  take-append offset pre (o ∷ (old ++ post)) h,
  drop_past,
  length-append pre (o ∷ (old ++ post)),
  append_assoc pre (x ∷ []) (old ++ post),
  append_assoc pre (x ∷ []) (xs ++ post),
  write-append (offset + 1) (pre ++ (x ∷ [])) xs old post (omega (arith, length-snoc pre x))
      (omega arith),
)
  where
    drop_past : drop (offset + 1) (pre ++ (o ∷ (old ++ post))) ≡ old ++ post
    drop_past = rw (← append_assoc pre (o ∷ []) (old ++ post)) (
        drop-append (offset + 1) (pre ++ (o ∷ [])) (old ++ post) (omega (arith, length-snoc pre o)))

replicate-add : (n m x : ℕ) → replicate (n + m) x ≡ replicate n x ++ replicate m x
replicate-add zero m x = rw zero-add
replicate-add (suc n) m x = rw suc-add (ap (◌∷◌ x) (replicate-add n m x))

module _ (g : Geth) where
  abbrev pub rows : List AddressSequence → Bytes
  rows [] = []
  rows (a ∷ as') = (g.decode a.address).0 ++ (a.sequence ∷ rows as')

  room_for_row :
      (n : ℕ)
      → zeros (suc n * (g.address_length + 1))
        ≡ zeros g.address_length ++ (0 ∷ zeros (n * (g.address_length + 1)))
  room_for_row n =
      let e : suc n * (g.address_length + 1) ≡ g.address_length + suc (n * (g.address_length + 1)) =
        omega arith in
      rw e (replicate-add g.address_length (suc (n * (g.address_length + 1))) 0)

  write_row :
      (at : ℕ) (pre b z : Bytes) (s : ℕ)
      → length pre ≡ at
      → length b ≡ g.address_length
      → (write at b (pre ++ (zeros g.address_length ++ (0 ∷ z))) ≡ ok (pre ++ (b ++ (0 ∷ z))))
        × (write (at + g.address_length) (s ∷ []) (pre ++ (b ++ (0 ∷ z)))
            ≡ ok (pre ++ (b ++ (s ∷ z))))
  write_row at pre b z s h k = (
    write-append at pre b (zeros g.address_length) (0 ∷ z) h
        (length-replicate g.address_length 0 ∙ sym k),
    rw (← append_assoc pre b (0 ∷ z), ← append_assoc pre b (s ∷ z))
        (write-append (at + g.address_length) (pre ++ b) (s ∷ []) (0 ∷ []) z
          (omega (arith, length-append pre b)) refl),
  )

  write_addresses-rows :
      (at : ℕ) (pre : Bytes) (as' : List AddressSequence)
      → length pre ≡ at
      → All (λ (a : AddressSequence). IsAddress g a.address) as'
      → write_addresses g at as' (pre ++ zeros (length as' * (g.address_length + 1)))
        ≡ ok (pre ++ rows as')
  unfolding write_addresses
  write_addresses-rows at pre [] h _ = rw zero-mul
  write_addresses-rows at pre (a ∷ as') h (ha, has) =
      let b = (g.decode a.address).0 in
      let z = zeros (length as' * (g.address_length + 1)) in
      let (first, second) = write_row at pre b z a.sequence h ha in
      rw (room_for_row (length as'), first, second)
        (regroup b z
          ∙ (write_addresses-rows (at + (g.address_length + 1)) (pre ++ (b ++ (a.sequence ∷ [])))
              as'
              (omega (arith, length-append pre (b ++ (a.sequence ∷ [])), length-snoc b a.sequence))
              has)
          ∙ ap ok (regroup_bytes b (rows as')))
    where
      regroup_bytes :
          (b z : Bytes) → (pre ++ (b ++ (a.sequence ∷ []))) ++ z ≡ pre ++ (b ++ (a.sequence ∷ z))
      regroup_bytes b z = simp append_assoc

      regroup :
          (b z : Bytes)
          → write_addresses g (at + (g.address_length + 1)) as' (pre ++ (b ++ (a.sequence ∷ z)))
            ≡ write_addresses g
                (at + (g.address_length + 1))
                as'
                ((pre ++ (b ++ (a.sequence ∷ []))) ++ z)
      regroup b z =
          ap (write_addresses g (at + (g.address_length + 1)) as') (sym (regroup_bytes b z))

  fill_layout :
      (b : BlockIndex) (c t : ℕ)
      → InRange c
      → InRange t
      → All (λ (a : AddressSequence). IsAddress g a.address) b.addresses
      → fill g b (some (pos c)) (some (pos t)) ≡ ok (be4 c ++ (be4 t ++ rows b.addresses))
  unfolding fill
  fill_layout b c t hc ht h =
      let z = zeros (length b.addresses * (g.address_length + 1)) in
      rw
        (
          replicate-add (2 * 4) (length b.addresses * (g.address_length + 1)) 0,
          marshall_time-be4 c hc,
          marshall_time-be4 t ht,
          write-append 0 [] (be4 c) (zeros 4) (zeros 4 ++ z) refl refl,
          write-append 4 (be4 c) (be4 t) (zeros 4) z refl refl,
        )
        (write_addresses-rows 8 (be4 c ++ be4 t) b.addresses refl h)

  -- The record of a block whose times are in range and whose addresses can be read.
  pub block_layout :
      (b : BlockIndex) (c t : ℕ)
      → b.created_at ≡ some (pos c)
      → b.time ≡ some (pos t)
      → InRange c
      → InRange t
      → All (λ (a : AddressSequence). IsAddress g a.address) b.addresses
      → marshall_block_value g b ≡ ok (be4 c ++ (be4 t ++ rows b.addresses))
  unfolding marshall_block_value
  block_layout b c t ec et hc ht h =
      rw (ec, marshall_block_value) (rw et (fill_layout b c t hc ht h))
