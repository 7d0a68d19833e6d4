-- ===== src/Repo/Store/Keys.antt =====
-- The keys that HandleReorg deletes.
use account_indexer.Common.{
  ℕ, zero, suc, ◌+◌, ◌≤◌, ◌<◌, Bytes, List, [], ◌∷◌, ◌++◌, Option, none, some, All, ◌≡◌, refl,
  arith,
}
use account_indexer.Common.Int.{ℤ, uint8}
use account_indexer.Geth.{Geth}
use account_indexer.Types.{AddressSequence}
use account_indexer.Marshal.Address.{marshall_address_key_str}
use account_indexer.Repo.Store.{sequence_keys, reorg_keys}

module _ (g : Geth) (address : Bytes) (t : Option ℤ) where
  -- The keys of `n` sequences from `i` on.
  abbrev pub keys_from : ℕ → ℕ → List Bytes
  keys_from i zero = []
  keys_from i (suc n) = marshall_address_key_str g address t i ∷ keys_from (i + 1) n

  sequence_keys-from :
      (n fuel i sequence : ℕ)
      → i + n ≡ sequence + 1
      → sequence ≤ 254
      → n < fuel
      → sequence_keys g fuel i address t sequence ≡ some (keys_from i n)
  unfolding sequence_keys
  sequence_keys-from n zero i sequence h s f = absurd (omega arith)
  sequence_keys-from zero (suc fuel) i sequence h s f = ground arith
  sequence_keys-from (suc n) (suc fuel) i sequence h s f =
      ground (arith, sequence_keys-from n fuel (i + 1) sequence)

  -- The loop of HandleReorg over the sequences of an address ends, if there are at most 254, with
  -- one key for each from 1 on.
  pub sequence_keys-eq :
      (sequence : ℕ)
      → sequence ≤ 254
      → sequence_keys g 256 1 address t sequence ≡ some (keys_from 1 sequence)
  sequence_keys-eq sequence s =
      sequence_keys-from sequence 256 1 sequence (omega arith) s (omega arith)

  -- At 255 sequences the loop of HandleReorg does not end: its counter, a uint8, wraps round, and
  -- no fuel is enough from any of its values.
  pub sequence_keys_never_ends :
      (fuel i : ℕ) → i < 256 → sequence_keys g fuel i address t 255 ≡ none
  unfolding sequence_keys
  sequence_keys_never_ends zero i h = refl
  sequence_keys_never_ends (suc fuel) i h =
      ground (arith, sequence_keys_never_ends fuel (uint8 (i + 1)))

module _ (g : Geth) (t : Option ℤ) where
  abbrev pub keys_of : List AddressSequence → List Bytes
  keys_of [] = []
  keys_of (a ∷ as') = keys_from g a.address t 1 a.sequence ++ keys_of as'

  pub reorg_keys-keys_of :
      (as' : List AddressSequence)
      → All (λ (a : AddressSequence). a.sequence ≤ 254) as'
      → reorg_keys g t as' ≡ some (keys_of as')
  unfolding reorg_keys
  reorg_keys-keys_of [] _ = refl
  reorg_keys-keys_of (a ∷ as') (ha, has) =
      ground (arith, sequence_keys-eq g a.address t a.sequence ha, reorg_keys-keys_of as' has)
