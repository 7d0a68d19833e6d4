-- ===== src/Repo/Query/Read.antt =====
-- What is read of the records that a search finds.
use account_indexer.Common.{
  ℕ, ◌<◌, Bytes, Bool, ◌&&◌, List, [], ◌∷◌, map, Option, none, some, bytes_eq, All, ◌≡◌, refl,
}
use account_indexer.Common.Int.{ℤ, pos, abs}
use account_indexer.Common.Sublists.{filter}
use account_indexer.Common.Outcome.{ok, traverse}
use account_indexer.Geth.{Geth}
use account_indexer.Types.{AddressIndex}
use account_indexer.DateTime.Laws.{InRange}
use account_indexer.Marshal.Address.{marshall_address_key}
use account_indexer.Marshal.Address.RoundTrip.{
  IsAddress, IsHash, canonical, unmarshall_address_key-marshall_address_key_str,
  unmarshall_address_value-marshall_address_value,
}
use account_indexer.Repo.Store.{address_record}
use account_indexer.Repo.Query.{key_value_to_address_index}
use account_indexer.Repo.Query.Within.{within}

module _ (g : Geth) where
  -- A record of the address database that can be read: its addresses and its hash have their
  -- lengths, its time has four bytes and its sequence one.
  pub record IsStored (i : AddressIndex) : Type 0 where
    pub seconds : ℕ
    pub timed : i.time ≡ some (pos seconds)
    pub in_range_time : InRange seconds
    pub own : IsAddress g i.address
    pub couple : IsAddress g i.couple_address
    pub hash : IsHash g i.tx_hash
    pub byte : i.sequence < 256

  -- What is read of it.
  abbrev pub read_index : AddressIndex → AddressIndex
  read_index i = record {
    address_sequence = record { address = canonical g i.address; sequence = 0 };
    tx_hash = canonical g i.tx_hash;
    value = pos (abs i.value);
    time = i.time;
    couple_address = canonical g i.couple_address;
  }

  abbrev pub seconds_of : Option ℤ → ℕ
  seconds_of none = 0
  seconds_of (some t) = abs t

  -- A record of the address with its time between the bounds.
  abbrev pub is_hit : Bytes → Option ℕ → Option ℕ → AddressIndex → Bool
  is_hit a f u i = bytes_eq (g.decode i.address).0 (g.decode a).0 && within f u (seconds_of i.time)

  abbrev pub hits : Bytes → Option ℕ → Option ℕ → List AddressIndex → List AddressIndex
  hits a f u = filter (is_hit a f u)

  pub key_value_read :
      (i : AddressIndex)
      → IsStored i
      → key_value_to_address_index g (address_record g i) ≡ ok (read_index i)
  unfolding key_value_to_address_index address_record marshall_address_key
  key_value_read i h =
      rw
        (
          unmarshall_address_value-marshall_address_value g i h.hash h.couple,
          h.timed,
          unmarshall_address_key-marshall_address_key_str g i.address h.seconds i.sequence h.own
              h.in_range_time,
        )
        refl

  pub traverse_read :
      (xs : List AddressIndex)
      → All IsStored xs
      → traverse (key_value_to_address_index g) (map (address_record g) xs) ≡ ok (map read_index xs)
  unfolding traverse
  traverse_read [] h = refl
  traverse_read (i ∷ xs) (hi, h) = rw (key_value_read i hi, traverse_read xs h) refl
