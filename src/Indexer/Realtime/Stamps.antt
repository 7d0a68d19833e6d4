-- ===== src/Indexer/Realtime/Stamps.antt =====
-- The time in the keys that the record of a block names.
use account_indexer.Common.{
  ℕ, zero, suc, ◌+◌, Bytes, true, List, [], ◌∷◌, ◌++◌, some, bytes_eq, bytes_eq→eq, Bool-cases,
  ◌||◌, inl, inr, All, take-append, drop-append, ◌≡◌, refl, sym, ap, ◌∙◌,
}
use account_indexer.Common.Int.{ℤ, pos}
use account_indexer.Go.BigInt.RoundTrip.{be4, set_bytes-be4}
use account_indexer.Geth.{Geth}
use account_indexer.Types.{AddressSequence, BlockDetail}
use account_indexer.DateTime.Laws.{InRange}
use account_indexer.Dao.Order.{contains, contains-append}
use account_indexer.Marshal.Address.{marshall_address_key_str}
use account_indexer.Marshal.Address.RoundTrip.{IsAddress, key_layout}
use account_indexer.Repo.Store.Keys.{keys_from, keys_of}
use account_indexer.Indexer.Data.{SequenceMap, create_index_data}
use account_indexer.Indexer.Process.Reorg.{
  IsIndexable, named_keys, block_record, readable_addresses,
}
use account_indexer.Indexer.Process.Forgets.{IsOrder}
use account_indexer.Indexer.Interleave.Times.{stamp}

module _ (g : Geth) (t : ℕ) (h : InRange t) where
  stamp_str :
      (address : Bytes) (sequence : ℕ)
      → IsAddress g address
      → stamp g (marshall_address_key_str g address (some (pos t)) sequence) ≡ t
  stamp_str address sequence a =
      rw
        (
          key_layout g address t sequence h,
          drop-append g.address_length (g.decode address).0 (be4 t ++ (sequence ∷ [])) a,
          take-append 4 (be4 t) (sequence ∷ []) refl,
        )
        (set_bytes-be4 t)

  stamp-keys_from :
      (address k : Bytes) (i n : ℕ)
      → IsAddress g address
      → contains k (keys_from g address (some (pos t)) i n) ≡ true
      → stamp g k ≡ t
  unfolding contains
  stamp-keys_from address k i zero a c = cc
  stamp-keys_from address k i (suc n) a c =
      let first = marshall_address_key_str g address (some (pos t)) i in
      elim (Bool-cases (bytes_eq first k)) [
        | inl e ↦ ap (stamp g) (sym (bytes_eq→eq first k e)) ∙ stamp_str address i a
        | inr e ↦ stamp-keys_from address k (i + 1) n a (rw (e, contains) at c)
      ]

  stamp-keys_of :
      (k : Bytes) (as' : List AddressSequence)
      → All (λ (a : AddressSequence). IsAddress g a.address) as'
      → contains k (keys_of g (some (pos t)) as') ≡ true
      → stamp g k ≡ t
  unfolding contains
  stamp-keys_of k [] h' c = cc
  stamp-keys_of k (a ∷ as') (ha, has) c =
      let first = keys_from g a.address (some (pos t)) 1 a.sequence in
      let split = contains-append k first (keys_of g (some (pos t)) as') in
      elim (Bool-cases (contains k first)) [
        | inl e ↦ stamp-keys_from a.address k 1 a.sequence ha e
        | inr e ↦
            stamp-keys_of k as' has
              (sym (ap (λ x. x || contains k (keys_of g (some (pos t)) as')) e) ∙ sym split ∙ c)
      ]

pub stamp-named_keys :
    (g : Geth) (b : BlockDetail) (t : ℕ) (order : SequenceMap → SequenceMap) (k : Bytes)
    → IsIndexable g b t
    → IsOrder order
    → contains k (named_keys g order b) ≡ true
    → stamp g k ≡ t
unfolding create_index_data
stamp-named_keys g b t order k h perm c =
    stamp-keys_of g t h.in_range k _ (readable_addresses g b t 0 order h perm)
      (ap (λ x. contains k (named_at x)) (sym h.timed) ∙ c)
  where
    named_at : ℤ → List Bytes
    named_at x = keys_of g (some x) (block_record g 0 order b).addresses
