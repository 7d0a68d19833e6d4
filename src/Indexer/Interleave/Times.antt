-- ===== src/Indexer/Interleave/Times.antt =====
-- Blocks with different times have no key of an address record in common.
use account_indexer.Common.{
  ℕ, Bytes, true, false, List, [], ◌∷◌, ◌++◌, none, some, take, drop, take-append, drop-append,
  bytes_eq, bytes_eq→eq, not_true, Bool-cases, ◌==◌, inl, inr, All, All-map, All-imp, All-zip, ◌≡◌,
  ◌≢◌, refl, sym, ap, ◌∙◌, arith,
}
use account_indexer.Common.Int.{pos}
use account_indexer.Go.BigInt.{set_bytes}
use account_indexer.Go.BigInt.RoundTrip.{be4, set_bytes-be4}
use account_indexer.Geth.{Geth}
use account_indexer.Types.{AddressIndex, BlockDetail}
use account_indexer.DateTime.Laws.{InRange}
use account_indexer.Dao.{KeyValue}
use account_indexer.Dao.Order.{last_value}
use account_indexer.Dao.Apart.{Apart}
use account_indexer.Marshal.Address.{marshall_address_key}
use account_indexer.Marshal.Address.RoundTrip.{IsAddress, key_layout}
use account_indexer.Repo.Store.{address_record}
use account_indexer.Indexer.Data.Uses.{index_transactions-times}
use account_indexer.Indexer.Data.Owners.{index_transactions-owners}
use account_indexer.Indexer.Process.Reorg.{IsIndexable, records, start}

module _ (g : Geth) where
  -- The time in a key.
  abbrev pub stamp : Bytes → ℕ
  stamp k = set_bytes (take 4 (drop g.address_length k))

  stamp-key :
      (i : AddressIndex) (t : ℕ)
      → IsAddress g i.address
      → i.time ≡ some (pos t)
      → InRange t
      → stamp (marshall_address_key g i) ≡ t
  unfolding marshall_address_key
  stamp-key i t a e h =
      rw
        (
          e,
          key_layout g i.address t i.sequence h,
          drop-append g.address_length (g.decode i.address).0 (be4 t ++ (i.sequence ∷ [])) a,
          take-append 4 (be4 t) (i.sequence ∷ []) refl,
        )
        (set_bytes-be4 t)

  stamps :
      (b : BlockDetail) (t : ℕ)
      → IsIndexable g b t
      → All (λ (r : KeyValue). stamp r.key ≡ t) (records g b)
  unfolding address_record
  stamps b t h = All-map _ (address_record g) _ (
      All-imp _ _ _ (λ i f. stamp-key i t f.0 (f.1 ∙ ap some h.timed) h.in_range)
        (All-zip _ _ _
          (index_transactions-owners (IsAddress g) b.time b.transactions start h.readable tt)
          (index_transactions-times b.time b.transactions start tt)))

  not_among :
      (k : Bytes) (t : ℕ) (rs : List KeyValue)
      → All (λ (r : KeyValue). stamp r.key ≡ t) rs
      → stamp k ≢ t
      → last_value k rs ≡ none
  unfolding last_value
  not_among k t [] h n = refl
  not_among k t (r ∷ rs) (hr, h) n =
      let differs : bytes_eq r.key k ≡ false =
        not_true _ (λ e. n (ap stamp (sym (bytes_eq→eq r.key k e)) ∙ hr)) in
      rw (not_among k t rs h n, last_value) (rw differs refl)

  -- The keys of a block are those with its time.
  pub stamped :
      (b : BlockDetail) (t : ℕ) (k : Bytes)
      → IsIndexable g b t
      → stamp k ≢ t
      → last_value k (records g b) ≡ none
  stamped b t k h n = not_among k t (records g b) (stamps b t h) n

  same : (k : Bytes) (t t' : ℕ) → (stamp k == t) ≡ true → stamp k ≡ t' → t ≡ t'
  same k t t' e s = ground (arith, e, s)

  pub times-Apart :
      (b b' : BlockDetail) (t t' : ℕ)
      → IsIndexable g b t
      → IsIndexable g b' t'
      → b.time ≢ b'.time
      → Apart (records g b) (records g b')
  times-Apart b b' t t' h h' n k = elim (Bool-cases (stamp k == t)) [
    | inr e ↦ inl (stamped b t k h (λ s. absurd (ground (arith, e, s))))
    | inl e ↦ inr (stamped b' t' k h' (λ s. n (h.timed ∙ ap pos (same k t t' e s) ∙ sym h'.timed)))
  ]
