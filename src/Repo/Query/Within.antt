-- ===== src/Repo/Query/Within.antt =====
-- The range of a search holds the keys of the address whose time lies between the bounds.
use account_indexer.Common.{
  ℕ, ◌+◌, ◌<◌, Bytes, Bool, true, false, not, ◌&&◌, [], ◌∷◌, ◌++◌, Option, none, some, length, leb,
  ltb, bytes_eq, All, All-append, if◌then◌else◌, ◌≡◌, sym, refl, ap, ◌∙◌, take, take-append, arith,
}
use account_indexer.Common.Int.{pos, int64, int64_small, ◌+ℤ◌}
use account_indexer.Go.BigInt.RoundTrip.{be4}
use account_indexer.Geth.{Geth, IsHex}
use account_indexer.DateTime.{Time, zero_time, is_zero}
use account_indexer.DateTime.Laws.{InRange, marshall_time2-be4}
use account_indexer.Dao.{Range}
use account_indexer.Dao.Order.{below, in_range}
use account_indexer.Marshal.Address.{
  marshall_address_key_prefix, marshall_address_key_prefix3, marshall_address_key_str,
}
use account_indexer.Marshal.Address.RoundTrip.{IsAddress, key_layout}
use account_indexer.Repo.Query.{next_second, time_range}
use account_indexer.Repo.Query.Keys.{key_above_address, key_bound}

-- Documented behaviour of util.BytesPrefix: the range starts at the prefix and holds the texts that
-- start with it.
pub record IsBytesPrefix (bytes_prefix : Bytes → Range) : Type 0 where
  pub starts : (p : Bytes) → (bytes_prefix p).start ≡ p
  pub covers :
      (p k : Bytes)
      → All (λ x. x < 256) p
      → All (λ x. x < 256) k
      → in_range (bytes_prefix p) k ≡ bytes_eq (take (length p) k) p

-- A bound on the time, which is the zero time where there is none.
abbrev pub bound : Option ℕ → Time
bound none = zero_time
bound (some t) = record { unix = pos t; nsec = 0 }

-- Both ends are inclusive.
abbrev pub within : Option ℕ → Option ℕ → ℕ → Bool
within none none t = true
within none (some u) t = leb t u
within (some f) none t = leb f t
within (some f) (some u) t = leb f t && leb t u

-- Bounds that four bytes hold, with the second after the last.
abbrev pub Bounds : Option ℕ → Option ℕ → Type 0
Bounds none none = Unit
Bounds none (some u) = InRange (u + 1)
Bounds (some f) none = InRange f
Bounds (some f) (some u) = InRange f × InRange (u + 1)

pos_add_one : (t : ℕ) → pos t +ℤ pos 1 ≡ pos (t + 1)
unfolding ◌+ℤ◌
pos_add_one t = ground arith

later_than :
    (e other x : Bool) (t f : ℕ)
    → (not (if e then false else other) && x) ≡ e
    → (not (if e then ltb t f else other) && x) ≡ (e && leb f t)
later_than e other x t f h = ground arith

module _ (g : Geth) (bytes_prefix : Bytes → Range) where
  -- The range that a search goes through.
  abbrev pub search_range : Bytes → Option ℕ → Option ℕ → Range
  search_range a none none = bytes_prefix (marshall_address_key_prefix g a)
  search_range a (some f) none = time_range g bytes_prefix a (bound (some f)) (bound none)
  search_range a none (some u) = time_range g bytes_prefix a (bound none) (bound (some u))
  search_range a (some f) (some u) = time_range g bytes_prefix a (bound (some f)) (bound (some u))

  module _ (hex : IsHex g) (laws : IsBytesPrefix bytes_prefix) where
    key_in_prefix :
        (a a' : Bytes) (t s : ℕ)
        → length (g.decode a').0 ≡ length (g.decode a).0
        → t < 4294967296
        → s < 256
        → in_range (bytes_prefix (g.decode a).0) ((g.decode a').0 ++ (be4 t ++ (s ∷ [])))
          ≡ bytes_eq (g.decode a').0 (g.decode a).0
    key_in_prefix a a' t s same ht hs =
        laws.covers (g.decode a).0 _ (hex.decode_bytes a) (
          All-append _ (g.decode a').0 _ (hex.decode_bytes a')
            (omega (arith, ht), (omega arith, (omega arith, (omega arith, (hs, tt))))))
        ∙ ap (λ p. bytes_eq p (g.decode a).0)
            (take-append (length (g.decode a).0) (g.decode a').0 _ same)

    prefix3 :
        (a : Bytes) (t : ℕ)
        → InRange t
        → marshall_address_key_prefix3 g a (bound (some t)) ≡ (g.decode a).0 ++ be4 t
    unfolding marshall_address_key_prefix3
    prefix3 a t h = rw (marshall_time2-be4 t 0 h) refl

    prefix3_next :
        (a : Bytes) (t : ℕ)
        → InRange (t + 1)
        → marshall_address_key_prefix3 g a (next_second (bound (some t)))
          ≡ (g.decode a).0 ++ be4 (t + 1)
    unfolding next_second ◌+ℤ◌
    prefix3_next a t h =
        ap (λ n. marshall_address_key_prefix3 g a (record { unix = n; nsec = 0 }))
          (ap int64 (pos_add_one t) ∙ int64_small (t + 1) (omega (arith, h.below)))
        ∙ prefix3 a (t + 1) h

    -- A key of an address record lies in the range of a search just if its address has the same
    -- bytes, and its time lies between the bounds, both inclusive. It is assumed that both addresses
    -- have their length, that the sequence is a byte, that the key's time, a lower bound and the
    -- second after an upper bound have four bytes, and that hexutil and util.BytesPrefix are as
    -- documented.
    pub search_range_exact :
        (a a' : Bytes) (f u : Option ℕ) (t s : ℕ)
        → IsAddress g a
        → IsAddress g a'
        → Bounds f u
        → InRange t
        → s < 256
        → in_range (search_range a f u) (marshall_address_key_str g a' (some (pos t)) s)
          ≡ (bytes_eq (g.decode a').0 (g.decode a).0 && within f u t)
    unfolding in_range below time_range is_zero marshall_address_key_prefix
    search_range_exact a a' none none t s ha ha' hb ht hs =
        rw (key_layout g a' t s ht, key_in_prefix a a' t s (ha' ∙ sym ha) ht.below hs)
          (ground arith)
    search_range_exact a a' (some f) none t s ha ha' hb ht hs =
        let same = ha' ∙ sym ha in
        let c = key_in_prefix a a' t s same ht.below hs in
        let c' =
          rw
            (
              laws.starts (g.decode a).0,
              key_above_address (g.decode a).0 (g.decode a').0 same (be4 t ++ (s ∷ [])),
            )
            at c in
        rw
          (
            key_layout g a' t s ht,
            prefix3 a f hb,
            key_bound (g.decode a).0 (g.decode a').0 same t f s ht.below hb.below,
          )
          (later_than _ _ _ t f c')
    search_range_exact a a' none (some u) t s ha ha' hb ht hs =
        let same = ha' ∙ sym ha in
        rw
          (
            key_layout g a' t s ht,
            laws.starts (g.decode a).0,
            prefix3_next a u hb,
            key_above_address (g.decode a).0 (g.decode a').0 same (be4 t ++ (s ∷ [])),
            key_bound (g.decode a).0 (g.decode a').0 same t (u + 1) s ht.below hb.below,
          )
          (ground arith)
    search_range_exact a a' (some f) (some u) t s ha ha' (hf, hu) ht hs =
        let same = ha' ∙ sym ha in
        rw
          (
            key_layout g a' t s ht,
            prefix3 a f hf,
            prefix3_next a u hu,
            key_bound (g.decode a).0 (g.decode a').0 same t f s ht.below hf.below,
            key_bound (g.decode a).0 (g.decode a').0 same t (u + 1) s ht.below hu.below,
          )
          (ground arith)
