-- ===== src/Indexer/Process/Covers.antt =====
-- The keys that a block's record names are those that its address records were written under.
use mathlib.Core.List.{Memᴰ, Permᴰ}
use account_indexer.Common.{
  ℕ, zero, suc, ◌+◌, ◌≤◌, ◌<◌, Bytes, Bool, true, false, ◌||◌, List, [], ◌∷◌, map, Option, some,
  Option-cases, Bool-cases, ◌==◌, inl, inr, bytes_eq, bytes_eq_iff, bytes_eq_refl, ◌≡◌, refl, arith,
}
use account_indexer.Common.Int.{ℤ}
use account_indexer.Common.Assoc.{lookup}
use account_indexer.Common.Perms.{mem-perm}
use account_indexer.Geth.{Geth, IsHex}
use account_indexer.Types.{AddressSequence}
use account_indexer.Dao.Order.{contains, contains-append}
use account_indexer.Marshal.Address.{marshall_address_key_str}
use account_indexer.Marshal.Address.RoundTrip.{canonical}
use account_indexer.Marshal.Block.RoundTrip.{read_back}
use account_indexer.Repo.Store.Keys.{keys_from, keys_of}
use account_indexer.Indexer.Data.{SequenceMap, at_key, to_sequence}

-- A key of the map stands in it with its count.
mem_of_lookup : (a : Bytes) (n : ℕ) (m : SequenceMap) → lookup a m ≡ some n → Memᴰ (a, n) m
unfolding lookup
mem_of_lookup a n [] e = absurd (cc)
mem_of_lookup a n ((k, v) ∷ m) e = elim (Bool-cases (bytes_eq k a)) [
  | inl h ↦ Memᴰ.head (ground (arith, bytes_eq_iff k a))
  | inr h ↦ Memᴰ.tail (mem_of_lookup a n m (ground arith))
]

or_true : (b c : Bool) → c ≡ true → (b || c) ≡ true
or_true true c h = refl
or_true false c h = h

module _ (g : Geth) (t : Option ℤ) where
  contains-keys_from :
      (a : Bytes) (n i s : ℕ)
      → i ≤ s
      → s < i + n
      → contains (marshall_address_key_str g a t s) (keys_from g a t i n) ≡ true
  unfolding contains
  contains-keys_from a zero i s lo hi = absurd (omega arith)
  contains-keys_from a (suc n) i s lo hi = elim (Bool-cases (i == s)) [
    | inl e ↦ let p : i ≡ s = ground arith in rw p (rw bytes_eq_refl)
    | inr e ↦ or_true _ _ (contains-keys_from a n (i + 1) s (ground arith) (omega arith))
  ]

  contains-keys_of :
      (a : Bytes) (n s : ℕ) (m : SequenceMap)
      → Memᴰ (a, n) m
      → 1 ≤ s
      → s ≤ n
      → contains (marshall_address_key_str g a t s) (keys_of g t (map to_sequence m)) ≡ true
  contains-keys_of a n s m (Memᴰ.head {x = (k, v)} {xs = r} e) lo hi =
      let p : a ≡ k = cc in
      let q : n ≡ v = cc in
      rw
        (contains-append (marshall_address_key_str g a t s) (keys_from g k t 1 v)
          (keys_of g t (map to_sequence r)))
        (rw (← p, ← q) (rw (contains-keys_from a n 1 s lo (omega arith))))
  contains-keys_of a n s m (Memᴰ.tail {x = (k, v)} {xs = r} mem) lo hi =
      rw
        (contains-append (marshall_address_key_str g a t s) (keys_from g k t 1 v)
          (keys_of g t (map to_sequence r)))
        (or_true _ _ (contains-keys_of a n s r mem lo hi))

  module _ (hex : IsHex g) where
    -- The spelling of an address that is read back has the keys of the stored one.
    key-canonical :
        (a : Bytes) (s : ℕ)
        → marshall_address_key_str g (canonical g a) t s ≡ marshall_address_key_str g a t s
    unfolding marshall_address_key_str
    key-canonical a s = rw (hex.decode-encode (g.decode a).0 (hex.decode_bytes a))

    keys_from-canonical :
        (a : Bytes) (i n : ℕ) → keys_from g (canonical g a) t i n ≡ keys_from g a t i n
    keys_from-canonical a i zero = refl
    keys_from-canonical a i (suc n) = rw (key-canonical a i, keys_from-canonical a (i + 1) n)

    pub keys_of-read_back :
        (as' : List AddressSequence) → keys_of g t (map (read_back g) as') ≡ keys_of g t as'
    keys_of-read_back [] = refl
    keys_of-read_back (a ∷ as') =
        rw (keys_from-canonical a.address 1 a.sequence, keys_of-read_back as')

  -- However the runtime goes through the map, a key whose sequence lies between 1 and the count of
  -- its address is among those that the map names.
  pub contains-counted :
      (a : Bytes) (s : ℕ) (m m' : SequenceMap)
      → Permᴰ m' m
      → 1 ≤ s
      → s ≤ at_key a m
      → contains (marshall_address_key_str g a t s) (keys_of g t (map to_sequence m')) ≡ true
  unfolding at_key
  contains-counted a s m m' p lo hi = elim (Option-cases (lookup a m)) [
    | inl e ↦ absurd (ground arith)
    | inr (n, e) ↦ contains-keys_of a n s m' (mem-perm p (mem_of_lookup a n m e)) lo (ground arith)
  ]
