-- ===== src/Dao/Sorted.antt =====
-- The records of a store stand in the order of their keys, each key once.
use account_indexer.Common.{
  Bytes, true, false, List, [], ◌∷◌, bytes_eq, bytes_eq→eq, Bool-cases, inl, inr, All, All-imp, ◌≡◌,
  refl, arith,
}
use account_indexer.Common.Perms.{Pairwise}
use account_indexer.Dao.{KeyValue}
use account_indexer.Dao.Order.{bytes_lt, upsert, without}

abbrev pub Before : KeyValue → KeyValue → Type 0
Before r s = bytes_lt r.key s.key ≡ true

abbrev pub InOrder : List KeyValue → Type 0
InOrder = Pairwise Before

pub bytes_lt_trans :
    (a b c : Bytes) → bytes_lt a b ≡ true → bytes_lt b c ≡ true → bytes_lt a c ≡ true
unfolding bytes_lt
bytes_lt_trans a [] c h k = cc
bytes_lt_trans a (y ∷ b) [] h k = cc
bytes_lt_trans [] (y ∷ b) (z ∷ c) h k = refl
bytes_lt_trans (x ∷ a) (y ∷ b) (z ∷ c) h k = ground (arith, bytes_lt_trans a b c, h, k)

-- Of two keys one is the smaller, or they are the same.
bytes_lt_total : (a b : Bytes) → bytes_eq a b ≡ false → bytes_lt b a ≡ false → bytes_lt a b ≡ true
unfolding bytes_lt bytes_eq
bytes_lt_total [] [] e h = cc
bytes_lt_total [] (y ∷ b) e h = refl
bytes_lt_total (x ∷ a) [] e h = cc
bytes_lt_total (x ∷ a) (y ∷ b) e h = ground (arith, bytes_lt_total a b, e, h)

All-upsert :
    (P : KeyValue → Type 0) (r : KeyValue) (m : List KeyValue) → P r → All P m → All P (upsert r m)
unfolding upsert
All-upsert P r [] p h = (p, tt)
All-upsert P r (kv ∷ m) p (hv, h) = elim (Bool-cases (bytes_eq kv.key r.key)) [
  | inl e ↦ rw (e, upsert) (p, h)
  | inr e ↦ elim (Bool-cases (bytes_lt r.key kv.key)) [
    | inl l ↦ rw (e, upsert) (rw (l, upsert) (p, (hv, h)))
    | inr l ↦ rw (e, upsert) (rw (l, upsert) (hv, All-upsert P r m p h))
  ]
]

All-without :
    (P : KeyValue → Type 0) (k : Bytes) (m : List KeyValue) → All P m → All P (without k m)
unfolding without
All-without P k [] h = h
All-without P k (kv ∷ m) (hv, h) = elim (Bool-cases (bytes_eq kv.key k)) [
  | inl e ↦ rw (e, without) (All-without P k m h)
  | inr e ↦ rw (e, without) (hv, All-without P k m h)
]

pub InOrder-upsert : (r : KeyValue) (m : List KeyValue) → InOrder m → InOrder (upsert r m)
unfolding upsert
InOrder-upsert r [] h = (tt, tt)
InOrder-upsert r (kv ∷ m) (hv, h) = elim (Bool-cases (bytes_eq kv.key r.key)) [
  | inl e ↦ rw (e, upsert) (rw (bytes_eq→eq kv.key r.key e) at hv, h)
  | inr e ↦ elim (Bool-cases (bytes_lt r.key kv.key)) [
    | inl l ↦
        rw (e, upsert)
          (rw (l, upsert)
            (
              (
                l,
                All-imp (Before kv) (Before r) m (λ s b. bytes_lt_trans r.key kv.key s.key l b) hv,
              ),
              (hv, h),
            ))
    | inr l ↦
        rw (e, upsert)
          (rw (l, upsert)
            (All-upsert (Before kv) r m (bytes_lt_total kv.key r.key e l) hv, InOrder-upsert r m h))
  ]
]

pub InOrder-without : (k : Bytes) (m : List KeyValue) → InOrder m → InOrder (without k m)
unfolding without
InOrder-without k [] h = h
InOrder-without k (kv ∷ m) (hv, h) = elim (Bool-cases (bytes_eq kv.key k)) [
  | inl e ↦ rw (e, without) (InOrder-without k m h)
  | inr e ↦ rw (e, without) (All-without (Before kv) k m hv, InOrder-without k m h)
]
