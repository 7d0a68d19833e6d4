-- ===== src/Dao/Order.antt =====
-- What a store holds: records in the order of their keys, each key once.
use account_indexer.Common.{
  Bytes, Bool, true, false, not, ◌&&◌, ◌||◌, ◌++◌, All, List, [], ◌∷◌, Option, none, some, ltb,
  ◌==◌, if◌then◌else◌, bytes_eq, bytes_eq_iff, ◌≡◌, refl, arith,
}
use account_indexer.Dao.{KeyValue, Range}

-- bytes.Compare(a, b) < 0.
unfoldable pub bytes_lt : Bytes → Bytes → Bool
bytes_lt a [] = false
bytes_lt [] (y ∷ ys) = true
bytes_lt (x ∷ xs) (y ∷ ys) = let rest = bytes_lt xs ys in if x == y then rest else ltb x y

unfoldable pub below : Bytes → Option Bytes → Bool
below k none = true
below k (some l) = bytes_lt k l

unfoldable pub in_range : Range → Bytes → Bool
unfolding below
in_range rg k = not (bytes_lt k rg.start) && below k rg.limit

unfoldable pub filter_range : Range → List KeyValue → List KeyValue
filter_range rg [] = []
filter_range rg (kv ∷ kvs) =
    let rest = filter_range rg kvs in if in_range rg kv.key then kv ∷ rest else rest

unfoldable pub lookup_key : Bytes → List KeyValue → Option Bytes
lookup_key k [] = none
lookup_key k (kv ∷ kvs) =
    let rest = lookup_key k kvs in if bytes_eq kv.key k then some kv.value else rest

-- A record put at its place, over an older one with the key.
unfoldable pub upsert : KeyValue → List KeyValue → List KeyValue
upsert r [] = r ∷ []
upsert r (kv ∷ kvs) =
    let rest = upsert r kvs in
    if bytes_eq kv.key r.key
    then r ∷ kvs
    else if bytes_lt r.key kv.key
    then r ∷ kv ∷ kvs
    else kv ∷ rest

unfoldable pub without : Bytes → List KeyValue → List KeyValue
without k [] = []
without k (kv ∷ kvs) = let rest = without k kvs in if bytes_eq kv.key k then rest else kv ∷ rest

unfoldable pub upsert_all : List KeyValue → List KeyValue → List KeyValue
upsert_all [] m = m
upsert_all (r ∷ rs) m = upsert_all rs (upsert r m)

unfoldable pub without_all : List Bytes → List KeyValue → List KeyValue
without_all [] m = m
without_all (k ∷ ks) m = without_all ks (without k m)

pub lookup_key-upsert :
    (k : Bytes) (r : KeyValue) (m : List KeyValue)
    → lookup_key k (upsert r m) ≡ (if bytes_eq r.key k then some r.value else lookup_key k m)
unfolding lookup_key upsert
lookup_key-upsert k r [] = refl
lookup_key-upsert k r (kv ∷ m) = ground (
  arith,
  lookup_key-upsert k r m,
  bytes_eq_iff r.key k,
  bytes_eq_iff kv.key k,
  bytes_eq_iff kv.key r.key,
)

pub lookup_key-without :
    (k j : Bytes) (m : List KeyValue)
    → lookup_key k (without j m) ≡ (if bytes_eq j k then none else lookup_key k m)
unfolding lookup_key without
lookup_key-without k j [] = ground arith
lookup_key-without k j (kv ∷ m) = ground (
  arith,
  lookup_key-without k j m,
  bytes_eq_iff j k,
  bytes_eq_iff kv.key j,
  bytes_eq_iff kv.key k,
)

unfoldable pub contains : Bytes → List Bytes → Bool
contains k [] = false
contains k (j ∷ ks) = bytes_eq j k || contains k ks

-- The value of the last record with a key.
unfoldable pub last_value : Bytes → List KeyValue → Option Bytes
last_value k [] = none
last_value k (r ∷ rs) = elim (last_value k rs) [
  | some v ↦ some v
  | none ↦ if bytes_eq r.key k then some r.value else none
]

abbrev pub or_else : Option Bytes → Option Bytes → Option Bytes
or_else (some v) o = some v
or_else none o = o

pub lookup_key-upsert_all :
    (k : Bytes) (rs m : List KeyValue)
    → lookup_key k (upsert_all rs m) ≡ or_else (last_value k rs) (lookup_key k m)
unfolding upsert_all last_value
lookup_key-upsert_all k [] m = refl
lookup_key-upsert_all k (r ∷ rs) m =
    ground (arith, lookup_key-upsert_all k rs (upsert r m), lookup_key-upsert k r m)

pub lookup_key-without_all :
    (k : Bytes) (ks : List Bytes) (m : List KeyValue)
    → lookup_key k (without_all ks m) ≡ (if contains k ks then none else lookup_key k m)
unfolding without_all contains
lookup_key-without_all k [] m = refl
lookup_key-without_all k (j ∷ ks) m =
    ground (arith, lookup_key-without_all k ks (without j m), lookup_key-without k j m)

pub contains-append :
    (k : Bytes) (xs ys : List Bytes) → contains k (xs ++ ys) ≡ (contains k xs || contains k ys)
unfolding contains
contains-append k [] ys = refl
contains-append k (x ∷ xs) ys = ground (arith, contains-append k xs ys)

-- Where every record's key is among `ks`, a key that is not among them has no record.
pub last_value_of_keys :
    (k : Bytes) (ks : List Bytes) (rs : List KeyValue)
    → All (λ (r : KeyValue). contains r.key ks ≡ true) rs
    → contains k ks ≡ false
    → last_value k rs ≡ none
unfolding last_value
last_value_of_keys k ks [] h e = refl
last_value_of_keys k ks (r ∷ rs) (hr, h) e =
    ground (arith, last_value_of_keys k ks rs h e, bytes_eq_iff r.key k)
