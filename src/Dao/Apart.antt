-- ===== src/Dao/Apart.antt =====
-- What records leave under each key: those with no key in common in either order, and those that are
-- written twice.
use account_indexer.Common.{Bytes, Option, List, none, some, ◌⊎◌, inl, inr, ◌≡◌, refl, sym, ap, ◌∙◌}
use account_indexer.Dao.{KeyValue}
use account_indexer.Dao.Order.{lookup_key, upsert_all, last_value, or_else, lookup_key-upsert_all}

-- Two stores with the same value under every key.
abbrev pub Same : List KeyValue → List KeyValue → Type 0
Same m m' = (k : Bytes) → lookup_key k m ≡ lookup_key k m'

-- No key stands in both.
abbrev pub Apart : List KeyValue → List KeyValue → Type 0
Apart rs rs' = (k : Bytes) → (last_value k rs ≡ none) ⊎ (last_value k rs' ≡ none)

pub upsert_all-Same :
    (rs m m' : List KeyValue) → Same m m' → Same (upsert_all rs m) (upsert_all rs m')
upsert_all-Same rs m m' h k =
    lookup_key-upsert_all k rs m
    ∙ ap (or_else (last_value k rs)) (h k)
    ∙ sym (lookup_key-upsert_all k rs m')

pub upsert_all-Apart :
    (rs rs' m : List KeyValue)
    → Apart rs rs'
    → Same (upsert_all rs' (upsert_all rs m)) (upsert_all rs (upsert_all rs' m))
upsert_all-Apart rs rs' m h k =
    rw
      (
        lookup_key-upsert_all k rs' (upsert_all rs m),
        lookup_key-upsert_all k rs m,
        lookup_key-upsert_all k rs (upsert_all rs' m),
        lookup_key-upsert_all k rs' m,
      )
      (elim (h k) [ inl e ↦ rw e refl | inr e ↦ rw e refl ])

pub upsert_all_twice :
    (rs m : List KeyValue) → Same (upsert_all rs (upsert_all rs m)) (upsert_all rs m)
upsert_all_twice rs m k =
    rw (lookup_key-upsert_all k rs (upsert_all rs m), lookup_key-upsert_all k rs m)
      (last_wins (last_value k rs) (lookup_key k m))
  where
    last_wins : (v x : Option Bytes) → or_else v (or_else v x) ≡ or_else v x
    last_wins none x = refl
    last_wins (some v) x = refl
