-- ===== src/Dao/Contract.antt =====
-- What a store promises to the repositories: it holds records in the order of their keys, an
-- operation that succeeds changes them as it says, and a search reads them.
use Prim.Native.Nat.{min}
use mathlib.Core.List.{reverse}
use account_indexer.Common.{
  ℕ, Bytes, Bool, List, Option, none, some, ◌⊎◌, inl, inr, ◌≡◌, if◌then◌else◌, length, take,
}
use account_indexer.Common.Int.{ℤ}
use account_indexer.Common.Outcome.{Error}
use account_indexer.Dao.{KeyValue, Range, Predicate, KeyValueDao, new_key_value}
use account_indexer.Dao.Order.{filter_range, lookup_key, upsert, without, upsert_all, without_all}
use account_indexer.Dao.Sorted.{InOrder}
use account_indexer.Dao.Iterate.Pages.{page, take_while, at_least_one}

abbrev pub directed : Bool → List KeyValue → List KeyValue
directed asc kvs = if asc then kvs else reverse kvs

-- The answer of a search over `kvs`.
abbrev pub answer : List KeyValue → ℤ → ℤ → ℕ × List KeyValue
answer kvs rows start = (min (length kvs) 10001, page rows start kvs)

-- The answer of a read of one key.
abbrev pub found : Error → Bytes → Option Bytes → Error ⊎ KeyValue
found e k none = inl e
found e k (some v) = inr (new_key_value k v)

-- What a store is seen as: the records that it holds, the range of a prefix, and the error of a read
-- that finds no record.
pub record View (d : KeyValueDao) : Type 0 where
  pub contents : d.Db → List KeyValue
  pub prefix_range : Bytes → Range
  pub not_found : Error

pub record IsKeyValueDao (d : KeyValueDao) (v : View d) : Type 0 where
  pub order_lem : (db : d.Db) → InOrder (v.contents db)
  pub put_lem :
      (kv : KeyValue) (db : d.Db)
      → (d.put kv db).0 ≡ none
      → v.contents (d.put kv db).1 ≡ upsert kv (v.contents db)
  pub batch_put_lem :
      (kvs : List KeyValue) (db : d.Db)
      → (d.batch_put kvs db).0 ≡ none
      → v.contents (d.batch_put kvs db).1 ≡ upsert_all kvs (v.contents db)
  pub batch_delete_lem :
      (ks : List Bytes) (db : d.Db)
      → (d.batch_delete ks db).0 ≡ none
      → v.contents (d.batch_delete ks db).1 ≡ without_all ks (v.contents db)
  pub delete_by_key_lem :
      (k : Bytes) (db : d.Db)
      → (d.delete_by_key k db).0 ≡ none
      → v.contents (d.delete_by_key k db).1 ≡ without k (v.contents db)
  pub find_by_key_prefix_lem :
      (p : Bytes) (asc : Bool) (rows start : ℤ) (db : d.Db)
      → d.find_by_key_prefix p asc rows start db
        ≡ answer (directed asc (filter_range (v.prefix_range p) (v.contents db))) rows start
  pub count_by_key_prefix_lem :
      (p : Bytes) (db : d.Db)
      → d.count_by_key_prefix p db ≡ length (filter_range (v.prefix_range p) (v.contents db))
  pub find_by_range_lem :
      (rg : Range) (asc : Bool) (rows start : ℤ) (db : d.Db)
      → d.find_by_range rg asc rows start db
        ≡ answer (directed asc (filter_range rg (v.contents db))) rows start
  pub count_by_range_lem :
      (rg : Range) (db : d.Db) → d.count_by_range rg db ≡ length (filter_range rg (v.contents db))
  pub find_by_key_lem :
      (k : Bytes) (db : d.Db)
      → d.find_by_key k db ≡ found v.not_found k (lookup_key k (v.contents db))
  pub get_n_first_records_lem :
      (n : ℕ) (db : d.Db) → d.get_n_first_records n db ≡ take n (v.contents db)
  pub get_n_last_records_lem :
      (n : ℕ) (db : d.Db)
      → d.get_n_last_records n db ≡ take (at_least_one n) (reverse (v.contents db))
  pub get_n_first_predicate_lem :
      (p : Predicate) (db : d.Db) → d.get_n_first_predicate p db ≡ take_while p (v.contents db)
  pub get_all_records_lem : (db : d.Db) → d.get_all_records db ≡ v.contents db
