-- ===== src/Dao/Memdb.antt =====
-- memdb_dao.go: the store over goleveldb's in-memory database, which is a parameter of the model.
pub mod Refines
use mathlib.Core.List.{reverse}
use account_indexer.Common.{Bytes, List, [], ◌∷◌, Option, none, some, ◌⊎◌, inl, inr, ◌≡◌}
use account_indexer.Common.Outcome.{Error}
use account_indexer.Dao.{KeyValue, Range, Iterator, KeyValueDao, new_key_value}
use account_indexer.Dao.Order.{filter_range, lookup_key, upsert, without}
use account_indexer.Dao.Sorted.{InOrder}
use account_indexer.Dao.Iterate

pub record Memdb : Type 1 where
  pub Db : Type 0
  pub put : Bytes → Bytes → Db → Option Error × Db
  pub delete : Bytes → Db → Option Error × Db
  pub get : Bytes → Db → Error ⊎ Bytes
  pub new_iterator : Option Range → Db → Iterator
  -- util.BytesPrefix
  pub bytes_prefix : Bytes → Range

module _ (M : Memdb) where
  find_by_key : Bytes → M.Db → Error ⊎ KeyValue
  find_by_key key db = elim (M.get key db) [
    | inl e ↦ inl e
    | inr value ↦ inr (new_key_value key value)
  ]

  -- The loops of BatchPut and BatchDelete stop at the first error.
  unfoldable pub batch_put : List KeyValue → M.Db → Option Error × M.Db
  batch_put [] db = (none, db)
  batch_put (item ∷ records) db =
      let (err, db') = M.put item.key item.value db in
      elim err [ none ↦ batch_put records db' | some e ↦ (some e, db') ]

  unfoldable pub batch_delete : List Bytes → M.Db → Option Error × M.Db
  batch_delete [] db = (none, db)
  batch_delete (key ∷ keys) db =
      let (err, db') = M.delete key db in
      elim err [ none ↦ batch_delete keys db' | some e ↦ (some e, db') ]

  unfoldable pub memdb_dao : KeyValueDao
  unfolding find_by_key
  memdb_dao = record {
    Db = M.Db;
    put = λ record' db. M.put record'.key record'.value db;
    batch_put = batch_put;
    batch_delete = batch_delete;
    delete_by_key = λ key db. M.delete key db;
    find_by_key_prefix = λ prefix asc rows start db.
        Iterate.find_by_key_prefix (M.new_iterator (some (M.bytes_prefix prefix)) db) asc rows
          start;
    count_by_key_prefix =
        λ prefix db. Iterate.count (M.new_iterator (some (M.bytes_prefix prefix)) db);
    find_by_range = λ rg asc rows start db.
        Iterate.find_by_key_prefix (M.new_iterator (some rg) db) asc rows start;
    count_by_range = λ rg db. Iterate.count (M.new_iterator (some rg) db);
    find_by_key = find_by_key;
    get_n_first_records = λ n db. Iterate.get_n_first_records (M.new_iterator none db) n;
    get_n_last_records = λ n db. Iterate.get_n_last_records (M.new_iterator none db) n;
    get_n_first_predicate = λ prep db. Iterate.get_n_first_predicate (M.new_iterator none db) prep;
    get_all_records = λ db. Iterate.get_all_records (M.new_iterator none db);
  }

-- Documented behaviour, as for a database on disk. Delete of a missing key is an error here.
pub record IsMemdb (M : Memdb) : Type 0 where
  pub contents : M.Db → List KeyValue
  pub not_found : Error
  pub order_law : (db : M.Db) → InOrder (contents db)
  pub put_law :
      (k v : Bytes) (db : M.Db)
      → (M.put k v db).0 ≡ none
      → contents (M.put k v db).1 ≡ upsert (new_key_value k v) (contents db)
  pub delete_law :
      (k : Bytes) (db : M.Db)
      → (M.delete k db).0 ≡ none
      → contents (M.delete k db).1 ≡ without k (contents db)
  pub delete_absent :
      (k : Bytes) (db : M.Db)
      → lookup_key k (contents db) ≡ none
      → M.delete k db ≡ (some not_found, db)
  pub get_present :
      (k v : Bytes) (db : M.Db) → lookup_key k (contents db) ≡ some v → M.get k db ≡ inr v
  pub get_absent :
      (k : Bytes) (db : M.Db) → lookup_key k (contents db) ≡ none → M.get k db ≡ inl not_found
  pub iterate_all : (db : M.Db) → (M.new_iterator none db).forward ≡ contents db
  pub iterate_range :
      (rg : Range) (db : M.Db)
      → (M.new_iterator (some rg) db).forward ≡ filter_range rg (contents db)
  pub iterate_back :
      (rg : Option Range) (db : M.Db)
      → (M.new_iterator rg db).backward ≡ reverse (M.new_iterator rg db).forward
