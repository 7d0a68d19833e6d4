-- ===== src/Dao/Leveldb.antt =====
-- leveldb_dao.go: the store over a goleveldb database, which is a parameter of the model.
pub mod Refines
use Prim.Native.Nat.{min}
use mathlib.Core.List.{reverse}
use account_indexer.Common.{
  ℕ, Bytes, Bool, true, false, List, [], ◌∷◌, ◌++◌, map, Option, none, some, ◌⊎◌, inl, inr, ◌≡◌,
  refl, ap, sym, ◌∙◌, if◌then◌else◌, length, take, append_assoc, append-nil, arith,
}
use account_indexer.Common.Int.{ℤ}
use account_indexer.Common.Outcome.{Error}
use account_indexer.Dao.{KeyValue, Range, Iterator, Predicate, KeyValueDao, new_key_value}
use account_indexer.Dao.Order.{filter_range, lookup_key, upsert, without, upsert_all, without_all}
use account_indexer.Dao.Sorted.{InOrder}
use account_indexer.Dao.Iterate
use account_indexer.Dao.Iterate.Pages.{
  page, take_while, find_by_key_prefix-page, count-length, get_n_first_records-take,
  get_n_last_records-take, get_n_first_predicate-take_while, get_all_records-forward,
}
use account_indexer.Dao.Contract.{directed, answer, found, IsKeyValueDao}

-- The entries of a leveldb.Batch.
pub data BatchOp : Type 0 where
  put_op : KeyValue → BatchOp
  delete_op : Bytes → BatchOp

pub record Leveldb : Type 1 where
  pub Db : Type 0
  pub put : Bytes → Bytes → Db → Option Error × Db
  pub delete : Bytes → Db → Option Error × Db
  pub write : List BatchOp → Db → Option Error × Db
  pub get : Bytes → Db → Error ⊎ Bytes
  -- NewIterator: a nil range is the whole database.
  pub new_iterator : Option Range → Db → Iterator
  -- util.BytesPrefix
  pub bytes_prefix : Bytes → Range

abbrev pub batch_of : List KeyValue → List BatchOp
batch_of = map put_op

abbrev pub deletes_of : List Bytes → List BatchOp
deletes_of = map delete_op

module _ (L : Leveldb) where
  -- FindByKey
  find_by_key : Bytes → L.Db → Error ⊎ KeyValue
  find_by_key key db = elim (L.get key db) [
    | inl e ↦ inl e
    | inr value ↦ inr (new_key_value key value)
  ]

  unfoldable pub leveldb_dao : KeyValueDao
  unfolding find_by_key
  leveldb_dao = record {
    Db = L.Db;
    put = λ record' db. L.put record'.key record'.value db;
    batch_put = λ records db. L.write (batch_of records) db;
    batch_delete = λ keys db. L.write (deletes_of keys) db;
    delete_by_key = λ key db. L.delete key db;
    find_by_key_prefix = λ prefix asc rows start db.
        Iterate.find_by_key_prefix (L.new_iterator (some (L.bytes_prefix prefix)) db) asc rows
          start;
    count_by_key_prefix =
        λ prefix db. Iterate.count (L.new_iterator (some (L.bytes_prefix prefix)) db);
    find_by_range = λ rg asc rows start db.
        Iterate.find_by_key_prefix (L.new_iterator (some rg) db) asc rows start;
    count_by_range = λ rg db. Iterate.count (L.new_iterator (some rg) db);
    find_by_key = find_by_key;
    get_n_first_records = λ n db. Iterate.get_n_first_records (L.new_iterator none db) n;
    get_n_last_records = λ n db. Iterate.get_n_last_records (L.new_iterator none db) n;
    get_n_first_predicate = λ prep db. Iterate.get_n_first_predicate (L.new_iterator none db) prep;
    get_all_records = λ db. Iterate.get_all_records (L.new_iterator none db);
  }

-- A batch applied entry by entry.
abbrev pub apply_batch : List BatchOp → List KeyValue → List KeyValue
apply_batch [] m = m
apply_batch (put_op kv ∷ ops) m = apply_batch ops (upsert kv m)
apply_batch (delete_op k ∷ ops) m = apply_batch ops (without k m)

-- Documented behaviour: a database holds records in the order of their keys; Put, Delete and a
-- written batch change them if they return no error; Get returns a value or ErrNotFound; an
-- iterator goes through the records of its range, in either direction.
pub record IsLeveldb (L : Leveldb) : Type 0 where
  pub contents : L.Db → List KeyValue
  pub not_found : Error
  pub order_law : (db : L.Db) → InOrder (contents db)
  pub put_law :
      (k v : Bytes) (db : L.Db)
      → (L.put k v db).0 ≡ none
      → contents (L.put k v db).1 ≡ upsert (new_key_value k v) (contents db)
  pub delete_law :
      (k : Bytes) (db : L.Db)
      → (L.delete k db).0 ≡ none
      → contents (L.delete k db).1 ≡ without k (contents db)
  pub write_law :
      (ops : List BatchOp) (db : L.Db)
      → (L.write ops db).0 ≡ none
      → contents (L.write ops db).1 ≡ apply_batch ops (contents db)
  pub get_present :
      (k v : Bytes) (db : L.Db) → lookup_key k (contents db) ≡ some v → L.get k db ≡ inr v
  pub get_absent :
      (k : Bytes) (db : L.Db) → lookup_key k (contents db) ≡ none → L.get k db ≡ inl not_found
  pub iterate_all : (db : L.Db) → (L.new_iterator none db).forward ≡ contents db
  pub iterate_range :
      (rg : Range) (db : L.Db)
      → (L.new_iterator (some rg) db).forward ≡ filter_range rg (contents db)
  pub iterate_back :
      (rg : Option Range) (db : L.Db)
      → (L.new_iterator rg db).backward ≡ reverse (L.new_iterator rg db).forward
