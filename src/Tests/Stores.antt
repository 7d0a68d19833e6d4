-- ===== src/Tests/Stores.antt =====
-- Databases for the tests, in the place of goleveldb's: a list of records in order.
use mathlib.Core.List.{reverse}
use account_indexer.Common.{
  Bytes, List, [], ◌∷◌, Option, none, some, Option-cases, ◌⊎◌, inl, inr, ◌≡◌, arith, codes, leb,
  if◌then◌else◌, refl, ◌+◌,
}
use account_indexer.Common.Outcome.{Error}
use account_indexer.Dao.{KeyValue, Range, Iterator, KeyValueDao, new_key_value}
use account_indexer.Dao.Order.{filter_range, lookup_key, upsert, without}
use account_indexer.Dao.Sorted.{InOrder, InOrder-upsert, InOrder-without}
use account_indexer.Dao.Leveldb.{
  BatchOp, BatchOp.put_op, BatchOp.delete_op, Leveldb, IsLeveldb, apply_batch, leveldb_dao,
}
use account_indexer.Dao.Memdb.{Memdb, IsMemdb}
use account_indexer.Repo.Store.Effect.{NeverFails}

abbrev pub missing : Error
missing = codes "leveldb: not found"

pub record Table : Type 0 where
  pub records : List KeyValue
  pub ordered : InOrder records

abbrev pub empty : Table
empty = record { records = []; ordered = tt }

abbrev pub single : KeyValue → Table
single kv = record { records = kv ∷ []; ordered = (tt, tt) }

abbrev pub upserted : KeyValue → Table → Table
upserted kv db = record {
  records = upsert kv db.records;
  ordered = InOrder-upsert kv db.records db.ordered;
}

abbrev pub removed : Bytes → Table → Table
removed k db = record {
  records = without k db.records;
  ordered = InOrder-without k db.records db.ordered;
}

pub InOrder-apply_batch :
    (ops : List BatchOp) (m : List KeyValue) → InOrder m → InOrder (apply_batch ops m)
InOrder-apply_batch [] m h = h
InOrder-apply_batch (put_op kv ∷ ops) m h =
    InOrder-apply_batch ops (upsert kv m) (InOrder-upsert kv m h)
InOrder-apply_batch (delete_op k ∷ ops) m h =
    InOrder-apply_batch ops (without k m) (InOrder-without k m h)

abbrev pub applied : List BatchOp → Table → Table
applied ops db = record {
  records = apply_batch ops db.records;
  ordered = InOrder-apply_batch ops db.records db.ordered;
}

unfoldable pub get : Bytes → Table → Error ⊎ Bytes
get k db = elim (lookup_key k db.records) [ none ↦ inl missing | some v ↦ inr v ]

abbrev pub entries : Option Range → List KeyValue → List KeyValue
entries none db = db
entries (some rg) db = filter_range rg db

abbrev pub iterator : Option Range → Table → Iterator
iterator rg db = record {
  forward = entries rg db.records;
  backward = reverse (entries rg db.records);
}

-- The texts from a prefix up to the next text of its length.
unfoldable pub successor : Bytes → Option Bytes
successor [] = none
successor (c ∷ cs) =
    let rest = successor cs in
    elim rest [ some l ↦ some (c ∷ l) | none ↦ if leb 255 c then none else some ((c + 1) ∷ []) ]

abbrev pub bytes_prefix : Bytes → Range
bytes_prefix p = record { start = p; limit = successor p }

abbrev pub disk : Leveldb
disk = record {
  Db = Table;
  put = λ k v db. (none, upserted (new_key_value k v) db);
  delete = λ k db. (none, removed k db);
  write = λ ops db. (none, applied ops db);
  get = get;
  new_iterator = iterator;
  bytes_prefix = bytes_prefix;
}

unfoldable pub disk-IsLeveldb : IsLeveldb disk
unfolding get
disk-IsLeveldb = record {
  contents = λ db. db.records;
  order_law = λ db. db.ordered;
  not_found = missing;
  put_law = λ k v db e. refl;
  delete_law = λ k db e. refl;
  write_law = λ ops db e. refl;
  get_present = λ k v db e. rw (e, get) refl;
  get_absent = λ k db e. rw (e, get) refl;
  iterate_all = λ db. refl;
  iterate_range = λ rg db. refl;
  iterate_back = λ rg db. refl;
}

abbrev pub memory_delete : Bytes → Table → Option Error × Table
memory_delete k db = elim (lookup_key k db.records) [
  | none ↦ (some missing, db)
  | some v ↦ (none, removed k db)
]

abbrev pub memory : Memdb
memory = record {
  Db = Table;
  put = λ k v db. (none, upserted (new_key_value k v) db);
  delete = memory_delete;
  get = get;
  new_iterator = iterator;
  bytes_prefix = bytes_prefix;
}

abbrev pub store : KeyValueDao
store = leveldb_dao disk

pub store-NeverFails : NeverFails store
unfolding leveldb_dao
store-NeverFails = record {
  put_ok = λ kv db. refl;
  batch_put_ok = λ kvs db. refl;
  batch_delete_ok = λ ks db. refl;
}

pub memory_deletes :
    (k : Bytes) (db : Table)
    → (memory_delete k db).0 ≡ none
    → (memory_delete k db).1.records ≡ without k db.records
memory_deletes k db h = elim (Option-cases (lookup_key k db.records)) [
  | inl e ↦ ground (arith, e)
  | inr (v, e) ↦ rw (e, memory_delete) refl
]

unfoldable pub memory-IsMemdb : IsMemdb memory
unfolding get
memory-IsMemdb = record {
  contents = λ db. db.records;
  order_law = λ db. db.ordered;
  not_found = missing;
  put_law = λ k v db e. refl;
  delete_law = memory_deletes;
  delete_absent = λ k db e. rw (e, memory_delete) refl;
  get_present = λ k v db e. rw (e, get) refl;
  get_absent = λ k db e. rw (e, get) refl;
  iterate_all = λ db. refl;
  iterate_range = λ rg db. refl;
  iterate_back = λ rg db. refl;
}
