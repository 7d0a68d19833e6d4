-- ===== src/Dao/Leveldb/Refines.antt =====
-- The store over goleveldb keeps the promises of a store.
use account_indexer.Common.{
  Bytes, List, [], ◌∷◌, none, some, Option-cases, inl, inr, ◌≡◌, refl, ◌∙◌,
}
use account_indexer.Dao.{KeyValue}
use account_indexer.Dao.Order.{lookup_key, upsert, without, upsert_all, without_all}
use account_indexer.Dao.Reads.{
  reads_page, reads_count, reads_first, reads_last, reads_while, reads_all,
}
use account_indexer.Dao.Contract.{View, found, IsKeyValueDao}
use account_indexer.Dao.Leveldb.{
  Leveldb, IsLeveldb, leveldb_dao, find_by_key, apply_batch, batch_of, deletes_of,
}

apply_batch-batch_of : (kvs m : List KeyValue) → apply_batch (batch_of kvs) m ≡ upsert_all kvs m
unfolding upsert_all
apply_batch-batch_of [] m = refl
apply_batch-batch_of (kv ∷ kvs) m = apply_batch-batch_of kvs (upsert kv m)

apply_batch-deletes_of :
    (ks : List Bytes) (m : List KeyValue) → apply_batch (deletes_of ks) m ≡ without_all ks m
unfolding without_all
apply_batch-deletes_of [] m = refl
apply_batch-deletes_of (k ∷ ks) m = apply_batch-deletes_of ks (without k m)

module _ (L : Leveldb) (h : IsLeveldb L) where
  find_by_key_found :
      (k : Bytes) (db : L.Db)
      → find_by_key L k db ≡ found h.not_found k (lookup_key k (h.contents db))
  unfolding find_by_key
  find_by_key_found k db = elim (Option-cases (lookup_key k (h.contents db))) [
    | inl e ↦ rw (e, h.get_absent k db e, find_by_key)
    | inr (v, e) ↦ rw (e, h.get_present k v db e, find_by_key)
  ]

  -- The store as its database is seen.
  unfoldable pub view : View (leveldb_dao L)
  unfolding leveldb_dao
  view = record { contents = h.contents; prefix_range = L.bytes_prefix; not_found = h.not_found }

  -- Over any database that behaves as goleveldb documents, every operation of LevelDbDAO does what
  -- the interface KeyValueDAO promises: its records stand in the order of their keys, writes that
  -- succeed change the records held as they say,
  -- searches return the page and the count of the range, and reads of one key, of the first, the
  -- last and all records answer from the records held.
  pub leveldb_dao-IsKeyValueDao : IsKeyValueDao (leveldb_dao L) view
  unfolding leveldb_dao view
  leveldb_dao-IsKeyValueDao = record {
    order_lem = h.order_law;
    put_lem = λ kv db. h.put_law kv.key kv.value db;
    batch_put_lem =
        λ kvs db e. h.write_law (batch_of kvs) db e ∙ apply_batch-batch_of kvs (h.contents db);
    batch_delete_lem =
        λ ks db e. h.write_law (deletes_of ks) db e ∙ apply_batch-deletes_of ks (h.contents db);
    delete_by_key_lem = h.delete_law;
    find_by_key_prefix_lem = λ p asc rows start db.
        let rg = some (L.bytes_prefix p) in
        reads_page (L.new_iterator rg db) _ (h.iterate_range (L.bytes_prefix p) db)
          (h.iterate_back rg db) asc rows start;
    count_by_key_prefix_lem = λ p db.
        let rg = some (L.bytes_prefix p) in
        reads_count (L.new_iterator rg db) _ (h.iterate_range (L.bytes_prefix p) db)
          (h.iterate_back rg db);
    find_by_range_lem = λ rg asc rows start db.
        reads_page (L.new_iterator (some rg) db) _ (h.iterate_range rg db)
          (h.iterate_back (some rg) db) asc rows start;
    count_by_range_lem = λ rg db.
        reads_count (L.new_iterator (some rg) db) _ (h.iterate_range rg db)
          (h.iterate_back (some rg) db);
    find_by_key_lem = find_by_key_found;
    get_n_first_records_lem = λ n db.
        reads_first (L.new_iterator none db) _ (h.iterate_all db) (h.iterate_back none db) n;
    get_n_last_records_lem =
        λ n db. reads_last (L.new_iterator none db) _ (h.iterate_all db) (h.iterate_back none db) n;
    get_n_first_predicate_lem = λ p db.
        reads_while (L.new_iterator none db) _ (h.iterate_all db) (h.iterate_back none db) p;
    get_all_records_lem =
        λ db. reads_all (L.new_iterator none db) _ (h.iterate_all db) (h.iterate_back none db);
  }
