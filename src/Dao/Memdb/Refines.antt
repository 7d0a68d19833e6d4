-- ===== src/Dao/Memdb/Refines.antt =====
-- The store over the in-memory database keeps the promises of a store.
use account_indexer.Common.{
  Bytes, List, [], ◌∷◌, none, some, Option-cases, inl, inr, arith, ◌≡◌, refl,
}
use account_indexer.Dao.{KeyValue}
use account_indexer.Dao.Order.{lookup_key, upsert_all, without_all}
use account_indexer.Dao.Reads.{
  reads_page, reads_count, reads_first, reads_last, reads_while, reads_all,
}
use account_indexer.Dao.Contract.{View, found, IsKeyValueDao}
use account_indexer.Dao.Memdb.{Memdb, IsMemdb, memdb_dao, find_by_key, batch_put, batch_delete}

module _ (M : Memdb) (h : IsMemdb M) where
  batch_put_contents :
      (kvs : List KeyValue) (db : M.Db)
      → (batch_put M kvs db).0 ≡ none
      → h.contents (batch_put M kvs db).1 ≡ upsert_all kvs (h.contents db)
  unfolding batch_put upsert_all
  batch_put_contents [] db e = refl
  batch_put_contents (kv ∷ kvs) db e =
      ground
        (arith, h.put_law kv.key kv.value db, batch_put_contents kvs (M.put kv.key kv.value db).1)

  batch_delete_contents :
      (ks : List Bytes) (db : M.Db)
      → (batch_delete M ks db).0 ≡ none
      → h.contents (batch_delete M ks db).1 ≡ without_all ks (h.contents db)
  unfolding batch_delete without_all
  batch_delete_contents [] db e = refl
  batch_delete_contents (k ∷ ks) db e =
      ground (arith, h.delete_law k db, batch_delete_contents ks (M.delete k db).1)

  find_by_key_found :
      (k : Bytes) (db : M.Db)
      → find_by_key M k db ≡ found h.not_found k (lookup_key k (h.contents db))
  unfolding find_by_key
  find_by_key_found k db = elim (Option-cases (lookup_key k (h.contents db))) [
    | inl e ↦ rw (e, h.get_absent k db e, find_by_key)
    | inr (v, e) ↦ rw (e, h.get_present k v db e, find_by_key)
  ]

  -- The store as its database is seen.
  unfoldable pub view : View (memdb_dao M)
  unfolding memdb_dao
  view = record { contents = h.contents; prefix_range = M.bytes_prefix; not_found = h.not_found }

  -- Over any in-memory database that behaves as goleveldb documents, every operation of MemDbDAO
  -- does what the interface KeyValueDAO promises.
  pub memdb_dao-IsKeyValueDao : IsKeyValueDao (memdb_dao M) view
  unfolding memdb_dao view
  memdb_dao-IsKeyValueDao = record {
    order_lem = h.order_law;
    put_lem = λ kv db. h.put_law kv.key kv.value db;
    batch_put_lem = batch_put_contents;
    batch_delete_lem = batch_delete_contents;
    delete_by_key_lem = h.delete_law;
    find_by_key_prefix_lem = λ p asc rows start db.
        let rg = some (M.bytes_prefix p) in
        reads_page (M.new_iterator rg db) _ (h.iterate_range (M.bytes_prefix p) db)
          (h.iterate_back rg db) asc rows start;
    count_by_key_prefix_lem = λ p db.
        let rg = some (M.bytes_prefix p) in
        reads_count (M.new_iterator rg db) _ (h.iterate_range (M.bytes_prefix p) db)
          (h.iterate_back rg db);
    find_by_range_lem = λ rg asc rows start db.
        reads_page (M.new_iterator (some rg) db) _ (h.iterate_range rg db)
          (h.iterate_back (some rg) db) asc rows start;
    count_by_range_lem = λ rg db.
        reads_count (M.new_iterator (some rg) db) _ (h.iterate_range rg db)
          (h.iterate_back (some rg) db);
    find_by_key_lem = find_by_key_found;
    get_n_first_records_lem = λ n db.
        reads_first (M.new_iterator none db) _ (h.iterate_all db) (h.iterate_back none db) n;
    get_n_last_records_lem =
        λ n db. reads_last (M.new_iterator none db) _ (h.iterate_all db) (h.iterate_back none db) n;
    get_n_first_predicate_lem = λ p db.
        reads_while (M.new_iterator none db) _ (h.iterate_all db) (h.iterate_back none db) p;
    get_all_records_lem =
        λ db. reads_all (M.new_iterator none db) _ (h.iterate_all db) (h.iterate_back none db);
  }
