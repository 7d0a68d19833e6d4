-- ===== src/Tests/Batches.antt =====
-- Batches: their records, and the blocks that they ask for.
use account_indexer.Common.{◌+◌, Bytes, [], ◌∷◌, none, some, ◌≡◌, arith}
use account_indexer.Common.Int.{pos}
use account_indexer.Common.Outcome.{ok}
use account_indexer.Dao.{new_key_value}
use account_indexer.Dao.Order.{upsert}
use account_indexer.Dao.Leveldb.{leveldb_dao}
use account_indexer.Dao.Leveldb.Refines.{leveldb_dao-IsKeyValueDao}
use account_indexer.Repo.Batches.{update_batch, replace_batch}
use account_indexer.Repo.Batches.Read.{key_value_to_batch_status}
use account_indexer.Repo.Batches.Saved.{
  running, batch_key, replace_batch_does_nothing, update_batch_saves,
}
use account_indexer.Indexer.Batches.{init_batch, visits}
use account_indexer.Indexer.Batches.Visits.{every, due, visits-init_batch}
use account_indexer.Tests.Stores.{single, disk, disk-IsLeveldb, store, store-NeverFails}
use account_indexer.Tests.Blocks.{time, seen, soon-InRange}

visits-init_batch_example :
    visits 103 (init_batch 8 (pos 0) (pos 101) (pos time) 3) ≡ ok (pos 3 ∷ every 8 3 (due 3 101 8))
visits-init_batch_example =
    visits-init_batch 8 0 101 3 103 (pos time) (omega arith) (omega arith) (omega arith)
      (omega arith) (omega arith)

visits_runs :
    visits 103 (init_batch 8 (pos 0) (pos 30) (pos time) 3)
    ≡ ok (pos 3 ∷ pos 11 ∷ pos 19 ∷ pos 27 ∷ [])
visits_runs =
    visits-init_batch 8 0 30 3 103 (pos time) (omega arith) (omega arith) (omega arith)
      (omega arith) (omega arith)

abbrev halfway : store.Db
unfolding leveldb_dao
halfway = single (new_key_value (1 ∷ []) (2 ∷ []))

replace_batch_does_nothing_example :
    replace_batch store (some (pos 5)) (some (pos 9)) halfway ≡ (ok none, halfway)
replace_batch_does_nothing_example =
    replace_batch_does_nothing store seen (leveldb_dao-IsKeyValueDao disk disk-IsLeveldb)
      (some (pos 5)) (some (pos 9)) halfway

update_batch_saves_example :
    let b = running 3 6900000 8 (pos time) 4711 (time + 7) in
    let r = update_batch store b halfway in
    (r.0 ≡ ok none)
    × ((v : Bytes) × (seen.contents r.1
          ≡ upsert (new_key_value (batch_key b) v) (seen.contents halfway))
        × (key_value_to_batch_status (new_key_value (batch_key b) v) ≡ ok b))
update_batch_saves_example =
    update_batch_saves store seen (leveldb_dao-IsKeyValueDao disk disk-IsLeveldb) 3 6900000 8
      (pos time) 4711 (time + 7) halfway store-NeverFails (omega arith) (omega arith) (omega arith)
      (soon-InRange 7 (omega arith))
