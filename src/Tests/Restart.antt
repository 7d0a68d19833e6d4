-- ===== src/Tests/Restart.antt =====
-- A batch that is half done as the program starts again, and the blocks of new batches.
use account_indexer.Common.{
  ◌+◌, ◌%◌, ◌-◌, ◌==◌, false, List, [], ◌∷◌, ◌++◌, map, some, inr, ◌≡◌, refl, arith,
}
use account_indexer.Common.Int.{ℤ, pos, ◌+ℤ◌, int64}
use account_indexer.Common.Outcome.{ok, deref, traverse}
use account_indexer.Go.BigInt.{string, nat_string, emit, set_string, to_bytes, set_string_or}
use account_indexer.Types.{BlockIndex, BatchStatus}
use account_indexer.Types.Batch.{is_done, advance}
use account_indexer.Dao.{new_key_value}
use account_indexer.Dao.Leveldb.{leveldb_dao}
use account_indexer.Dao.Contract.{IsKeyValueDao}
use account_indexer.Dao.Leveldb.Refines.{leveldb_dao-IsKeyValueDao, view}
use account_indexer.DateTime.{marshall_time}
use account_indexer.Marshal.Block.{unmarshall_block_key}
use account_indexer.Marshal.Block.RoundTrip.{read_back}
use account_indexer.Repo.Blocks.{get_last_block, first_of, key_value_to_block_index}
use account_indexer.Repo.Batches.{get_all_batch_statuses}
use account_indexer.Repo.Batches.Saved.{running, batch_key, read_saved}
use account_indexer.Indexer.Batches.{init_batch, visits}
use account_indexer.Indexer.Batches.Visits.{every}
use account_indexer.Indexer.Batches.Once.{times, count_if, visits_once}
use account_indexer.Indexer.BatchIndex.{Databases}
use account_indexer.Indexer.Restart.{last_number, get_batches}
use account_indexer.Indexer.Restart.Gap.{unfinished, gap, get_batches-gap}
use account_indexer.Tests.Hex.{hex}
use account_indexer.Tests.Stores.{single, store, disk, disk-IsLeveldb}
use account_indexer.Tests.Blocks.{time, seen, soon-InRange}
use account_indexer.Tests.Records.{known, index as stored_block, both, value_read}

visits_once_example :
    (blocks : List ℤ) × (visits 40 (init_batch 8 (pos 0) (pos 30) (pos time) 3) ≡ ok blocks)
    × (times (pos 19) blocks ≡ count_if ((19 - 0) % 8 == 3) 0)
visits_once_example =
    visits_once 8 0 30 3 19 40 (pos time) (omega arith) (omega arith) (omega arith) (omega arith)
      (omega arith) (omega arith) (omega arith)

abbrev half_done : BatchStatus
half_done = running 3 90 8 (pos time) 43 (time + 7)

abbrev interrupted : Databases hex store store store
unfolding leveldb_dao
interrupted = record {
  index_repo = known;
  batch_db = single (
      new_key_value (batch_key half_done)
        (marshall_time (some (pos (time + 7))) ++ to_bytes (pos 43)));
}

held : IsKeyValueDao store seen
held = leveldb_dao-IsKeyValueDao disk disk-IsLeveldb

saved_batches : get_all_batch_statuses store interrupted.batch_db ≡ ok (half_done ∷ [])
unfolding get_all_batch_statuses traverse leveldb_dao view disk-IsLeveldb
saved_batches =
    rw
      (
        held.get_all_records_lem interrupted.batch_db,
        read_saved 3 90 8 (pos time) 43 (time + 7) (omega arith) (omega arith)
            (soon-InRange 7 (omega arith)),
      )
      refl

abbrev last_stored : BlockIndex
last_stored = record stored_block { addresses = map (read_back hex) both }

key_read : unmarshall_block_key (string (pos 100)) ≡ pos 100
unfolding unmarshall_block_key set_string_or set_string string nat_string emit
key_read = refl

known_last : get_last_block hex store store known ≡ ok (inr last_stored)
unfolding get_last_block first_of key_value_to_block_index leveldb_dao view disk-IsLeveldb
known_last = rw (held.get_n_last_records_lem 1 known.block_db, value_read, key_read) refl

last_is_100 : last_number (inr last_stored) ≡ pos 100
unfolding last_number set_string_or set_string string nat_string emit
last_is_100 = refl

-- The next block of the batch, 51, is not past its end.
not_done : is_done half_done ≡ ok false
unfolding is_done advance int64 ◌+ℤ◌ deref
not_done = refl

get_batches-gap_example :
    let more = gap hex store store store (pos 100) (pos 120) (pos time) in
    (get_batches hex store store store 8 (pos time) (pos 120) interrupted
      ≡ (ok (unfinished (λ b. false) (half_done ∷ []) ++ (more ∷ [])), interrupted))
    × (visits 122 more ≡ ok (pos 100 ∷ every 1 100 (120 - 100)))
unfolding interrupted
get_batches-gap_example =
    get_batches-gap hex store store store (λ b. false) 8 100 120 122 (pos time) (inr last_stored)
      half_done [] interrupted known_last last_is_100 saved_batches
      (record { decided = not_done; start = pos 3; starts = refl; elsewhere = refl }, tt)
      (omega arith) (omega arith) (omega arith)
