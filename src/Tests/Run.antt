-- ===== src/Tests/Run.antt =====
-- Batches that are run to their end.
use account_indexer.Common.{
  none, true, inl, codes, some, ◌*◌, ℕ, ◌+◌, [], ◌∷◌, inr, ◌≡◌, refl, arith,
}
use account_indexer.Common.Int.{ℤ, pos}
use account_indexer.Common.Outcome.{ok}
use account_indexer.Types.{BlockDetail}
use account_indexer.Dao.Leveldb.{leveldb_dao}
use account_indexer.Dao.Leveldb.Refines.{leveldb_dao-IsKeyValueDao}
use account_indexer.Indexer.Batches.{init_batch}
use account_indexer.Indexer.Batches.Visits.{due}
use account_indexer.Indexer.BatchIndex.{Databases, Rounds, batch_index, start_batch}
use account_indexer.Indexer.BatchIndex.Whole.{batch_records, finished, batch_index-init_batch}
use account_indexer.Indexer.BatchIndex.Records.{reached}
use account_indexer.Indexer.BatchIndex.Crash.{crashed, ends_at, batch_index-crashed}
use account_indexer.Fetcher.Dial.{new_chain_fetch}
use account_indexer.Dao.Apart.{Same}
use mathlib.Core.List.{reverse}
use account_indexer.Tests.Hex.{hex}
use account_indexer.Tests.Stores.{empty, disk, disk-IsLeveldb, store, store-NeverFails}
use account_indexer.Tests.Blocks.{alice, bob, payment, time, repo, seen}

abbrev block_at : ℕ → ℤ → BlockDetail
block_at i n = record {
  block_number = n;
  time = pos (time + i);
  transactions = payment alice bob 5 ∷ [];
}

abbrev rounds : Rounds hex store store store
rounds = record {
  tag = codes "3-30-:";
  fetch_a_block = λ i n. inr (block_at i n);
  now = λ i. pos (time + i);
  updated = λ i. pos (time + i);
  order = λ i m. m;
}

abbrev pub databases : Databases hex store store store
unfolding leveldb_dao
databases = record { index_repo = repo; batch_db = empty }

batch_index-init_batch_example :
    let held = leveldb_dao-IsKeyValueDao disk disk-IsLeveldb in
    let n = due 3 30 8 in
    let r =
      batch_index hex store store store 40 rounds 0
        (init_batch 8 (pos 0) (pos 30) (pos time) 3)
        databases in
    (r.0
      ≡ ok (
          finished hex store store store seen seen held held store-NeverFails store-NeverFails
            store-NeverFails rounds block_at 3 30 8
            (pos time)
            n))
    × (seen.contents r.1.index_repo.address_db
        ≡ batch_records hex store store store seen seen held held store-NeverFails store-NeverFails
            store-NeverFails rounds block_at 3 30 8
            (pos time)
            n
            (seen.contents databases.index_repo.address_db))
    × (seen.contents r.1.index_repo.block_db ≡ seen.contents databases.index_repo.block_db)
batch_index-init_batch_example =
    batch_index-init_batch hex store store store seen seen
      (leveldb_dao-IsKeyValueDao disk disk-IsLeveldb)
      (leveldb_dao-IsKeyValueDao disk disk-IsLeveldb) store-NeverFails store-NeverFails
      store-NeverFails rounds block_at 8 0 30 3 40 (pos time) databases (λ i b. refl) (omega arith)
      (omega arith) (omega arith) (omega arith) (omega arith)

abbrev constant_block : ℤ → BlockDetail
constant_block n = block_at 0 n

abbrev before_restart : Rounds hex store store store
before_restart = record rounds { fetch_a_block = λ i n. inr (constant_block n) }

abbrev after_restart : Rounds hex store store store
after_restart = record before_restart {
  now = λ i. pos (time + (1000 + i));
  updated = λ i. pos (time + (1000 + i));
  order = λ i m. reverse m;
}

batch_index-crashed_example :
    let held = leveldb_dao-IsKeyValueDao disk disk-IsLeveldb in
    let batch = reached 3 30 8 (pos time) 11 (some (pos (time + 2))) in
    let r = batch_index hex store store store 40 after_restart 0 batch (
      crashed hex store store store seen seen held held store-NeverFails store-NeverFails
        store-NeverFails before_restart after_restart constant_block 3 30 8
        (pos time)
        11
        (pos (time + 3))
        (λ m. m)
        databases) in
    let s = batch_index hex store store store 40 before_restart 0 batch databases in
    (ends_at r.0 ≡ ok (some (pos (11 + due 11 30 8 * 8))))
    × (ends_at s.0 ≡ ok (some (pos (11 + due 11 30 8 * 8))))
    × Same (seen.contents r.1.index_repo.address_db) (seen.contents s.1.index_repo.address_db)
    × (seen.contents r.1.index_repo.block_db ≡ seen.contents s.1.index_repo.block_db)
batch_index-crashed_example =
    batch_index-crashed hex store store store seen seen
      (leveldb_dao-IsKeyValueDao disk disk-IsLeveldb)
      (leveldb_dao-IsKeyValueDao disk disk-IsLeveldb) store-NeverFails store-NeverFails
      store-NeverFails before_restart after_restart constant_block 3 30 8 (pos time) 40 11
      (some (pos (time + 2))) (pos (time + 3)) (λ m. m) databases (λ i b. refl) (λ i b. refl)
      (omega arith) (omega arith) (omega arith) (omega arith) (omega arith)

start_batch_refused :
    (start_batch hex store store store
      (λ path. inl (codes "no node"))
      []
      40
      before_restart
      (reached 3 30 8 (pos time) 11 none)
      databases)
    ≡ ((ok (reached 3 30 8 (pos time) 11 none), databases), true)
unfolding start_batch new_chain_fetch
start_batch_refused = refl
