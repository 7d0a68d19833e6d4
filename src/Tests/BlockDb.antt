-- ===== src/Tests/BlockDb.antt =====
-- The block database after a block, and without its old blocks.
use account_indexer.Common.{◌+◌, false, [], ◌∷◌, map, length, none, bytes_eq, ◌≡◌, refl, arith}
use account_indexer.Common.Int.{ℤ, pos, ◌+ℤ◌, negate}
use account_indexer.Common.Outcome.{ok}
use account_indexer.Go.BigInt.{string, nat_string, emit}
use account_indexer.Dao.{KeyValue, new_key_value}
use account_indexer.Dao.Order.{lookup_key, without_all}
use account_indexer.Dao.Leveldb.{leveldb_dao}
use account_indexer.Dao.Leveldb.Refines.{leveldb_dao-IsKeyValueDao, view}
use account_indexer.Marshal.Block.RoundTrip.{read_back}
use account_indexer.Repo.Blocks.{get_blocks}
use account_indexer.Repo.Blocks.Delete.{
  IsCreatedAt, delete_old_blocks, old_records, delete_old_blocks_effect,
}
use account_indexer.Watcher.{clean_block_db}
use account_indexer.Watcher.Clean.{clean_block_db_effect}
use account_indexer.Indexer.Process.{process_block}
use account_indexer.Indexer.Process.Reorg.{block_record}
use account_indexer.Indexer.Process.Found.{get_blocks-process_block}
use account_indexer.Tests.Hex.{hex, hex-IsHex}
use account_indexer.Tests.Stores.{disk, disk-IsLeveldb, store, store-NeverFails}
use account_indexer.Tests.Blocks.{time, block, repo, seen, kept, block-IsIndexable, soon-InRange}
use account_indexer.Tests.Records.{index, both, value, known, value_read}

get_blocks-process_block_example :
    let after = (process_block hex store store (pos (time + 1)) (λ m. m) block false repo).1 in
    let written = block_record hex (time + 1) (λ m. m) block in
    get_blocks hex store store (string (pos 100)) (pos 10) (pos 0) after
    ≡ ok (1, record written { addresses = map (read_back hex) written.addresses } ∷ [])
unfolding leveldb_dao view disk-IsLeveldb lookup_key bytes_eq string nat_string emit
get_blocks-process_block_example =
    get_blocks-process_block hex hex-IsHex store store seen seen
      (leveldb_dao-IsKeyValueDao disk disk-IsLeveldb)
      (leveldb_dao-IsKeyValueDao disk disk-IsLeveldb) store-NeverFails store-NeverFails block time
      (time + 1) (λ m. m) repo (pos 10) (pos 0) block-IsIndexable (soon-InRange 1 (omega arith))
      kept refl

abbrev created : KeyValue → ℤ
created kv = pos (time + 4)

delete_old_blocks_effect_example :
    let old = old_records created (pos (time + 9)) (seen.contents known.block_db) in
    let r = delete_old_blocks hex store store (pos (time + 9)) known in
    (r.0 ≡ ok (length old, none))
    × (seen.contents r.1.block_db
        ≡ without_all (map (λ kv. kv.key) old) (seen.contents known.block_db))
    × (r.1.address_db ≡ known.address_db)
unfolding leveldb_dao view disk-IsLeveldb
delete_old_blocks_effect_example =
    delete_old_blocks_effect hex store store seen (leveldb_dao-IsKeyValueDao disk disk-IsLeveldb)
      store-NeverFails created (pos (time + 9)) known
      (
        record {
          block = record index { block_number = []; addresses = map (read_back hex) both };
          read = value_read;
          created_at = refl;
        },
        tt,
      )

is_created : IsCreatedAt hex (pos (time + 4)) (new_key_value (string (pos 100)) value)
is_created = record {
  block = record index { block_number = []; addresses = map (read_back hex) both };
  read = value_read;
  created_at = refl;
}

clean_block_db_effect_example :
    let old =
      old_records created (pos (time + 4) +ℤ negate (pos 14400)) (seen.contents known.block_db) in
    let r = clean_block_db hex store store 14400 known in
    (r.0 ≡ ok (length old, none))
    × (seen.contents r.1.block_db
        ≡ without_all (map (λ kv. kv.key) old) (seen.contents known.block_db))
    × (r.1.address_db ≡ known.address_db)
unfolding leveldb_dao view disk-IsLeveldb
clean_block_db_effect_example =
    clean_block_db_effect hex store store seen (leveldb_dao-IsKeyValueDao disk disk-IsLeveldb)
      store-NeverFails created (new_key_value (string (pos 100)) value) (time + 4) 14400 known refl
      is_created (omega arith) (is_created, tt)
