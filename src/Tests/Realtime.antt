-- ===== src/Tests/Realtime.antt =====
-- A block that comes in two versions, with another block between them.
use account_indexer.Common.{
  ℕ, ◌+◌, Bytes, List, [], ◌∷◌, codes, ◌==◌, if◌then◌else◌, bytes_eq, ◌≡◌, refl,
}
use account_indexer.Common.Outcome.{ok}
use account_indexer.Go.BigInt.{string, nat_string, emit}
use account_indexer.Types.{BlockDetail}
use account_indexer.Dao.Apart.{Same}
use account_indexer.Dao.Order.{lookup_key}
use account_indexer.Dao.Leveldb.{leveldb_dao}
use account_indexer.Dao.Leveldb.Refines.{leveldb_dao-IsKeyValueDao, view}
use account_indexer.Indexer.Realtime.{process_blocks}
use account_indexer.Indexer.Realtime.Latest.{others, latest, current}
use account_indexer.Indexer.Realtime.Versions.{IsOnChain, Stored, written_over}
use account_indexer.Indexer.Realtime.Converges.{process_blocks-latest}
use account_indexer.Tests.Hex.{hex, hex-IsHex}
use account_indexer.Tests.Stores.{disk, disk-IsLeveldb, store, store-NeverFails}
use account_indexer.Tests.Blocks.{
  time, block, other_block, repo, seen, block-IsIndexable, other_block-IsIndexable,
}
use account_indexer.Tests.Interleave.{
  last_block, last_block-IsIndexable, moments, moments-IsRuntime,
}

abbrev number_at : ℕ → Bytes
number_at t = if t == time + 40 then codes "108" else codes "100"

abbrev arrived : List BlockDetail
arrived = block ∷ last_block ∷ other_block ∷ []

abbrev OnChain : BlockDetail → Type 0
OnChain =
    IsOnChain hex hex-IsHex store store seen seen (leveldb_dao-IsKeyValueDao disk disk-IsLeveldb)
      (leveldb_dao-IsKeyValueDao disk disk-IsLeveldb) store-NeverFails store-NeverFails number_at
      repo

block-OnChain : OnChain block
unfolding leveldb_dao view disk-IsLeveldb lookup_key bytes_eq string nat_string emit
block-OnChain = record {
  time_of = time;
  indexable = block-IsIndexable;
  numbered = refl;
  fresh = λ k e. refl;
  unknown = refl;
}

last_block-OnChain : OnChain last_block
unfolding leveldb_dao view disk-IsLeveldb lookup_key bytes_eq string nat_string emit
last_block-OnChain = record {
  time_of = time + 40;
  indexable = last_block-IsIndexable;
  numbered = refl;
  fresh = λ k e. refl;
  unknown = refl;
}

other_block-OnChain : OnChain other_block
unfolding leveldb_dao view disk-IsLeveldb lookup_key bytes_eq string nat_string emit
other_block-OnChain = record {
  time_of = time + 15;
  indexable = other_block-IsIndexable;
  numbered = refl;
  fresh = λ k e. refl;
  unknown = refl;
}

replaced : latest [] arrived ≡ other_block ∷ last_block ∷ []
unfolding others bytes_eq string nat_string emit
replaced = refl

process_blocks-latest_example :
    let r = process_blocks hex store store moments 0 arrived repo in
    let last = latest [] arrived in
    (r.0 ≡ ok 3)
    × Same (seen.contents r.1.address_db) (written_over hex last (seen.contents repo.address_db))
    × ((n : Bytes)
        → Stored hex hex-IsHex store store seen seen
            (leveldb_dao-IsKeyValueDao disk disk-IsLeveldb)
            (leveldb_dao-IsKeyValueDao disk disk-IsLeveldb)
            store-NeverFails
            store-NeverFails
            number_at
            repo
            n
            (current n last)
            (seen.contents r.1.block_db))
process_blocks-latest_example =
    process_blocks-latest hex hex-IsHex store store seen seen
      (leveldb_dao-IsKeyValueDao disk disk-IsLeveldb)
      (leveldb_dao-IsKeyValueDao disk disk-IsLeveldb) store-NeverFails store-NeverFails number_at
      repo moments arrived moments-IsRuntime
      (block-OnChain, (last_block-OnChain, (other_block-OnChain, tt)))
