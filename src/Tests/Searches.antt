-- ===== src/Tests/Searches.antt =====
-- Stores, and what is searched in them.
use Prim.Native.Nat.{min}
use mathlib.Core.List.{reverse}
use account_indexer.Common.{false, List, [], ◌∷◌, ◌≡◌}
use account_indexer.Common.Int.{pos}
use account_indexer.Dao.{KeyValue, new_key_value}
use account_indexer.Dao.Iterate
use account_indexer.Dao.Iterate.Pages.{page, find_by_key_prefix-page}
use account_indexer.Dao.Contract.{IsKeyValueDao}
use account_indexer.Dao.Leveldb.{leveldb_dao}
use account_indexer.Dao.Leveldb.Refines as Leveldb
use account_indexer.Dao.Memdb.{memdb_dao}
use account_indexer.Dao.Memdb.Refines as Memdb
use account_indexer.Tests.Stores.{disk, disk-IsLeveldb, memory, memory-IsMemdb}

leveldb_dao-IsKeyValueDao_example :
    IsKeyValueDao (leveldb_dao disk) (Leveldb.view disk disk-IsLeveldb)
leveldb_dao-IsKeyValueDao_example = Leveldb.leveldb_dao-IsKeyValueDao disk disk-IsLeveldb

memdb_dao-IsKeyValueDao_example :
    IsKeyValueDao (memdb_dao memory) (Memdb.view memory memory-IsMemdb)
memdb_dao-IsKeyValueDao_example = Memdb.memdb_dao-IsKeyValueDao memory memory-IsMemdb

abbrev three : List KeyValue
three =
    new_key_value (1 ∷ []) (10 ∷ [])
    ∷ new_key_value (2 ∷ []) (20 ∷ [])
    ∷ new_key_value (3 ∷ []) (30 ∷ [])
    ∷ []

find_by_key_prefix-page_example :
    Iterate.find_by_key_prefix
      (record { forward = three; backward = reverse three })
      false
      (pos 2)
      (pos 1)
    ≡ (min 3 10001, page (pos 2) (pos 1) (reverse three))
find_by_key_prefix-page_example =
    find_by_key_prefix-page (record { forward = three; backward = reverse three }) false (pos 2)
      (pos 1)
