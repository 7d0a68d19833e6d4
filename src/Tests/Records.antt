-- ===== src/Tests/Records.antt =====
-- What is stored of the blocks of the tests.
use account_indexer.Common.{
  ◌+◌, Bytes, true, false, List, [], ◌∷◌, ◌++◌, map, none, some, All, ◌≡◌, refl, arith, bytes_eq,
}
use mathlib.Core.List.{reverse}
use account_indexer.Common.Int.{pos}
use account_indexer.Common.Assoc.{lookup}
use account_indexer.Common.Outcome.{ok}
use account_indexer.Go.BigInt.{string, nat_string, emit}
use account_indexer.Go.BigInt.RoundTrip.{be4}
use account_indexer.Types.{AddressSequence, AddressIndex, BlockIndex}
use account_indexer.Dao.{KeyValue, new_key_value}
use account_indexer.Dao.Order.{contains, lookup_key, upsert, upsert_all, without_all}
use account_indexer.Dao.Leveldb.{leveldb_dao}
use account_indexer.Dao.Leveldb.Refines.{leveldb_dao-IsKeyValueDao, view}
use account_indexer.Marshal.Block.{marshall_block_value, unmarshall_block_value}
use account_indexer.Marshal.Block.Layout.{rows, block_layout}
use account_indexer.Marshal.Block.RoundTrip.{read_back, unmarshall_layout}
use account_indexer.Repo.Store.{IndexRepo, address_record, sequence_keys, store}
use account_indexer.Repo.Store.Keys.{keys_from, keys_of, sequence_keys-eq, sequence_keys_never_ends}
use account_indexer.Repo.Store.Effect.{Leaves, store_again}
use account_indexer.Indexer.Data.{at_key, index_transactions}
use account_indexer.Indexer.Data.Uses.{uses, IsCounted, index_transactions-IsCounted}
use account_indexer.Indexer.Process.Reorg.{start, records, named_keys, records_named}
use account_indexer.Tests.Hex.{hex}
use account_indexer.Tests.Stores as Stores
use account_indexer.Tests.Stores.{single, empty, disk, disk-IsLeveldb, store-NeverFails}
use account_indexer.Tests.Blocks.{
  alice, bob, time, block, seen, uses-le, block-IsIndexable, reversed, alice-IsAddress,
  bob-IsAddress, soon-InRange,
}

sequence_keys-eq_example :
    sequence_keys hex 256 1 alice (some (pos time)) 3
    ≡ some (keys_from hex alice (some (pos time)) 1 3)
sequence_keys-eq_example = sequence_keys-eq hex alice (some (pos time)) 3 (omega arith)

sequence_keys_never_ends_example : sequence_keys hex 1000 1 alice (some (pos time)) 255 ≡ none
sequence_keys_never_ends_example =
    sequence_keys_never_ends hex alice (some (pos time)) 1000 1 (omega arith)

empty-IsCounted : IsCounted start (λ a. 0)
empty-IsCounted = record {
  counts = λ a. unfold at_key lookup in refl;
  entries = tt;
  sequences = tt;
}

index_transactions-IsCounted_example :
    IsCounted
      (index_transactions (pos time) block.transactions start)
      (λ a. 0 + uses a block.transactions)
index_transactions-IsCounted_example =
    index_transactions-IsCounted (pos time) block.transactions start (λ a. 0)
      (λ a. omega (arith, uses-le a block.transactions)) empty-IsCounted

records_named_example :
    All (λ (r : KeyValue). contains r.key (named_keys hex reverse block) ≡ true) (records hex block)
records_named_example = records_named hex block time reverse block-IsIndexable reversed

abbrev pub both : List AddressSequence
both = record { address = alice; sequence = 2 } ∷ record { address = bob; sequence = 1 } ∷ []

abbrev pub index : BlockIndex
index = record {
  block_number = string (pos 100);
  addresses = both;
  time = some (pos (time + 1));
  created_at = some (pos (time + 4));
}

abbrev pub value : Bytes
value = be4 (time + 4) ++ (be4 (time + 1) ++ rows hex both)

value_written : marshall_block_value hex index ≡ ok value
value_written =
    block_layout hex index (time + 4) (time + 1) refl refl (soon-InRange 4 (omega arith))
      (soon-InRange 1 (omega arith)) (alice-IsAddress, (bob-IsAddress, tt))

pub value_read :
    unmarshall_block_value hex value
    ≡ ok (record index { block_number = []; addresses = map (read_back hex) both })
value_read = unmarshall_layout hex both (time + 4) (time + 1) (alice-IsAddress, (bob-IsAddress, tt))

abbrev received : List AddressIndex
received =
    record {
      address_sequence = record { address = alice; sequence = 1 };
      tx_hash = [];
      value = pos 5;
      time = some (pos (time + 1));
      couple_address = bob;
    }
    ∷ []

abbrev pub known : IndexRepo hex Stores.store Stores.store
unfolding leveldb_dao
known = record { address_db = empty; block_db = single (new_key_value (string (pos 100)) value) }

store_again_example :
    Leaves hex Stores.store Stores.store seen seen
      (leveldb_dao-IsKeyValueDao disk disk-IsLeveldb)
      (leveldb_dao-IsKeyValueDao disk disk-IsLeveldb)
      store-NeverFails
      store-NeverFails
      (store hex Stores.store Stores.store received index false known)
      (upsert_all (map (address_record hex) received) (
        without_all
          (keys_of hex (some (pos (time + 1))) (map (read_back hex) both))
          (seen.contents known.address_db)))
      (upsert (new_key_value (string (pos 100)) value) (seen.contents known.block_db))
unfolding leveldb_dao view disk-IsLeveldb lookup_key bytes_eq string nat_string emit
store_again_example =
    store_again hex Stores.store Stores.store seen seen
      (leveldb_dao-IsKeyValueDao disk disk-IsLeveldb)
      (leveldb_dao-IsKeyValueDao disk disk-IsLeveldb) store-NeverFails store-NeverFails received
      index (record index { block_number = []; addresses = map (read_back hex) both }) value value
      known refl value_read (omega arith, (omega arith, tt)) value_written
