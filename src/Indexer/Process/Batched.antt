-- ===== src/Indexer/Process/Batched.antt =====
-- What ProcessBlock leaves of a block from a batch.
use account_indexer.Common.{true}
use account_indexer.Common.Int.{ℤ}
use account_indexer.Geth.{Geth}
use account_indexer.Types.{BlockDetail}
use account_indexer.Dao.{KeyValueDao}
use account_indexer.Dao.Order.{upsert_all}
use account_indexer.Dao.Contract.{View, IsKeyValueDao}
use account_indexer.Repo.Store.{IndexRepo}
use account_indexer.Repo.Store.Effect.{NeverFails, store_batch, Leaves}
use account_indexer.Indexer.Data.{SequenceMap, create_index_data}
use account_indexer.Indexer.Process.{process_block}
use account_indexer.Indexer.Process.Reorg.{records}

module _ (g : Geth) (ad bd : KeyValueDao) (va : View ad) (vb : View bd) (ha : IsKeyValueDao ad va)
    (hb : IsKeyValueDao bd vb) (fa : NeverFails ad) (fb : NeverFails bd) where
  -- The address records are written, and the block database is as before.
  pub process_block_batch :
      (now : ℤ) (order : SequenceMap → SequenceMap) (b : BlockDetail) (repo : IndexRepo g ad bd)
      → Leaves g ad bd va vb ha hb fa fb
          (process_block g ad bd now order b true repo)
          (upsert_all (records g b) (va.contents repo.address_db))
          (vb.contents repo.block_db)
  unfolding process_block create_index_data
  process_block_batch now order b repo =
      store_batch g ad bd va vb ha hb fa fb _ (create_index_data now order b).1 repo
