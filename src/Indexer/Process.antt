-- ===== src/Indexer/Process.antt =====
-- indexer.go: ProcessBlock.
pub mod Covers
pub mod Reorg
pub mod Forgets
pub mod Found
pub mod Batched
use account_indexer.Common.{Bool, Option}
use account_indexer.Common.Int.{ℤ}
use account_indexer.Common.Outcome.{Error}
use account_indexer.Common.Action.{Action}
use account_indexer.Geth.{Geth}
use account_indexer.Types.{BlockDetail}
use account_indexer.Dao.{KeyValueDao}
use account_indexer.Repo.Store.{IndexRepo, store}
use account_indexer.Indexer.Data.{SequenceMap, create_index_data}

module _ (g : Geth) (address_dao block_dao : KeyValueDao) where
  -- `now` and `range_map` are the clock and the map order of this call.
  unfoldable pub process_block :
      ℤ
      → (SequenceMap → SequenceMap)
      → BlockDetail
      → Bool
      → Action (IndexRepo g address_dao block_dao) (Option Error)
  process_block now range_map block_detail is_batch =
      let (address_index, block_index) = create_index_data now range_map block_detail in
      store g address_dao block_dao address_index block_index is_batch
