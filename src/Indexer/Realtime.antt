-- ===== src/Indexer/Realtime.antt =====
-- indexer.go: realtimeIndex, over what RealtimeFetch sends.
pub mod Latest
pub mod Stamps
pub mod Versions
pub mod Undone
pub mod Converges
use account_indexer.Common.{ℕ, ◌+◌, true, false, List, [], ◌∷◌}
use account_indexer.Common.Int.{ℤ}
use account_indexer.Common.Outcome.{diverges}
use account_indexer.Common.Action.{Action, pure, lift, ◌>>=◌}
use account_indexer.Geth.{Geth}
use account_indexer.Types.{BlockDetail}
use account_indexer.Dao.{KeyValueDao}
use account_indexer.Repo.Store.{IndexRepo}
use account_indexer.Fetcher.{EthClient}
use account_indexer.Fetcher.Realtime.{realtime_fetch}
use account_indexer.Indexer.Data.{SequenceMap}
use account_indexer.Indexer.Process.{process_block}

-- The clock and the order of the runtime's maps, as each block is processed.
pub record Moments : Type 0 where
  pub now : ℕ → ℤ
  pub order : ℕ → SequenceMap → SequenceMap

module _ (g : Geth) (address_dao block_dao : KeyValueDao) where
  abbrev Repo : Type 0
  Repo = IndexRepo g address_dao block_dao

  -- The loop over the blocks that arrive, from the `i`-th on. The error of ProcessBlock is dropped.
  unfoldable pub process_blocks : Moments → ℕ → List BlockDetail → Action Repo ℕ
  process_blocks w i [] = pure i
  process_blocks w i (block_detail ∷ blocks) = do
    err ← process_block g address_dao block_dao (w.now i) (w.order i) block_detail false
    process_blocks w (i + 1) blocks

  -- RealtimeFetch runs beside the loop, which reads its blocks one by one. The loop ends when their
  -- channel is closed, and waits for ever where it is not. The result is the number of blocks.
  unfoldable pub realtime_index : Moments → EthClient → List ℤ → Action Repo ℕ
  realtime_index w client numbers =
      let sent = realtime_fetch client numbers in
      do
        n ← process_blocks w 0 sent.blocks
        elim sent.closed [ true ↦ pure n | false ↦ lift diverges ]
