-- ===== src/Indexer/Rerun.antt =====
-- indexer.go: FetchAndProcess, which the server calls.
use account_indexer.Common.{Bytes, Bool, true, Option, some, ◌⊎◌, inl, inr}
use account_indexer.Common.Int.{ℤ}
use account_indexer.Common.Outcome.{Error}
use account_indexer.Common.Action.{Action, pure, ◌>>=◌}
use account_indexer.Geth.{Geth}
use account_indexer.Dao.{KeyValueDao}
use account_indexer.Repo.Store.{IndexRepo}
use account_indexer.Fetcher.{EthClient, fetch_a_block}
use account_indexer.Fetcher.Dial.{new_chain_fetch}
use account_indexer.Indexer.Data.{SequenceMap}
use account_indexer.Indexer.Process.{process_block}

module _ (g : Geth) (address_dao block_dao : KeyValueDao) where
  -- `dial` is ethclient.Dial, `ipc` the path in use, and `now` and `range_map` the clock and the map
  -- order of the call. The result, and whether the IPC is switched.
  unfoldable pub fetch_and_process :
      (Bytes → Error ⊎ EthClient)
      → Bytes
      → ℤ
      → (SequenceMap → SequenceMap)
      → ℤ
      → Action (IndexRepo g address_dao block_dao) (Option Error × Bool)
  fetch_and_process dial ipc now range_map block_number =
      let (dialled, dial_switched) = new_chain_fetch dial ipc in
      elim dialled [
        | inl err ↦ pure (some err, dial_switched)
        | inr fetcher ↦
            let (fetched, switched) = fetch_a_block fetcher.client block_number in
            elim fetched [
              | inl err ↦ pure (some err, switched)
              | inr block_detail ↦ do
                err ← process_block g address_dao block_dao now range_map block_detail true
                pure (err, switched)
            ]
      ]
