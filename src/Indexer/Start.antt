-- ===== src/Indexer/Start.antt =====
-- indexer.go: index, up to the start of its goroutines, and IpcUpdated.
pub mod Stops
use account_indexer.Common.{
  ℕ, Bytes, Bool, true, false, not, List, Option, none, some, ◌⊎◌, inl, inr, if◌then◌else◌,
}
use account_indexer.Common.Int.{ℤ}
use account_indexer.Common.Outcome.{Error, Outcome, ok, panic, diverges, nil_dereference}
use account_indexer.Common.Action.{Action, pure, ◌>>=◌}
use account_indexer.Geth.{Geth}
use account_indexer.Types.{BatchStatus}
use account_indexer.Dao.{KeyValueDao}
use account_indexer.Ipc.{IpcManager, subscribe, enable_switch_ipc}
use account_indexer.Fetcher.{EthClient, get_latest_block}
use account_indexer.Fetcher.Dial.{
  ChainFetch, Channel, open_channel, close, new_chain_fetch, open_headers, stop_headers,
}
use account_indexer.Indexer.BatchIndex.{Databases}
use account_indexer.Indexer.Realtime.{Moments, realtime_index}
use account_indexer.Indexer.Restart.{get_batches}

-- The fetcher of the real-time goroutine: it stays while the loop waits.
unfoldable pub after_realtime : Outcome ℕ → ChainFetch → Option ChainFetch
after_realtime (ok n) fetcher = none
after_realtime (panic e) fetcher = some fetcher
after_realtime diverges fetcher = some fetcher

module _ (g : Geth) (address_dao block_dao batch_dao : KeyValueDao) where
  -- The manager of the paths, the databases, the fetcher of the real-time goroutine, and the channel
  -- that stops the batches.
  pub record IndexerState : Type 0 where
    pub ipc_manager : IpcManager
    pub databases : Databases g address_dao block_dao batch_dao
    pub realtime_fetcher : Option ChainFetch
    pub stop_chan : Channel

  on_databases :
      {A : Type 0} → Action (Databases g address_dao block_dao batch_dao) A → Action IndexerState A
  on_databases m s = let (r, db) = m s.databases in (r, record s { databases = db })

  -- The indexer subscribes at the first start, and not after a change of the node.
  unfoldable pub enable : Bool → ℕ → IpcManager → IpcManager
  enable after_ipc_change sub im =
      let enabled = enable_switch_ipc im in
      if after_ipc_change then enabled else subscribe sub enabled

  -- What is known of the latest block: it is an error, or the batches are asked for.
  unfoldable pub with_latest :
      ℕ → ℤ → (ℤ × Option Error) × Bool → Action IndexerState (Option (List BatchStatus) × Bool)
  unfolding on_databases
  with_latest num_batch now ((latest_block, some err), switched) = pure (none, switched)
  with_latest num_batch now ((latest_block, none), switched) = do
    batches ←
        on_databases (get_batches g address_dao block_dao batch_dao num_batch now latest_block)
    pure (some batches, false)

  -- The new fetcher, or none after an error.
  unfoldable pub with_fetcher :
      ℕ → ℤ → (Error ⊎ ChainFetch) × Bool → Action IndexerState (Option (List BatchStatus) × Bool)
  unfolding with_latest
  with_fetcher num_batch now (inl err, switched) s =
      (ok (none, switched), record s { realtime_fetcher = none })
  with_fetcher num_batch now (inr fetcher, switched) s =
      with_latest num_batch now (get_latest_block fetcher.client)
        (record s { realtime_fetcher = some fetcher })

  -- The batches for which goroutines are started, beside the real-time one, or `none` where it stops.
  -- `sub` stands for the indexer among the subscribers. Whether the IPC is switched is returned too.
  unfoldable pub index :
      (Bytes → Error ⊎ EthClient)
      → ℕ
      → ℕ
      → ℤ
      → Bool
      → Action IndexerState (Option (List BatchStatus) × Bool)
  unfolding with_fetcher
  index dial sub num_batch now after_ipc_change s =
      let im = enable after_ipc_change sub s.ipc_manager in
      with_fetcher num_batch now (new_chain_fetch dial im.cur_ipc)
        (record s { ipc_manager = im; stop_chan = open_channel })

  -- if realtimeFetcher != nil { realtimeFetcher.IpcUpdated() }
  stopped_fetcher : Outcome ChainFetch → Action IndexerState Unit
  stopped_fetcher (ok fetcher) s = (ok tt, record s { realtime_fetcher = some fetcher })
  stopped_fetcher (panic e) s = (panic e, s)
  stopped_fetcher diverges s = (diverges, s)

  unfoldable pub stop_realtime : Action IndexerState Unit
  unfolding stopped_fetcher
  stop_realtime s = elim s.realtime_fetcher [
    | none ↦ (ok tt, s)
    | some fetcher ↦ stopped_fetcher (stop_headers fetcher) s
  ]

  stopped_batches : Outcome Channel → Action IndexerState Unit
  stopped_batches (ok channel) s = (ok tt, record s { stop_chan = channel })
  stopped_batches (panic e) s = (panic e, s)
  stopped_batches diverges s = (diverges, s)

  -- if stopChan != nil { close(stopChan) }
  unfoldable pub stop_batches : Action IndexerState Unit
  unfolding stopped_batches
  stop_batches s = stopped_batches (close s.stop_chan) s

  -- The two waits of 30 seconds are left out.
  unfoldable pub ipc_updated :
      (Bytes → Error ⊎ EthClient)
      → ℕ
      → ℕ
      → ℤ
      → Action IndexerState (Option (List BatchStatus) × Bool)
  unfolding stop_realtime stop_batches
  ipc_updated dial sub num_batch now = do
    _ ← stop_realtime
    _ ← stop_batches
    index dial sub num_batch now true

  unfoldable pub first_index :
      (Bytes → Error ⊎ EthClient)
      → ℕ
      → ℕ
      → ℤ
      → Action IndexerState (Option (List BatchStatus) × Bool)
  first_index dial sub num_batch now = index dial sub num_batch now false

  -- realtimeIndex: the fetcher's subscription begins, its blocks are processed, and the fetcher is let
  -- go. `none` is a fetcher that is nil, on which RealtimeFetch panics.
  unfoldable pub run_realtime : Moments → List ℤ → Option ChainFetch → Action IndexerState ℕ
  run_realtime w numbers none s = (panic nil_dereference, s)
  run_realtime w numbers (some fetcher) s =
      let (r, repo) =
        realtime_index g address_dao block_dao w fetcher.client numbers s.databases.index_repo in
      (
        r,
        record s {
          databases = record s.databases { index_repo = repo };
          realtime_fetcher = after_realtime r (open_headers fetcher);
        },
      )
