-- ===== src/Watcher/Watch.antt =====
-- check_node_status.go: Watch and watch.
use account_indexer.Common.{ℕ, Bool, true, false, List, [], ◌∷◌, ◌++◌, inl, inr, if◌then◌else◌}
use account_indexer.Common.Int.{ℤ}
use account_indexer.Common.Outcome.{Outcome, ok, panic, diverges}
use account_indexer.Common.Action.{Action, pure, lift, ◌>>=◌}
use account_indexer.Geth.{Geth}
use account_indexer.Dao.{KeyValueDao}
use account_indexer.Ipc.{IpcManager, Calls, change_ipc}
use account_indexer.Repo.Store.{IndexRepo}
use account_indexer.Repo.Blocks.{get_last_block}
use account_indexer.Watcher.{should_change_ipc}

-- The watcher, whether its ticker is stopped, and the manager of the paths.
pub record NodeStatusWatcher : Type 0 where
  pub is_watching : Bool
  pub stopped : Bool
  pub ipc_manager : IpcManager

-- ChangeIPC. The calls that it makes on the subscribers are returned.
changed : Outcome (IpcManager × Calls) → Action NodeStatusWatcher Calls
changed (ok (im, calls)) s = (ok calls, record s { ipc_manager = im })
changed (panic e) s = (panic e, s)
changed diverges s = (diverges, s)

module _ (g : Geth) (address_dao block_dao : KeyValueDao) where
  -- The ticker is stopped before the path is changed.
  switch : Bool → Action NodeStatusWatcher Calls
  unfolding changed
  switch false s = (ok [], s)
  switch true s =
      changed (change_ipc s.ipc_manager) (record s { is_watching = false; stopped = true })

  -- `now` is the clock, in nanoseconds. An error of the read is logged.
  unfoldable pub watch : ℕ → ℤ → IndexRepo g address_dao block_dao → Action NodeStatusWatcher Calls
  unfolding switch
  watch oos_threshold now repo = do
    last_block ← lift (get_last_block g address_dao block_dao repo)
    elim last_block [
      | inl err ↦ pure []
      | inr block ↦ do due ← lift (should_change_ipc now oos_threshold block); switch due
    ]

  -- The loop over the moments of the ticker, each with the database as it is then. A ticker that is
  -- stopped does not tick.
  unfoldable pub on_ticks :
      ℕ → List (ℤ × IndexRepo g address_dao block_dao) → Action NodeStatusWatcher Calls
  on_ticks oos_threshold [] s = (ok [], s)
  on_ticks oos_threshold ((now, repo) ∷ ticks) s =
      if s.stopped
      then (ok [], s)
      else (do
        calls ← watch oos_threshold now repo
        later ← on_ticks oos_threshold ticks
        pure (calls ++ later))
          s

  -- A new ticker, unless there is one already.
  unfoldable pub watch_from :
      ℕ → List (ℤ × IndexRepo g address_dao block_dao) → Action NodeStatusWatcher Calls
  watch_from oos_threshold ticks s =
      if s.is_watching
      then (ok [], s)
      else on_ticks oos_threshold ticks (record s { is_watching = true; stopped = false })
