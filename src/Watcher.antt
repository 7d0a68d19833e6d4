-- ===== src/Watcher.antt =====
-- watcher: the cleaning of the block database, and when the node is to be changed.
pub mod Clean
pub mod Watch
use account_indexer.Common.{
  ℕ, zero, suc, ◌+◌, ◌-◌, ◌*◌, ◌^◌, Bytes, Bool, true, false, ◌||◌, List, [], ◌∷◌, Option, none,
  some, ◌⊎◌, inl, inr, ◌≡◌, refl, arith,
}
use account_indexer.Common.Int.{ℤ, pos, negsuc, ◌+ℤ◌, negate, ltb_ℤ}
use account_indexer.Common.Outcome.{Error, Outcome, ok, deref}
use account_indexer.Common.Action.{Action, pure, lift, ◌>>=◌}
use account_indexer.Geth.{Geth}
use account_indexer.Types.{BlockIndex}
use account_indexer.DateTime.{unmarshall_int_to_time}
use account_indexer.Dao.{KeyValueDao}
use account_indexer.Repo.Store.{IndexRepo}
use account_indexer.Repo.Blocks.{get_last_block}
use account_indexer.Repo.Blocks.Delete.{delete_old_blocks}

module _ (g : Geth) (address_dao block_dao : KeyValueDao) where
  -- lastUpdated.Add(-BlockTTL), in seconds; the time to live is a whole number of hours.
  clean_before : ℕ → BlockIndex → Action (IndexRepo g address_dao block_dao) (ℕ × Option Error)
  clean_before block_ttl last_block = do
    created_at ← lift (deref last_block.created_at)
    delete_old_blocks g address_dao block_dao
        ((unmarshall_int_to_time created_at).unix +ℤ negate (pos block_ttl))

  -- Where there is no last block nothing is deleted. Errors are logged.
  unfoldable pub clean_block_db : ℕ → Action (IndexRepo g address_dao block_dao) (ℕ × Option Error)
  unfolding clean_before
  clean_block_db block_ttl repo =
      (do
        last_block ← lift (get_last_block g address_dao block_dao repo)
        elim last_block [ inl err ↦ pure (0, none) | inr block ↦ clean_before block_ttl block ])
        repo

  -- The loop over the ticks. What other goroutines write between two of them is left out.
  unfoldable pub clean_on_ticks : ℕ → ℕ → Action (IndexRepo g address_dao block_dao) ℕ
  clean_on_ticks block_ttl zero = pure 0
  clean_on_ticks block_ttl (suc ticks) = do
    (total, err) ← clean_block_db block_ttl
    later ← clean_on_ticks block_ttl ticks
    pure (total + later)

-- Seconds in nanoseconds.
nanoseconds : ℤ → ℤ
nanoseconds (pos n) = pos (n * 10 ^ 9)
nanoseconds (negsuc n) = negsuc ((n + 1) * 10 ^ 9 - 1)

-- The time from one moment to another, both in nanoseconds, above a threshold in seconds.
delayed : ℤ → ℤ → ℕ → Bool
unfolding nanoseconds
delayed from to threshold = ltb_ℤ (nanoseconds (pos threshold)) (to +ℤ negate from)

-- `now` is the clock, in nanoseconds.
unfoldable pub should_change_ipc : ℤ → ℕ → BlockIndex → Outcome Bool
unfolding delayed nanoseconds
should_change_ipc now oos_threshold last_block = elim last_block.created_at [
  | none ↦ deref none
  | some created ↦ elim last_block.time [
    | none ↦ deref none
    | some time ↦
        let created_at = nanoseconds (unmarshall_int_to_time created).unix in
        let block_time = nanoseconds (unmarshall_int_to_time time).unix in
        ok (delayed created_at now oos_threshold || delayed block_time created_at oos_threshold)
  ]
]
