-- ===== src/Indexer/Restart.antt =====
-- indexer.go: getBatches, the batches to run at the start and after the node has been changed.
pub mod Gap
use account_indexer.Common.{
  ℕ, ◌==◌, Bytes, Bool, true, false, List, [], ◌∷◌, ◌++◌, length, Option, none, some, ◌⊎◌, inl, inr,
}
use account_indexer.Common.Int.{ℤ, pos, eq_ℤ}
use account_indexer.Common.Outcome.{Error, deref}
use account_indexer.Common.Action.{Action, pure, lift, ◌>>=◌}
use account_indexer.Go.BigInt.{set_string_or}
use account_indexer.Geth.{Geth}
use account_indexer.Types.{BlockIndex, BatchStatus}
use account_indexer.Types.Batch.{is_done}
use account_indexer.Dao.{KeyValueDao}
use account_indexer.Repo.Blocks.{get_last_block}
use account_indexer.Repo.Batches.{get_all_batch_statuses, replace_batch}
use account_indexer.Indexer.Batches.{get_init_batches}
use account_indexer.Indexer.BatchIndex.{Databases}

-- The number of the last block. There is none after an error, and its text is then empty.
unfoldable pub last_number : Error ⊎ BlockIndex → ℤ
last_number (inl err) = set_string_or []
last_number (inr last_block) = set_string_or last_block.block_number

-- What the loop has gathered.
pub record Gathered : Type 0 where
  pub found : Bool
  pub batches : List BatchStatus

unfoldable pub gather : BatchStatus → Gathered → Gathered
gather batch r = record r { batches = r.batches ++ (batch ∷ []) }

-- The batch from the last block on, where no batch that is not done starts there.
unfoldable pub with_gap : ℤ → ℤ → ℤ → Gathered → List BatchStatus
with_gap last latest_block now r = elim r.found [
  | true ↦ r.batches
  | false ↦
      r.batches
      ++ (record {
        from = some last;
        to = some latest_block;
        created_at = some now;
        step = 1;
        current = none;
        updated_at = none;
      }
          ∷ [])
]

module _ (g : Geth) (address_dao block_dao batch_dao : KeyValueDao) where
  abbrev State : Type 0
  State = Databases g address_dao block_dao batch_dao

  on_batches : {A : Type 0} → Action batch_dao.Db A → Action State A
  on_batches m db = let (r, batch_db) = m db.batch_db in (r, record db { batch_db = batch_db })

  -- A batch that starts at the last block goes on to the latest one. The error is dropped.
  extend : ℤ → BatchStatus → Gathered → Action State Gathered
  unfolding on_batches
  extend latest_block batch r = do
    let extended = record batch { to = some latest_block }
    err ← on_batches (replace_batch batch_dao batch.from (some latest_block))
    pure (gather extended (record r { found = true }))

  -- A batch that is not done, and whether it starts at the last block.
  unfoldable pub keep : Bool → ℤ → BatchStatus → Gathered → Action State Gathered
  unfolding extend
  keep true latest_block batch r = extend latest_block batch r
  keep false latest_block batch r = pure (gather batch r)

  -- A round of the loop.
  unfoldable pub check_batch : ℤ → ℤ → BatchStatus → Gathered → Action State Gathered
  check_batch last latest_block batch r = do
    done ← lift (is_done batch)
    elim done [
      | true ↦ pure r
      | false ↦ do from ← lift (deref batch.from); keep (eq_ℤ last from) latest_block batch r
    ]

  unfoldable pub check_batches : ℤ → ℤ → List BatchStatus → Gathered → Action State Gathered
  check_batches last latest_block [] r = pure r
  check_batches last latest_block (batch ∷ batches) r = do
    r ← check_batch last latest_block batch r
    check_batches last latest_block batches r

  all_batches : State → Action State (List BatchStatus)
  all_batches s = lift (get_all_batch_statuses batch_dao s.batch_db)

  -- Where batches have been saved.
  unfoldable pub resume_batches : ℤ → ℤ → Action State (List BatchStatus)
  unfolding all_batches
  resume_batches now latest_block s =
      (do
        last_block ← lift (get_last_block g address_dao block_dao s.index_repo)
        let last = last_number last_block
        batches ← all_batches s
        r ← check_batches last latest_block batches (record { found = false; batches = [] })
        pure (with_gap last latest_block now r))
        s

  -- `num_batch` is NumBatch of the configuration, and `now` the clock.
  unfoldable pub get_batches : ℕ → ℤ → ℤ → Action State (List BatchStatus)
  unfolding all_batches
  get_batches num_batch now latest_block s =
      (do
        batches ← all_batches s
        elim batches [
          | [] ↦ pure (get_init_batches num_batch (pos 0) latest_block now)
          | batch ∷ rest ↦ resume_batches now latest_block
        ])
        s
