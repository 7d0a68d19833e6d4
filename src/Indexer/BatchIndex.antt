-- ===== src/Indexer/BatchIndex.antt =====
-- indexer.go: batchIndex, over one database of addresses, one of blocks and one of batches.
pub mod Records
pub mod Whole
pub mod Crash
use account_indexer.Common.{
  ℕ, zero, suc, ◌+◌, Bytes, Bool, true, false, List, [], ◌∷◌, ◌++◌, Option, none, some, ◌⊎◌, inl,
  inr, codes,
}
use account_indexer.Common.Int.{ℤ, pos}
use account_indexer.Common.Outcome.{Error, Outcome, ok, panic, diverges}
use account_indexer.Common.Action.{Action, pure, lift, ◌>>=◌}
use account_indexer.Geth.{Geth}
use account_indexer.Types.{BlockDetail, BatchStatus}
use account_indexer.Types.Batch.{is_done, next}
use account_indexer.DateTime.{ptr_string}
use account_indexer.Fetcher.{EthClient}
use account_indexer.Fetcher.Dial.{new_chain_fetch}
use account_indexer.Dao.{KeyValueDao}
use account_indexer.Repo.Store.{IndexRepo}
use account_indexer.Repo.Batches.{update_batch}
use account_indexer.Indexer.Data.{SequenceMap}
use account_indexer.Indexer.Process.{process_block}

module _ (g : Geth) (address_dao block_dao batch_dao : KeyValueDao) where
  pub record Databases : Type 0 where
    pub index_repo : IndexRepo g address_dao block_dao
    pub batch_db : batch_dao.Db

  -- The tag of the batch in the log, and what the loop meets in each round: FetchABlock's answer for a number, the clock as the block is
  -- processed and as the batch is updated, and the order of the runtime's maps.
  pub record Rounds : Type 0 where
    pub tag : Bytes
    pub fetch_a_block : ℕ → ℤ → Error ⊎ BlockDetail
    pub now : ℕ → ℤ
    pub updated : ℕ → ℤ
    pub order : ℕ → SequenceMap → SequenceMap

  on_repo :
      Action (IndexRepo g address_dao block_dao) (Option Error) → Action Databases (Option Error)
  on_repo m db = let (r, repo) = m db.index_repo in (r, record db { index_repo = repo })

  on_batches : Action batch_dao.Db (Option Error) → Action Databases (Option Error)
  on_batches m db = let (r, batch_db) = m db.batch_db in (r, record db { batch_db = batch_db })

  -- if err != nil { panic(…) }
  or_panic : Error → Option Error → Action Databases (Option Error)
  or_panic message none = pure none
  or_panic message (some e) = lift (panic (message ++ e))

  -- tag + text + blockNumber.String() + " , error is ", where the number is the batch's current one.
  message : Rounds → BatchStatus → Bytes → Bytes
  message w batch text = w.tag ++ (text ++ (ptr_string batch.current ++ codes " , error is "))

  -- A round in which the block was fetched: the batch that it leaves.
  unfoldable pub process_round :
      Rounds → ℕ → BlockDetail → BatchStatus → Action Databases BatchStatus
  unfolding on_repo on_batches or_panic message
  process_round w i block_detail batch = do
    err ← on_repo (process_block g address_dao block_dao (w.now i) (w.order i) block_detail true)
    err ← or_panic (message w batch (codes " Indexer: cannot process block ")) err
    let updated_batch = record batch { updated_at = some (w.updated i) }
    err ← on_batches (update_batch batch_dao updated_batch)
    err ←
        or_panic
          (message w updated_batch (codes " Indexer: cannot update batch for process block ")) err
    pure updated_batch

  -- The loop, on fuel, from round `i` on. A block that cannot be fetched ends it. The stop channel
  -- does not: the `break` of its `select` leaves the `select` alone. FetchABlock has switched the
  -- IPC where it returns an error.
  unfoldable pub batch_index : ℕ → Rounds → ℕ → BatchStatus → Action Databases BatchStatus
  batch_index zero w i batch = lift diverges
  batch_index (suc fuel) w i batch = do
    done ← lift (is_done batch)
    elim done [
      | true ↦ pure batch
      | false ↦ do
        (block_number, batch') ← lift (next batch)
        elim (w.fetch_a_block i block_number) [
          | inl err ↦ pure batch'
          | inr block_detail ↦ do
            updated_batch ← process_round w i block_detail batch'
            batch_index fuel w (i + 1) updated_batch
        ]
    ]

  -- batchIndex: the connection, and the loop over it. A node that cannot be dialled leaves the batch
  -- as it is. The last of the result is whether the connection switches the IPC.
  unfoldable pub start_batch :
      (Bytes → Error ⊎ EthClient)
      → Bytes
      → ℕ
      → Rounds
      → BatchStatus
      → Databases
      → (Outcome BatchStatus × Databases) × Bool
  start_batch dial ipc_path fuel w batch db =
      let (fetcher, switched) = new_chain_fetch dial ipc_path in
      elim fetcher [
        | inl err ↦ ((ok batch, db), switched)
        | inr chain_fetch ↦ (batch_index fuel w 0 batch db, switched)
      ]
