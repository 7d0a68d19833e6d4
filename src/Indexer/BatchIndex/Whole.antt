-- ===== src/Indexer/BatchIndex/Whole.antt =====
-- A batch of a new database, from its first block to its last.
use account_indexer.Common.{
  ℕ, zero, suc, ◌+◌, ◌*◌, ◌-◌, ◌<◌, ◌≤◌, ◌^◌, List, none, some, inr, ◌≡◌, ap, ◌∙◌, arith,
}
use account_indexer.Common.Int.{ℤ, pos}
use account_indexer.Common.Outcome.{ok, deref}
use account_indexer.Geth.{Geth}
use account_indexer.Types.{BlockDetail, BatchStatus}
use account_indexer.Types.Batch.{is_done, next}
use account_indexer.Dao.{KeyValue, KeyValueDao}
use account_indexer.Dao.Order.{upsert_all}
use account_indexer.Dao.Contract.{View, IsKeyValueDao}
use account_indexer.Repo.Store.Effect.{NeverFails}
use account_indexer.Indexer.Process.Reorg.{records}
use account_indexer.Indexer.Batches.{init_batch}
use account_indexer.Indexer.Batches.Visits.{due, fresh_batch}
use account_indexer.Indexer.BatchIndex.{Databases, Rounds, process_round, batch_index}
use account_indexer.Indexer.BatchIndex.Records.{
  reached, written, last_update, last_block, loop_effect, round_effect,
}
use native.Mathlib.Nat.{mod-add-div', mod-lt, div-le_self}

module _ (g : Geth) (ad bd td : KeyValueDao) (va : View ad) (vb : View bd)
    (ha : IsKeyValueDao ad va) (hb : IsKeyValueDao bd vb) (fa : NeverFails ad) (fb : NeverFails bd)
    (ft : NeverFails td) (w : Rounds g ad bd td) (block : ℕ → ℤ → BlockDetail) where
  -- The address records of the blocks of a batch: of `first`, and then of `n` more.
  abbrev pub batch_records : ℕ → ℕ → ℕ → ℤ → ℕ → List KeyValue → List KeyValue
  batch_records first latest num_batch now n m =
      written g ad bd td va vb ha hb fa fb ft w block first latest num_batch now 1 first n
        (upsert_all (records g (block 0 (pos first))) m)

  -- The batch at its end.
  abbrev pub finished : ℕ → ℕ → ℕ → ℤ → ℕ → BatchStatus
  finished first latest num_batch now n =
      reached first latest num_batch now
        (last_block g ad bd td va vb ha hb fa fb ft w block first latest num_batch now first n)
        (last_update g ad bd td va vb ha hb fa fb ft w block first latest num_batch now 1 n
          (some (w.updated 0)))

  run_fresh :
      (n fuel first latest num_batch : ℕ) (now : ℤ) (db : Databases g ad bd td)
      → ((i : ℕ) (b : ℤ) → w.fetch_a_block i b ≡ inr (block i b))
      → 0 < num_batch
      → num_batch < 256
      → latest < 2 ^ 62
      → first + n * num_batch ≤ latest
      → latest < first + (n * num_batch + num_batch)
      → n < fuel
      → let r =
          batch_index g ad bd td
            (suc fuel)
            w
            0
            (record (reached first latest num_batch now 0 none) { current = none })
            db in
        (r.0 ≡ ok (finished first latest num_batch now n))
        × (va.contents r.1.index_repo.address_db
            ≡ batch_records first latest num_batch now n (va.contents db.index_repo.address_db))
        × (vb.contents r.1.index_repo.block_db ≡ vb.contents db.index_repo.block_db)
  unfolding batch_index is_done next deref
  run_fresh n fuel first latest num_batch now db fetched h0 hs ht lo hi hf =
      let r =
        process_round g ad bd td w 0 (block 0 (pos first))
          (reached first latest num_batch now first none) db in
      let (e, a, k) =
        round_effect g ad bd td va vb ha hb fa fb ft w 0 (block 0 (pos first)) first latest
          num_batch now first none db h0 in
      let (e', a', k') =
        loop_effect g ad bd td va vb ha hb fa fb ft w block first latest num_batch now n fuel 1
          first (some (w.updated 0)) r.1 fetched h0 hs ht lo hi hf in
      rw (fetched 0 (pos first), e)
        (
          e',
          a'
              ∙ ap
                  (written g ad bd td va vb ha hb fa fb ft w block first latest num_batch now 1
                    first n)
                  a,
          k' ∙ k,
        )

  -- The loop of batchIndex on batch `k` of GetInitBatches, where every block can be fetched: it ends
  -- without a panic, the address database holds the records of the batch's blocks, written one block
  -- after another, the block database is as before, and the batch is at its last block. Two rounds
  -- more than the latest block's number are enough fuel. It is assumed that the stores keep their
  -- promises and do not fail, that there are between 1 and 255 batches, that the first block is not
  -- past the latest, and that the latest is below 2 ^ 62.
  pub batch_index-init_batch :
      (num_batch genesis latest k fuel : ℕ) (now : ℤ) (db : Databases g ad bd td)
      → ((i : ℕ) (b : ℤ) → w.fetch_a_block i b ≡ inr (block i b))
      → 0 < num_batch
      → num_batch < 256
      → latest < 2 ^ 62
      → genesis + k ≤ latest
      → latest + 2 ≤ fuel
      → let first = genesis + k in
        let n = due first latest num_batch in
        let r =
          batch_index g ad bd td fuel w 0
            (init_batch num_batch (pos genesis) (pos latest) now k)
            db in
        (r.0 ≡ ok (finished first latest num_batch now n))
        × (va.contents r.1.index_repo.address_db
            ≡ batch_records first latest num_batch now n (va.contents db.index_repo.address_db))
        × (vb.contents r.1.index_repo.block_db ≡ vb.contents db.index_repo.block_db)
  batch_index-init_batch num_batch genesis latest k zero now db fetched h0 hs ht hl hf =
      absurd (omega (arith, hf))
  batch_index-init_batch num_batch genesis latest k (suc fuel) now db fetched h0 hs ht hl hf =
      let first = genesis + k in
      let n = due first latest num_batch in
      let whole = mod-add-div' (latest - first) num_batch in
      let short = mod-lt (latest - first) h0 in
      rw (fresh_batch num_batch genesis latest k now hs) (
        run_fresh n fuel first latest num_batch now db fetched h0 hs ht (omega (arith, whole, hl))
          (omega (arith, whole, short, hl))
          (omega (arith, hf, div-le_self (latest - first) num_batch)))
