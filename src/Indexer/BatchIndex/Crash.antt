-- ===== src/Indexer/BatchIndex/Crash.antt =====
-- A batch that stops between the processing of a block and the update of its record.
use account_indexer.Common.{
  ℕ, zero, suc, ◌+◌, ◌*◌, ◌-◌, ◌<◌, ◌≤◌, ◌^◌, true, List, Option, inr, ◌≡◌, sym, ap, ◌∙◌, arith,
  some,
}
use account_indexer.Common.Int.{ℤ, pos}
use account_indexer.Common.Outcome.{Outcome, ok, panic, diverges}
use account_indexer.Geth.{Geth}
use account_indexer.Types.{BlockDetail, BatchStatus}
use account_indexer.Dao.{KeyValue, KeyValueDao}
use account_indexer.Dao.Apart.{Same, upsert_all-Same, upsert_all_twice}
use account_indexer.Dao.Order.{lookup_key, upsert_all}
use account_indexer.Dao.Contract.{View, IsKeyValueDao}
use account_indexer.Repo.Store.Effect.{NeverFails}
use account_indexer.Indexer.Data.{SequenceMap}
use account_indexer.Indexer.Process.{process_block}
use account_indexer.Indexer.Process.Batched.{process_block_batch}
use account_indexer.Indexer.Process.Reorg.{records}
use account_indexer.Indexer.Batches.Visits.{due}
use account_indexer.Indexer.BatchIndex.{Databases, Rounds, batch_index}
use account_indexer.Indexer.BatchIndex.Records.{reached, written, last_block, loop_effect}
use native.Mathlib.Nat.{suc-mul, mod-add-div', mod-lt, div-le_self, le-div_iff_mul-le}

-- The block that a batch ends at.
abbrev pub ends_at : Outcome BatchStatus → Outcome (Option ℤ)
ends_at (ok batch) = ok batch.current
ends_at (panic e) = panic e
ends_at diverges = diverges

module _ (g : Geth) (ad bd td : KeyValueDao) (va : View ad) (vb : View bd)
    (ha : IsKeyValueDao ad va) (hb : IsKeyValueDao bd vb) (fa : NeverFails ad) (fb : NeverFails bd)
    (ft : NeverFails td) (w w' : Rounds g ad bd td) (block : ℤ → BlockDetail) (from to step : ℕ)
    (created_at : ℤ) where
  abbrev put : Rounds g ad bd td → ℕ → ℕ → ℕ → List KeyValue → List KeyValue
  put w = written g ad bd td va vb ha hb fa fb ft w (λ i n. block n) from to step created_at

  abbrev last : Rounds g ad bd td → ℕ → ℕ → ℕ
  last w = last_block g ad bd td va vb ha hb fa fb ft w (λ i n. block n) from to step created_at

  put-Same : (n i c : ℕ) (m m' : List KeyValue) → Same m m' → Same (put w' i c n m) (put w i c n m')
  put-Same zero i c m m' h = h
  put-Same (suc n) i c m m' h =
      put-Same n (i + 1) (c + step) _ _
        (upsert_all-Same (records g (block (pos (c + step)))) m m' h)

  -- The records of the next block may stand there before.
  put_again :
      (n c : ℕ) (m : List KeyValue)
      → 0 < n
      → Same (put w' 0 c n (upsert_all (records g (block (pos (c + step)))) m)) (put w 0 c n m)
  put_again zero c m h = absurd (omega (arith, h))
  put_again (suc n) c m h =
      put-Same n 1 (c + step) _ _ (upsert_all_twice (records g (block (pos (c + step)))) m)

  last-eq : (v : Rounds g ad bd td) (n c : ℕ) → last v c n ≡ c + n * step
  last-eq v zero c = omega arith
  last-eq v (suc n) c = last-eq v n (c + step) ∙ omega (arith, suc-mul n step)

  -- The databases after the next block of the batch is processed, and before UpdateBatch.
  abbrev pub crashed :
      ℕ → ℤ → (SequenceMap → SequenceMap) → Databases g ad bd td → Databases g ad bd td
  crashed c now order db = record db {
    index_repo = (process_block g ad bd now order (block (pos (c + step))) true db.index_repo).1;
  }

  -- A batch that is at a block and stops between the processing of the next block and the update of
  -- its record runs, after a restart, to the same end as if it had not stopped: without a panic to
  -- its last block, with the same value under every key of the addresses and the same block database
  -- as the run that did not stop. Clocks and map orders may differ between the two. It is assumed
  -- that the node answers every number with the same block, that the next block is not past the
  -- batch's end, which is below 2 ^ 62, that the step is between 1 and 255, that there is more fuel
  -- than the last number, and that the stores keep their promises and do not fail.
  pub batch_index-crashed :
      (fuel c : ℕ) (u : Option ℤ) (now : ℤ) (order : SequenceMap → SequenceMap)
      (db : Databases g ad bd td)
      → ((i : ℕ) (b : ℤ) → w.fetch_a_block i b ≡ inr (block b))
      → ((i : ℕ) (b : ℤ) → w'.fetch_a_block i b ≡ inr (block b))
      → 0 < step
      → step < 256
      → to < 2 ^ 62
      → c + step ≤ to
      → to < fuel
      → let batch = reached from to step created_at c u in
        let r = batch_index g ad bd td fuel w' 0 batch (crashed c now order db) in
        let s = batch_index g ad bd td fuel w 0 batch db in
        let reads = ok (some (pos (c + due c to step * step))) in
        (ends_at r.0 ≡ reads)
        × (ends_at s.0 ≡ reads)
        × Same (va.contents r.1.index_repo.address_db) (va.contents s.1.index_repo.address_db)
        × (vb.contents r.1.index_repo.block_db ≡ vb.contents s.1.index_repo.block_db)
  batch_index-crashed fuel c u now order db fetched fetched' hs hb' ht lo hf =
      let n = due c to step in
      let whole = mod-add-div' (to - c) step in
      let short = mod-lt (to - c) hs in
      let le = div-le_self (to - c) step in
      let some_due : 0 < n = (le-div_iff_mul-le hs).1 (omega (arith, lo)) in
      let db' = crashed c now order db in
      let (_, p, q) =
        process_block_batch g ad bd va vb ha hb fa fb now order (block (pos (c + step)))
          db.index_repo in
      let (e, a, k) =
        loop_effect g ad bd td va vb ha hb fa fb ft w (λ i n. block n) from to step created_at n
          fuel 0 c u db fetched hs hb' ht (omega (arith, whole, lo))
          (omega (arith, whole, short, lo)) (omega (arith, le, hf)) in
      let (e', a', k') =
        loop_effect g ad bd td va vb ha hb fa fb ft w' (λ i n. block n) from to step created_at n
          fuel 0 c u db' fetched' hs hb' ht (omega (arith, whole, lo))
          (omega (arith, whole, short, lo)) (omega (arith, le, hf)) in
      (
        ap ends_at e' ∙ ap (λ x. ok (some (pos x))) (last-eq w' n c),
        ap ends_at e ∙ ap (λ x. ok (some (pos x))) (last-eq w n c),
        λ x.
            ap (lookup_key x) (a' ∙ ap (put w' 0 c n) p)
            ∙ put_again n c _ some_due x
            ∙ ap (lookup_key x) (sym a),
        k' ∙ q ∙ sym k,
      )
