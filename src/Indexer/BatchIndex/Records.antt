-- ===== src/Indexer/BatchIndex/Records.antt =====
-- What a batch leaves in the databases.
use account_indexer.Common.{
  ℕ, zero, suc, ◌+◌, ◌*◌, ◌<◌, ◌≤◌, ◌==◌, ◌^◌, false, List, Option, none, some, inr, ◌≡◌, refl, ap,
  ◌∙◌, arith,
}
use account_indexer.Common.Int.{ℤ, pos, int64_small}
use account_indexer.Common.Outcome.{ok, deref}
use account_indexer.Geth.{Geth}
use account_indexer.Types.{BlockDetail, BatchStatus}
use account_indexer.Types.Batch.{is_done, next}
use account_indexer.Dao.{KeyValue, KeyValueDao}
use account_indexer.Dao.Order.{upsert_all}
use account_indexer.Dao.Contract.{View, IsKeyValueDao}
use account_indexer.Marshal.Batch.{marshall_batch_value}
use account_indexer.Repo.Store.Effect.{NeverFails}
use account_indexer.Repo.Batches.{update_batch, put_batch, is_invalid, is_nil}
use account_indexer.Indexer.Process.Batched.{process_block_batch}
use account_indexer.Indexer.Process.Reorg.{records}
use account_indexer.Indexer.Batches.Visits.{next_after, past, before}
use account_indexer.Indexer.BatchIndex.{Databases, Rounds, process_round, batch_index}
use native.Mathlib.Nat.{suc-mul}

-- A batch that is at block `c`.
abbrev pub reached : ℕ → ℕ → ℕ → ℤ → ℕ → Option ℤ → BatchStatus
reached from to step created_at c updated_at = record {
  from = some (pos from);
  to = some (pos to);
  created_at = some created_at;
  step = step;
  current = some (pos c);
  updated_at = updated_at;
}

step_is_set : (step : ℕ) → 0 < step → (step == 0) ≡ false
step_is_set step h = ground arith

module _ (g : Geth) (ad bd td : KeyValueDao) (va : View ad) (vb : View bd)
    (ha : IsKeyValueDao ad va) (hb : IsKeyValueDao bd vb) (fa : NeverFails ad) (fb : NeverFails bd)
    (ft : NeverFails td) where
  saved :
      (from to step : ℕ) (created_at : ℤ) (c : ℕ) (u : Option ℤ) (db : td.Db)
      → 0 < step
      → (update_batch td (reached from to step created_at c u) db).0 ≡ ok none
  unfolding update_batch put_batch is_invalid is_nil marshall_batch_value deref
  saved from to step created_at c u db hs = rw (step_is_set step hs) (ap ok (ft.put_ok _ db))

  pub round_effect :
      (w : Rounds g ad bd td) (i : ℕ) (b : BlockDetail) (from to step : ℕ) (created_at : ℤ) (c : ℕ)
      (u : Option ℤ) (db : Databases g ad bd td)
      → 0 < step
      → let r = process_round g ad bd td w i b (reached from to step created_at c u) db in
        (r.0 ≡ ok (reached from to step created_at c (some (w.updated i))))
        × (va.contents r.1.index_repo.address_db
            ≡ upsert_all (records g b) (va.contents db.index_repo.address_db))
        × (vb.contents r.1.index_repo.block_db ≡ vb.contents db.index_repo.block_db)
  unfolding process_round
  round_effect w i b from to step created_at c u db hs =
      let (e, a, k) =
        process_block_batch g ad bd va vb ha hb fa fb (w.now i) (w.order i) b db.index_repo in
      rw (e, saved from to step created_at c (some (w.updated i)) db.batch_db hs, process_round)
        (refl, a, k)

  module _ (w : Rounds g ad bd td) (block : ℕ → ℤ → BlockDetail) (from to step : ℕ)
      (created_at : ℤ) where
    -- The address records of `n` blocks, each written over the ones before, from round `i` on.
    abbrev pub written : ℕ → ℕ → ℕ → List KeyValue → List KeyValue
    written i c zero m = m
    written i c (suc n) m =
        written (i + 1) (c + step) n (upsert_all (records g (block i (pos (c + step)))) m)

    abbrev pub last_update : ℕ → ℕ → Option ℤ → Option ℤ
    last_update i zero u = u
    last_update i (suc n) u = last_update (i + 1) n (some (w.updated i))

    abbrev pub last_block : ℕ → ℕ → ℕ
    last_block c zero = c
    last_block c (suc n) = last_block (c + step) n

    pub loop_effect :
        (n fuel i c : ℕ) (u : Option ℤ) (db : Databases g ad bd td)
        → ((i : ℕ) (b : ℤ) → w.fetch_a_block i b ≡ inr (block i b))
        → 0 < step
        → step < 256
        → to < 2 ^ 62
        → c + n * step ≤ to
        → to < c + (n * step + step)
        → n < fuel
        → let r = batch_index g ad bd td fuel w i (reached from to step created_at c u) db in
          (r.0 ≡ ok (reached from to step created_at (last_block c n) (last_update i n u)))
          × (va.contents r.1.index_repo.address_db
              ≡ written i c n (va.contents db.index_repo.address_db))
          × (vb.contents r.1.index_repo.block_db ≡ vb.contents db.index_repo.block_db)
    unfolding batch_index is_done next deref
    loop_effect n zero i c u db fetched hs hb ht lo hi hf = absurd (omega (arith, hf))
    loop_effect zero (suc fuel) i c u db fetched hs hb ht lo hi hf =
        rw
          (
            next_after c step (omega (arith, lo, ht)) hb,
            int64_small to (omega (arith, ht)),
            past c step to (omega (arith, hi)),
          )
          (refl, refl, refl)
    loop_effect (suc n) (suc fuel) i c u db fetched hs hb ht lo hi hf =
        let b = block i (pos (c + step)) in
        let r = process_round g ad bd td w i b (reached from to step created_at (c + step) u) db in
        let (e, a, k) = round_effect w i b from to step created_at (c + step) u db hs in
        let (e', a', k') =
          loop_effect n fuel (i + 1) (c + step) (some (w.updated i)) r.1 fetched hs hb ht
            (omega (arith, lo, suc-mul n step)) (omega (arith, hi, suc-mul n step))
            (omega (arith, hf)) in
        rw
          (
            next_after c step (omega (arith, lo, ht, suc-mul n step)) hb,
            int64_small to (omega (arith, ht)),
            before c step to (omega (arith, lo, suc-mul n step)),
            next_after c step (omega (arith, lo, ht, suc-mul n step)) hb,
            fetched i (pos (c + step)),
            next_after c step (omega (arith, lo, ht, suc-mul n step)) hb,
            e,
          )
          (e', a' ∙ ap (written (i + 1) (c + step) n) a, k' ∙ k)
