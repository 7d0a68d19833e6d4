-- ===== src/Repo/Batches/Saved.antt =====
-- What is saved of a batch, and what ReplaceBatch does.
use account_indexer.Common.{
  ℕ, ◌<◌, ◌^◌, Bytes, true, false, ◌++◌, ◌==◌, Option, none, some, ◌≡◌, refl, ap, arith,
}
use account_indexer.Common.Int.{ℤ, pos}
use account_indexer.Common.Outcome.{ok, deref}
use account_indexer.Types.{BatchStatus}
use account_indexer.DateTime.Laws.{InRange}
use account_indexer.Dao.{KeyValueDao, new_key_value}
use account_indexer.Dao.Order.{upsert}
use account_indexer.Dao.Contract.{View, IsKeyValueDao}
use account_indexer.Dao.Iterate.Pages.{page}
use account_indexer.Marshal.Batch.{
  marshall_batch_key, marshall_batch_key_from, marshall_batch_value,
}
use account_indexer.Marshal.Batch.RoundTrip.{
  unmarshall_batch_key-marshall_batch_key, unmarshall_batch_value-marshall_batch_value,
}
use account_indexer.Repo.Store.Effect.{NeverFails}
use account_indexer.Repo.Batches.Read.{with_progress, key_value_to_batch_status}
use account_indexer.Go.BigInt.{to_bytes}
use account_indexer.DateTime.{marshall_time}
use account_indexer.Repo.Batches.{
  is_nil, is_invalid, put_batch, update_batch, replace_first, replace_batch,
}

-- A batch that is under way.
abbrev pub running : ℕ → ℕ → ℕ → ℤ → ℕ → ℕ → BatchStatus
running from to step created_at current updated_at = record {
  from = some (pos from);
  to = some (pos to);
  created_at = some created_at;
  step = step;
  current = some (pos current);
  updated_at = some (pos updated_at);
}

abbrev pub batch_key : BatchStatus → Bytes
batch_key b = marshall_batch_key b.from b.to b.step b.created_at

step_is_set : (step : ℕ) → 0 < step → (step == 0) ≡ false
step_is_set step h = ground arith

-- A record of a batch that is under way.
pub read_saved :
    (from to step : ℕ) (created_at : ℤ) (current updated_at : ℕ)
    → from < 10 ^ 9
    → to < 10 ^ 9
    → InRange updated_at
    → key_value_to_batch_status (
        new_key_value
          (batch_key (running from to step created_at current updated_at))
          (marshall_time (some (pos updated_at)) ++ to_bytes (pos current)))
      ≡ ok (running from to step created_at current updated_at)
unfolding key_value_to_batch_status with_progress marshall_batch_value deref
read_saved from to step created_at current updated_at hf ht hu =
    let value_read = unmarshall_batch_value-marshall_batch_value updated_at current hu in
    rw (unmarshall_batch_key-marshall_batch_key from to step created_at hf ht, value_read) refl

module _ (bd : KeyValueDao) (vb : View bd) (hb : IsKeyValueDao bd vb) where
  -- ReplaceBatch never replaces anything: for no numbers does it change the database or return an
  -- error, over any store that keeps its promises.
  pub replace_batch_does_nothing :
      (from new_to : Option ℤ) (db : bd.Db) → replace_batch bd from new_to db ≡ (ok none, db)
  unfolding replace_batch replace_first page
  replace_batch_does_nothing from new_to db =
      rw (hb.find_by_key_prefix_lem (marshall_batch_key_from from) true (pos 0) (pos 0) db) refl

  -- UpdateBatch on a batch that is under way: it ends without an error, and under the key of the
  -- batch the database has a record that is read as the batch. It is assumed that the store keeps
  -- its promises and does not fail, that the step is not 0, that the block numbers have at most nine
  -- digits, and that the update time has four bytes.
  pub update_batch_saves :
      (from to step : ℕ) (created_at : ℤ) (current updated_at : ℕ) (db : bd.Db)
      → NeverFails bd
      → 0 < step
      → from < 10 ^ 9
      → to < 10 ^ 9
      → InRange updated_at
      → let b = running from to step created_at current updated_at in
        let r = update_batch bd b db in
        (r.0 ≡ ok none)
        × ((v : Bytes) × (vb.contents r.1 ≡ upsert (new_key_value (batch_key b) v) (vb.contents db))
            × (key_value_to_batch_status (new_key_value (batch_key b) v) ≡ ok b))
  unfolding update_batch put_batch is_invalid is_nil marshall_batch_value deref
  update_batch_saves from to step created_at current updated_at db fb hs hf ht hu =
      let key = batch_key (running from to step created_at current updated_at) in
      let v = marshall_time (some (pos updated_at)) ++ to_bytes (pos current) in
      let kv = new_key_value key v in
      rw (step_is_set step hs) (
        ap ok (fb.put_ok kv db),
        (
          v,
          hb.put_lem kv db (fb.put_ok kv db),
          read_saved from to step created_at current updated_at hf ht hu,
        ),
      )
