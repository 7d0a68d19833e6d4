-- ===== src/Repo/Batches.antt =====
-- batch_repo.go: the repository of batch statuses.
pub mod Read
pub mod Saved
use account_indexer.Common.{
  ℕ, Bytes, Bool, true, false, ◌||◌, ◌==◌, List, [], ◌∷◌, Option, none, some, codes, if◌then◌else◌,
}
use account_indexer.Common.Int.{ℤ, pos}
use account_indexer.Common.Outcome.{Error, Outcome, ok, traverse}
use account_indexer.Common.Action.{Action, pure, lift, ◌>>=◌}
use account_indexer.Types.{BatchStatus}
use account_indexer.Repo.Batches.Read.{key_value_to_batch_status}
use account_indexer.Dao.{KeyValue, KeyValueDao, new_key_value}
use account_indexer.Marshal.Batch.{
  marshall_batch_key, marshall_batch_key_from, marshall_batch_value, unmarshall_batch_key,
  unmarshall_batch_value,
}

unfoldable pub is_nil {ℓ} : {A : Type ℓ} → Option A → Bool
is_nil none = true
is_nil (some a) = false

-- The test of UpdateBatch.
unfoldable pub is_invalid : BatchStatus → Bool
is_invalid batch =
    is_nil batch.from || (is_nil batch.to || (batch.step == 0 || is_nil batch.created_at))

-- The message of the error goes on with the batch.
abbrev pub invalid_batch : Error
invalid_batch = codes "Batch is not valid, value:"

module _ (batch_dao : KeyValueDao) where
  unfoldable pub get_all_batch_statuses : batch_dao.Db → Outcome (List BatchStatus)
  get_all_batch_statuses db = traverse key_value_to_batch_status (batch_dao.get_all_records db)

  unfoldable pub put_batch : KeyValue → batch_dao.Db → Outcome (Option Error) × batch_dao.Db
  put_batch kv db = let (err, db') = batch_dao.put kv db in (ok err, db')

  unfoldable pub update_batch : BatchStatus → Action batch_dao.Db (Option Error)
  update_batch batch = if is_invalid batch then pure (some invalid_batch) else do
    let key = marshall_batch_key batch.from batch.to batch.step batch.created_at
    value ← lift (marshall_batch_value batch.updated_at batch.current)
    put_batch (new_key_value key value)

  delete_batch : Bytes → Action batch_dao.Db (Option Error)
  delete_batch key db = let (err, db') = batch_dao.delete_by_key key db in (ok err, db')

  -- The error of the deletion is dropped.
  unfoldable pub replace_found : Option ℤ → BatchStatus → Action batch_dao.Db (Option Error)
  unfolding delete_batch
  replace_found new_to batch = do
    err ← delete_batch (marshall_batch_key batch.from batch.to batch.step batch.created_at)
    update_batch (record batch { to = new_to })

  unfoldable pub replace_first : Option ℤ → List KeyValue → Action batch_dao.Db (Option Error)
  replace_first new_to [] = pure none
  replace_first new_to (kv ∷ kvs) = do
    batch ← lift (key_value_to_batch_status kv)
    replace_found new_to batch

  -- It asks for the batches whose key starts with the number, zero rows of them.
  unfoldable pub replace_batch : Option ℤ → Option ℤ → Action batch_dao.Db (Option Error)
  replace_batch from new_to db =
      let (total, key_values) =
        batch_dao.find_by_key_prefix (marshall_batch_key_from from) true (pos 0) (pos 0) db in
      replace_first new_to key_values db
