-- ===== src/Repo/Batches/Read.antt =====
-- batch_repo.go: the batch that a record holds.
use account_indexer.Common.Outcome.{Outcome, ok, ◌>>=◌}
use account_indexer.Types.{BatchStatus}
use account_indexer.Dao.{KeyValue}
use account_indexer.Marshal.Batch.{unmarshall_batch_key, unmarshall_batch_value}

-- What the key says, with the progress that the value holds.
unfoldable pub with_progress : BatchStatus → BatchStatus → BatchStatus
with_progress batch1 batch2 = record {
  from = batch1.from;
  to = batch1.to;
  step = batch1.step;
  created_at = batch1.created_at;
  updated_at = batch2.updated_at;
  current = batch2.current;
}

-- keyValueToBatchStatus and getBatchStatus
unfoldable pub key_value_to_batch_status : KeyValue → Outcome BatchStatus
key_value_to_batch_status kv = do
  batch1 ← unmarshall_batch_key kv.key
  batch2 ← unmarshall_batch_value kv.value
  ok (with_progress batch1 batch2)
