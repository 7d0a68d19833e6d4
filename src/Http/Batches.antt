-- ===== src/Http/Batches.antt =====
-- server.go: a batch as getBatchStatus shows it.
use account_indexer.Common.{Bytes, [], Option, none, some}
use account_indexer.Common.Int.{ℤ}
use account_indexer.Common.Outcome.{Outcome, ok, deref, ◌>>=◌}
use account_indexer.Go.BigInt.{string}
use account_indexer.Types.{BatchStatus}
use account_indexer.DateTime.{unmarshall_int_to_time}
use account_indexer.Http.Types.{EiBatchStatus}

unfoldable pub current_text : Option ℤ → Bytes
current_text none = []
current_text (some n) = string n

-- A batch with no time of an update is a panic.
unfoldable pub to_ei_batch : BatchStatus → Outcome EiBatchStatus
to_ei_batch batch = do
  created_at ← deref batch.created_at
  updated_at ← deref batch.updated_at
  ok (record {
    from = batch.from;
    to = batch.to;
    step = batch.step;
    current = current_text batch.current;
    created_at = unmarshall_int_to_time created_at;
    updated_at = unmarshall_int_to_time updated_at;
  })
