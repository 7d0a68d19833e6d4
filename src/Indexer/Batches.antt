-- ===== src/Indexer/Batches.antt =====
-- indexer.go: GetInitBatches, and the numbers that batchIndex asks for.
pub mod Visits
pub mod Once
use account_indexer.Common.{
  ℕ, zero, suc, ◌+◌, ◌%◌, Bytes, Bool, true, false, List, [], ◌∷◌, Option, none, some,
  if◌then◌else◌,
}
use account_indexer.Common.Int.{ℤ, pos, ◌+ℤ◌}
use account_indexer.Common.Outcome.{Outcome, ok, diverges, ◌>>=◌}
use account_indexer.Types.{BatchStatus}
use account_indexer.Types.Batch.{is_done, next}

-- A batch that has not been started; `byte(numBatch)` keeps the last eight bits.
unfoldable pub init_batch : ℕ → ℤ → ℤ → ℤ → ℕ → BatchStatus
init_batch num_batch genesis_block latest_block now i = record {
  from = some (genesis_block +ℤ pos i);
  to = some latest_block;
  created_at = some now;
  step = num_batch % 256;
  current = none;
  updated_at = none;
}

-- The loop of GetInitBatches, from `i` on, for `k` more rounds.
unfoldable pub init_batches_from : ℕ → ℤ → ℤ → ℤ → ℕ → ℕ → List BatchStatus
init_batches_from num_batch genesis_block latest_block now i zero = []
init_batches_from num_batch genesis_block latest_block now i (suc k) =
    init_batch num_batch genesis_block latest_block now i
    ∷ init_batches_from num_batch genesis_block latest_block now (i + 1) k

-- `now` is the clock.
unfoldable pub get_init_batches : ℕ → ℤ → ℤ → ℤ → List BatchStatus
get_init_batches num_batch genesis_block latest_block now =
    init_batches_from num_batch genesis_block latest_block now 0 num_batch

-- The block numbers that the loop of batchIndex asks for, where each block can be fetched and
-- processed: `for !batch.IsDone() { blockNumber := batch.Next(); … }`. The loop is run on fuel.
unfoldable pub visits : ℕ → BatchStatus → Outcome (List ℤ)
visits zero batch = diverges
visits (suc fuel) batch = do
  done ← is_done batch
  elim done [
    | true ↦ ok []
    | false ↦ do
      (block_number, batch') ← next batch
      rest ← visits fuel batch'
      ok (block_number ∷ rest)
  ]
