-- ===== src/Types/Batch.antt =====
-- core/types/batch_status.go: the methods of BatchStatus.
use account_indexer.Common.{ℕ, ◌+◌, ◌<◌, ◌^◌, Bool, false, none, some, ◌≡◌, arith}
use account_indexer.Common.Int.{ℤ, pos, ◌+ℤ◌, ltb_ℤ, int64}
use account_indexer.Common.Outcome.{Outcome, ok, deref, ◌>>=◌}
use account_indexer.Types.{BatchStatus}

-- current + step, computed in int64.
unfoldable pub advance : ℤ → ℕ → ℤ
advance current step = int64 (int64 current +ℤ pos step)

unfoldable pub is_done : BatchStatus → Outcome Bool
is_done bs = elim bs.current [
  | none ↦ ok false
  | some current ↦ do
    let following = advance current bs.step
    to ← deref bs.to
    ok (ltb_ℤ (int64 to) following)
]

-- The number of the next block, and the batch that the pointer receiver leaves.
unfoldable pub next : BatchStatus → Outcome (ℤ × BatchStatus)
next bs = elim bs.current [
  | none ↦ do from ← deref bs.from; ok (from, record bs { current = some from })
  | some current ↦ let n = advance current bs.step in ok (n, record bs { current = some n })
]

pub advance_small : (c step : ℕ) → c + step < 2 ^ 63 → advance (pos c) step ≡ pos (c + step)
unfolding advance int64 ◌+ℤ◌
advance_small c step h = ground arith
