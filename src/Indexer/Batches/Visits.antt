-- ===== src/Indexer/Batches/Visits.antt =====
-- Which blocks the batches of a new database ask for.
use account_indexer.Common.{
  ℕ, zero, suc, ◌+◌, ◌-◌, ◌*◌, ◌/◌, ◌%◌, ◌^◌, ◌≤◌, ◌<◌, true, false, List, [], ◌∷◌, none, some, ◌≡◌,
  refl, ap, ◌∙◌, arith,
}
use account_indexer.Common.Int.{ℤ, pos, ◌+ℤ◌, ltb_ℤ, int64_small}
use account_indexer.Common.Outcome.{ok, deref}
use native.Mathlib.Nat.{suc-mul, mod-add-div', mod-lt, div-le_self}
use account_indexer.Types.{BatchStatus}
use account_indexer.Types.Batch.{is_done, next, advance, advance_small}
use account_indexer.Indexer.Batches.{init_batch, visits}

-- A batch that is at block `c`.
abbrev pub at_block : ℕ → ℕ → ℕ → ℤ → ℕ → BatchStatus
at_block from to step created_at c = record {
  from = some (pos from);
  to = some (pos to);
  created_at = some created_at;
  step = step;
  current = some (pos c);
  updated_at = none;
}

-- `n` numbers, each `step` after the one before, the first `step` after `c`.
abbrev pub every : ℕ → ℕ → ℕ → List ℤ
every step c zero = []
every step c (suc n) = pos (c + step) ∷ every step (c + step) n

pub next_after : (c step : ℕ) → c < 2 ^ 62 → step < 256 → advance (pos c) step ≡ pos (c + step)
next_after c step hc hs = advance_small c step (omega (arith, hc, hs))

pub past : (c step to : ℕ) → to < c + step → ltb_ℤ (pos to) (pos (c + step)) ≡ true
past c step to h = ground (arith, h)

pub before : (c step to : ℕ) → c + step ≤ to → ltb_ℤ (pos to) (pos (c + step)) ≡ false
before c step to h = ground (arith, h)

-- From block `c` on, where `n` more blocks are due.
visits_on :
    (n fuel from to step : ℕ) (created_at : ℤ) (c : ℕ)
    → step < 256
    → to < 2 ^ 62
    → c + n * step ≤ to
    → to < c + (n * step + step)
    → n < fuel
    → visits fuel (at_block from to step created_at c) ≡ ok (every step c n)
unfolding visits is_done next deref
visits_on n zero from to step created_at c hb ht lo hi hf = absurd (omega (arith, hf))
visits_on zero (suc fuel) from to step created_at c hb ht lo hi hf =
    rw
      (
        next_after c step (omega (arith, lo, ht)) hb,
        int64_small to (omega (arith, ht)),
        past c step to (omega (arith, hi)),
      )
      refl
visits_on (suc n) (suc fuel) from to step created_at c hb ht lo hi hf =
    rw
      (
        next_after c step (omega (arith, lo, ht, suc-mul n step)) hb,
        int64_small to (omega (arith, ht)),
        before c step to (omega (arith, lo, suc-mul n step)),
        next_after c step (omega (arith, lo, ht, suc-mul n step)) hb,
        visits_on n fuel from to step created_at (c + step) hb ht
            (omega (arith, lo, suc-mul n step)) (omega (arith, hi, suc-mul n step))
            (omega (arith, hf)),
      )
      refl

started :
    (n fuel from to step : ℕ) (created_at : ℤ)
    → step < 256
    → to < 2 ^ 62
    → from + n * step ≤ to
    → to < from + (n * step + step)
    → n < fuel
    → visits (suc fuel) (record (at_block from to step created_at 0) { current = none })
      ≡ ok (pos from ∷ every step from n)
unfolding visits is_done next deref
started n fuel from to step created_at hb ht lo hi hf =
    rw (visits_on n fuel from to step created_at from hb ht lo hi hf) refl

-- How many blocks of the step lie after `from`, up to `to`.
abbrev pub due : ℕ → ℕ → ℕ → ℕ
due from to step = (to - from) / step

pub fresh_batch :
    (num_batch genesis latest i : ℕ) (now : ℤ)
    → num_batch < 256
    → init_batch num_batch (pos genesis) (pos latest) now i
      ≡ record (at_block (genesis + i) latest num_batch now 0) { current = none }
unfolding init_batch ◌+ℤ◌
fresh_batch num_batch genesis latest i now h =
    let step_kept : num_batch % 256 ≡ num_batch = ground arith in
    let sum : pos genesis +ℤ pos i ≡ pos (genesis + i) = ground arith in rw (step_kept, sum) refl

-- The loop of batchIndex, where each block can be fetched and processed, asks for the first block
-- of a batch of GetInitBatches and then for every `num_batch`-th one up to the latest block, that
-- one included, and then ends: two rounds more than the latest block's number are enough fuel. It
-- is assumed that there are between 1 and 255 batches, that the first block is not past the latest,
-- and that the latest is below 2 ^ 62.
pub visits-init_batch :
    (num_batch genesis latest i fuel : ℕ) (now : ℤ)
    → 0 < num_batch
    → num_batch < 256
    → latest < 2 ^ 62
    → genesis + i ≤ latest
    → latest + 2 ≤ fuel
    → visits fuel (init_batch num_batch (pos genesis) (pos latest) now i)
      ≡ ok (pos (genesis + i) ∷ every num_batch (genesis + i) (due (genesis + i) latest num_batch))
visits-init_batch num_batch genesis latest i zero now h0 hb ht hl hf = absurd (omega (arith, hf))
visits-init_batch num_batch genesis latest i (suc fuel) now h0 hb ht hl hf =
    let first = genesis + i in
    let n = due first latest num_batch in
    let whole = mod-add-div' (latest - first) num_batch in
    let short = mod-lt (latest - first) h0 in
    ap (visits (suc fuel)) (fresh_batch num_batch genesis latest i now hb)
    ∙ started n fuel first latest num_batch now hb ht (omega (arith, whole, hl))
        (omega (arith, whole, short, hl))
        (omega (arith, hf, div-le_self (latest - first) num_batch))
