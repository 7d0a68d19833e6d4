-- ===== src/Indexer/Batches/Once.antt =====
-- Each block is asked for once by the batches of a new database.
use account_indexer.Common.{
  ℕ, zero, suc, ◌+◌, ◌-◌, ◌*◌, ◌%◌, ◌^◌, ◌≤◌, ◌<◌, ◌==◌, Bool, true, false, ltb, List, [], ◌∷◌,
  Bool-cases, inl, inr, ◌≡◌, sym, ap, ◌∙◌, arith,
}
use account_indexer.Common.Int.{ℤ, pos, eq_ℤ}
use account_indexer.Common.Outcome.{ok}
use native.Mathlib.Nat.{suc-mul, mod-add-div', mod-lt, mod-eq_of_lt, mod-eq-sub-mod, mod-add-mod}
use account_indexer.Indexer.Batches.{init_batch, visits}
use account_indexer.Indexer.Batches.Visits.{every, due, visits-init_batch}

abbrev pub count_if : Bool → ℕ → ℕ
count_if true n = suc n
count_if false n = n

-- How often a number is in a list.
abbrev pub times : ℤ → List ℤ → ℕ
times m [] = 0
times m (b ∷ bs) = count_if (eq_ℤ b m) (times m bs)

times-below : (m c s n : ℕ) → m < c → times (pos m) (pos c ∷ every s c n) ≡ 0
times-below m c s zero h = ground (arith, h)
times-below m c s (suc n) h = ground (arith, times-below m (c + s) s n (omega (arith, h)))

apart : (c m : ℕ) → c < m → eq_ℤ (pos c) (pos m) ≡ false
apart c m h = ground (arith, h)

times-every :
    (m c s n : ℕ)
    → 0 < s
    → c ≤ m
    → m < c + (n * s + s)
    → times (pos m) (pos c ∷ every s c n) ≡ count_if ((m - c) % s == 0) 0
times-every m c s zero hs lo hi =
    let short : (m - c) % s ≡ m - c = mod-eq_of_lt (omega (arith, hi)) in ground (arith, lo, short)
times-every m c s (suc n) hs lo hi = elim (Bool-cases (ltb m (c + s))) [
  | inl near ↦
      let lt : m < c + s = ground (arith, near) in
      let short : (m - c) % s ≡ m - c = mod-eq_of_lt (omega (arith, lt)) in
      ground (arith, lo, short, times-below m (c + s) s n lt)
  | inr far ↦
      let le : c + s ≤ m = ground (arith, far) in
      let shift : (m - c) % s ≡ (m - c - s) % s = mod-eq-sub-mod (omega (arith, le)) in
      let rest = times-every m (c + s) s n hs le (omega (arith, hi, suc-mul n s)) in
      let same : m - c - s ≡ m - (c + s) = omega arith in
      ap (λ e. count_if e (times (pos m) (pos (c + s) ∷ every s (c + s) n)))
        (apart c m (omega (arith, le, hs)))
      ∙ rest
      ∙ ap (λ y. count_if (y % s == 0) 0) (sym same)
      ∙ ap (λ r. count_if (r == 0) 0) (sym shift)
]

-- The remainder of a number that has been moved by `j`.
moved : (x j s : ℕ) → j < s → (((x + j) % s) == j) ≡ (x % s == 0)
moved x j s h =
    let r = x % s in
    let lt : r < s = mod-lt x (omega (arith, h)) in
    let sum : (x + j) % s ≡ (r + j) % s = sym (mod-add-mod x s j) in
    elim (Bool-cases (ltb (r + j) s)) [
      | inl near ↦
          let small : (r + j) % s ≡ r + j = mod-eq_of_lt (ground (arith, near)) in
          rw (sum, small) (ground (arith, lt))
      | inr far ↦
          let le : s ≤ r + j = ground (arith, far) in
          let wrap : (r + j) % s ≡ (r + j - s) % s = mod-eq-sub-mod le in
          let small : (r + j - s) % s ≡ r + j - s = mod-eq_of_lt (omega (arith, lt, h)) in
          rw (sum, wrap, small) (ground (arith, lt, le, h))
    ]

-- The blocks of a batch.
abbrev pub blocks_of : ℕ → ℕ → ℕ → ℕ → List ℤ
blocks_of num_batch genesis latest i =
    pos (genesis + i) ∷ every num_batch (genesis + i) (due (genesis + i) latest num_batch)

times-blocks_of :
    (num_batch genesis latest i m : ℕ)
    → i < num_batch
    → genesis + i ≤ latest
    → genesis ≤ m
    → m ≤ latest
    → times (pos m) (blocks_of num_batch genesis latest i)
      ≡ count_if ((m - genesis) % num_batch == i) 0
times-blocks_of num_batch genesis latest i m hi hl lo hm =
    let first = genesis + i in
    let n = due first latest num_batch in
    elim (Bool-cases (ltb m first)) [
      | inl early ↦
          let lt : m < first = ground (arith, early) in
          let short : (m - genesis) % num_batch ≡ m - genesis =
            mod-eq_of_lt (omega (arith, lt, hi)) in
          times-below m first num_batch n lt ∙ ground (arith, short, lt, lo)
      | inr late ↦
          let le : first ≤ m = ground (arith, late) in
          let whole = mod-add-div' (latest - first) num_batch in
          let rest : (latest - first) % num_batch < num_batch = mod-lt _ (omega (arith, hi)) in
          let split : m - genesis ≡ (m - first) + i = omega (arith, le) in
          times-every m first num_batch n (omega (arith, hi)) le
            (omega (arith, whole, rest, hm, hl))
          ∙ ap (λ b. count_if b 0) (sym (moved (m - first) i num_batch hi))
          ∙ ap (λ y. count_if (y % num_batch == i) 0) (sym split)
    ]

-- The batches of GetInitBatches share the blocks out: for a block from the first to the latest one,
-- the loop of batchIndex over the `i`-th batch, where each block can be fetched and processed, asks
-- for the block once if `i` is the remainder of its distance from the first block by the number of
-- batches, and otherwise not at all. It is assumed that there are between 1 and 255 batches, that the
-- batch starts no later than at the latest block, which is below 2 ^ 62, and that there are two
-- rounds more of fuel than its number.
pub visits_once :
    (num_batch genesis latest i m fuel : ℕ) (now : ℤ)
    → i < num_batch
    → num_batch < 256
    → latest < 2 ^ 62
    → genesis + i ≤ latest
    → genesis ≤ m
    → m ≤ latest
    → latest + 2 ≤ fuel
    → (blocks : List ℤ) × (visits fuel (init_batch num_batch (pos genesis) (pos latest) now i)
        ≡ ok blocks)
      × (times (pos m) blocks ≡ count_if ((m - genesis) % num_batch == i) 0)
visits_once num_batch genesis latest i m fuel now hi hb ht hl lo hm hf = (
  blocks_of num_batch genesis latest i,
  visits-init_batch num_batch genesis latest i fuel now (omega (arith, hi)) hb ht hl hf,
  times-blocks_of num_batch genesis latest i m hi hl lo hm,
)
