-- ===== src/Indexer/Restart/Gap.antt =====
-- What is run again after a restart: the batches that are not done, and the blocks since the last one.
use account_indexer.Common.{
  ℕ, ◌+◌, ◌-◌, ◌≤◌, ◌<◌, ◌^◌, Bool, true, false, not, List, [], ◌∷◌, ◌++◌, append_assoc, append-nil,
  none, some, ◌⊎◌, Bool-cases, inl, inr, All, ◌≡◌, refl, sym, ap, ◌∙◌, arith, if◌then◌else◌,
}
use account_indexer.Common.Int.{ℤ, pos, ◌+ℤ◌, eq_ℤ}
use account_indexer.Common.Outcome.{Error, ok, deref}
use account_indexer.Common.Action.{lift, ◌>>=◌}
use account_indexer.Common.Sublists.{filter}
use account_indexer.Geth.{Geth}
use account_indexer.Types.{BlockIndex, BatchStatus}
use account_indexer.Types.Batch.{is_done}
use account_indexer.Dao.{KeyValueDao}
use account_indexer.Repo.Blocks.{get_last_block}
use account_indexer.Repo.Batches.{get_all_batch_statuses}
use account_indexer.Indexer.Batches.{init_batch, visits}
use account_indexer.Indexer.Batches.Visits.{every, due, visits-init_batch}
use account_indexer.Indexer.BatchIndex.{Databases}
use account_indexer.Indexer.Restart.{
  last_number, gather, with_gap, keep, check_batch, check_batches, resume_batches, get_batches,
}

-- A batch that has been saved: whether it is done is known, and it does not start at the last block.
pub record IsSaved (done : BatchStatus → Bool) (last : ℤ) (batch : BatchStatus) : Type 0 where
  pub decided : is_done batch ≡ ok (done batch)
  pub start : ℤ
  pub starts : batch.from ≡ some start
  pub elsewhere : eq_ℤ last start ≡ false

abbrev pub unfinished : (BatchStatus → Bool) → List BatchStatus → List BatchStatus
unfinished done = filter (λ b. not (done b))

gathered :
    (t : Bool) (b : BatchStatus) (acc bs : List BatchStatus)
    → (if t then acc else acc ++ (b ∷ [])) ++ bs ≡ acc ++ (if not t then b ∷ bs else bs)
gathered true b acc bs = refl
gathered false b acc bs = append_assoc acc (b ∷ []) bs

module _ (g : Geth) (ad bd td : KeyValueDao) (done : BatchStatus → Bool) (last latest : ℤ) where
  kept_apart :
      (b : BatchStatus) (acc : List BatchStatus) (db : Databases g ad bd td)
      (h : IsSaved done last b)
      → (lift (deref b.from) >>= λ from.
            keep g ad bd td (eq_ℤ last from) latest b (record { found = false; batches = acc }))
          db
        ≡ (ok (record { found = false; batches = acc ++ (b ∷ []) }), db)
  unfolding keep gather deref
  kept_apart b acc db h = simp (h.starts, h.elsewhere)

  check_batch_saved :
      (b : BatchStatus) (acc : List BatchStatus) (db : Databases g ad bd td)
      → IsSaved done last b
      → check_batch g ad bd td last latest b (record { found = false; batches = acc }) db
        ≡ (ok (record { found = false; batches = if done b then acc else acc ++ (b ∷ []) }), db)
  unfolding check_batch gather deref
  check_batch_saved b acc db h = elim (Bool-cases (done b)) [
    | inl t ↦ rw (h.decided, t) refl
    | inr f ↦ rw (h.decided, f) (kept_apart b acc db h)
  ]

  check_batches_saved :
      (bs : List BatchStatus) (acc : List BatchStatus) (db : Databases g ad bd td)
      → All (IsSaved done last) bs
      → check_batches g ad bd td last latest bs (record { found = false; batches = acc }) db
        ≡ (ok (record { found = false; batches = acc ++ unfinished done bs }), db)
  unfolding check_batches filter
  check_batches_saved [] acc db h =
      ap (λ c. (ok (record { found = false; batches = c }), db)) (sym (append-nil acc))
  check_batches_saved (b ∷ bs) acc db (hb, h) =
      rw (check_batch_saved b acc db hb, check_batches)
        (check_batches_saved bs _ db h
          ∙ ap (λ c. (ok (record { found = false; batches = c }), db))
              (gathered (done b) b acc (unfinished done bs)))

module _ (g : Geth) (ad bd td : KeyValueDao) where
  -- The batch of the blocks from the last one on.
  abbrev pub gap : ℤ → ℤ → ℤ → BatchStatus
  gap last latest now = record {
    from = some last;
    to = some latest;
    created_at = some now;
    step = 1;
    current = none;
    updated_at = none;
  }

  resumed :
      (done : BatchStatus → Bool) (num_batch : ℕ) (now last latest : ℤ) (r : Error ⊎ BlockIndex)
      (b : BatchStatus) (bs : List BatchStatus) (db : Databases g ad bd td)
      → get_last_block g ad bd db.index_repo ≡ ok r
      → last_number r ≡ last
      → get_all_batch_statuses td db.batch_db ≡ ok (b ∷ bs)
      → All (IsSaved done last) (b ∷ bs)
      → get_batches g ad bd td num_batch now latest db
        ≡ (ok (unfinished done (b ∷ bs) ++ (gap last latest now ∷ [])), db)
  unfolding get_batches resume_batches with_gap
  resumed done num_batch now last latest r b bs db hl hn ha h =
      rw
        (
          ha,
          get_batches,
          hl,
          resume_batches,
          ha,
          hn,
          check_batches_saved g ad bd td done last latest (b ∷ bs) [] db h,
        )
        refl

  gap_starts : (n : ℕ) (latest now : ℤ) → gap (pos n) latest now ≡ init_batch 1 (pos n) latest now 0
  unfolding init_batch ◌+ℤ◌
  gap_starts n latest now =
      let start : pos n ≡ pos n +ℤ pos 0 = ground arith in
      ap (λ f. record (gap f latest now) { from = some f }) start

  visits-gap :
      (n latest fuel : ℕ) (now : ℤ)
      → latest < 2 ^ 62
      → n ≤ latest
      → latest + 2 ≤ fuel
      → visits fuel (gap (pos n) (pos latest) now) ≡ ok (pos n ∷ every 1 n (latest - n))
  visits-gap n latest fuel now ht hl hf =
      let same : n + 0 ≡ n = omega arith in
      let whole : due n latest 1 ≡ latest - n = omega arith in
      ap (visits fuel) (gap_starts n (pos latest) now)
      ∙ visits-init_batch 1 n latest 0 fuel now (omega arith) (omega arith) ht (omega (arith, hl))
          hf
      ∙ ap (λ m. ok (pos m ∷ every 1 m (due m latest 1))) same
      ∙ ap (λ k. ok (pos n ∷ every 1 n k)) whole

  -- After a restart, where batches have been saved and none of them starts at the last block of the
  -- block database, getBatches returns the batches that are not done, as they were saved, and after
  -- them a batch that asks for every block from the last one to the latest one, both included. The
  -- databases are left as they are. It is assumed that the saved batches and the last block can be
  -- read, that it can be told of each batch whether it is done, that the last block is not past the
  -- latest, which is below 2 ^ 62, and that there are two rounds more of fuel than its number.
  pub get_batches-gap :
      (done : BatchStatus → Bool) (num_batch n latest fuel : ℕ) (now : ℤ) (r : Error ⊎ BlockIndex)
      (b : BatchStatus) (bs : List BatchStatus) (db : Databases g ad bd td)
      → get_last_block g ad bd db.index_repo ≡ ok r
      → last_number r ≡ pos n
      → get_all_batch_statuses td db.batch_db ≡ ok (b ∷ bs)
      → All (IsSaved done (pos n)) (b ∷ bs)
      → latest < 2 ^ 62
      → n ≤ latest
      → latest + 2 ≤ fuel
      → (get_batches g ad bd td num_batch now (pos latest) db
          ≡ (ok (unfinished done (b ∷ bs) ++ (gap (pos n) (pos latest) now ∷ [])), db))
        × (visits fuel (gap (pos n) (pos latest) now) ≡ ok (pos n ∷ every 1 n (latest - n)))
  get_batches-gap done num_batch n latest fuel now r b bs db hl hn ha h ht ho hf = (
    resumed done num_batch now (pos n) (pos latest) r b bs db hl hn ha h,
    visits-gap n latest fuel now ht ho hf,
  )
