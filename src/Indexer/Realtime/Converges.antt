-- ===== src/Indexer/Realtime/Converges.antt =====
-- What the loop of realtimeIndex leaves of the blocks that come, in several versions or not.
use account_indexer.Common.{
  length, arith, ℕ, ◌+◌, Bytes, false, List, [], ◌∷◌, Option, none, some, All, if◌then◌else◌, ◌≡◌,
  refl, sym, ap, ◌∙◌,
}
use account_indexer.Common.Int.{ℤ, pos}
use account_indexer.Common.Outcome.{ok}
use account_indexer.Geth.{Geth, IsHex}
use account_indexer.Types.{BlockDetail}
use account_indexer.DateTime.Laws.{InRange}
use account_indexer.Dao.{KeyValue, KeyValueDao, new_key_value}
use account_indexer.Dao.Order.{
  lookup_key, upsert, upsert_all, without_all, contains, last_value, or_else, lookup_key-upsert_all,
  lookup_key-without_all,
}
use account_indexer.Dao.Apart.{Same, upsert_all-Same}
use account_indexer.Dao.Contract.{View, IsKeyValueDao}
use account_indexer.Repo.Store.{IndexRepo}
use account_indexer.Repo.Store.Effect.{NeverFails, Leaves}
use account_indexer.Indexer.Data.{SequenceMap}
use account_indexer.Indexer.Process.{process_block}
use account_indexer.Indexer.Process.Reorg.{IsIndexable, records, named_keys}
use account_indexer.Indexer.Process.Forgets.{IsOrder, block_value, process_again}
use account_indexer.Indexer.Realtime.{Moments, process_blocks}
use account_indexer.Indexer.Realtime.Latest.{
  key, others, current, latest, others-none, All-others, Unique-latest,
}
use account_indexer.Indexer.Interleave.Whole.{IsRuntime, new_effect}
use account_indexer.Indexer.Realtime.Versions.{written_over, IsOnChain, Stored, stored_same, Holds}
use account_indexer.Indexer.Realtime.Undone.{undone, stored_after}

module _ (g : Geth) (hex : IsHex g) (ad bd : KeyValueDao) (va : View ad) (vb : View bd)
    (ha : IsKeyValueDao ad va) (hb : IsKeyValueDao bd vb) (fa : NeverFails ad) (fb : NeverFails bd)
    (number_at : ℕ → Bytes) (before : IndexRepo g ad bd) where
  abbrev OnChain : BlockDetail → Type 0
  OnChain = IsOnChain g hex ad bd va vb ha hb fa fb number_at before

  abbrev Are : List BlockDetail → IndexRepo g ad bd → Type 0
  Are = Holds g hex ad bd va vb ha hb fa fb number_at before

  abbrev first : List KeyValue
  first = va.contents before.address_db

  -- A call of ProcessBlock that writes the records of the last versions and the block.
  holds_after :
      (b : BlockDetail) (c : ℕ) (order : SequenceMap → SequenceMap) (vs : List BlockDetail)
      (repo after : IndexRepo g ad bd) (h : OnChain b)
      → InRange c
      → IsOrder order
      → Are vs repo
      → Same
          (va.contents after.address_db)
          (upsert_all (records g b) (written_over g (others (key b) vs) first))
      → (vb.contents after.block_db
          ≡ upsert
              (new_key_value (key b) (block_value g h.time_of c order b))
              (vb.contents repo.block_db))
      → Are (b ∷ others (key b) vs) after
  holds_after b c order vs repo after h hc perm are a k = record {
    addresses = a;
    blocks = λ n.
        stored_same g hex ad bd va vb ha hb fa fb number_at before n _ _ _ (ap (lookup_key n) k) (
          stored_after g hex ad bd va vb ha hb fa fb number_at before b c order vs
            (vb.contents repo.block_db) h hc perm are.blocks n);
    chain = (h, All-others OnChain (key b) vs are.chain);
    unique = Unique-latest b vs are.unique;
  }

  again_effect :
      (b1 b2 : BlockDetail) (t1 t2 c1 c2 : ℕ) (now : ℤ) (order1 order2 : SequenceMap → SequenceMap)
      (repo : IndexRepo g ad bd)
      → now ≡ pos c2
      → IsIndexable g b1 t1
      → IsIndexable g b2 t2
      → InRange c1
      → InRange c2
      → IsOrder order1
      → IsOrder order2
      → lookup_key (key b2) (vb.contents repo.block_db) ≡ some (block_value g t1 c1 order1 b1)
      → Leaves g ad bd va vb ha hb fa fb
          (process_block g ad bd now order2 b2 false repo)
          (upsert_all
            (records g b2)
            (without_all (named_keys g order1 b1) (va.contents repo.address_db)))
          (upsert
            (new_key_value (key b2) (block_value g t2 c2 order2 b2))
            (vb.contents repo.block_db))
  again_effect b1 b2 t1 t2 c1 c2 now order1 order2 repo en h1 h2 hc1 hc2 p1 p2 e = rw en (
      process_again g hex ad bd va vb ha hb fa fb b1 b2 t1 t2 c1 c2 order1 order2 repo h1 h2 hc1 hc2
        p1 p2 e)

  step :
      (b : BlockDetail) (vs : List BlockDetail) (c : ℕ) (now : ℤ)
      (order : SequenceMap → SequenceMap) (repo : IndexRepo g ad bd) (o : Option BlockDetail)
      → now ≡ pos c
      → InRange c
      → IsOrder order
      → OnChain b
      → Are vs repo
      → current (key b) vs ≡ o
      → Stored g hex ad bd va vb ha hb fa fb number_at before (key b) o (vb.contents repo.block_db)
      → let r = process_block g ad bd now order b false repo in
        (r.0 ≡ ok none) × Are (b ∷ others (key b) vs) r.1
  step b vs c now order repo none en hc perm h are e s =
      let (done, a, k) =
        new_effect g hex ad bd va vb ha hb fa fb b h.time_of c now order repo en h.indexable hc perm
          (s ∙ h.unknown) in
      (
        done,
        holds_after b c order vs repo _ h hc perm are
            (λ x.
              ap (lookup_key x) a
              ∙ upsert_all-Same (records g b) _ _ are.addresses x
              ∙ ap (λ l. lookup_key x (upsert_all (records g b) (written_over g l first)))
                  (sym (others-none (key b) vs e)))
            k,
      )
  step b vs c now order repo (some b1) en hc perm h are e (h1, c1, order1, hc1, perm1, s) =
      let (done, a, k) =
        again_effect b1 b h1.time_of h.time_of c1 c now order1 order repo en h1.indexable
          h.indexable hc1 hc perm1 perm s in
      let named = named_keys g order1 b1 in
      (
        done,
        holds_after b c order vs repo _ h hc perm are
            (λ x.
              ap (lookup_key x) a
              ∙ lookup_key-upsert_all x (records g b)
                  (without_all named (va.contents repo.address_db))
              ∙ ap (or_else (last_value x (records g b))) (
                  lookup_key-without_all x named (va.contents repo.address_db)
                  ∙ ap (λ l. if contains x named then none else l) (are.addresses x)
                  ∙ undone g hex ad bd va vb ha hb fa fb number_at before x (key b) vs b1 order1 h1
                      perm1 e are.chain are.unique)
              ∙ sym (
                  lookup_key-upsert_all x (records g b) (written_over g (others (key b) vs) first)))
            k,
      )

  runs :
      (w : Moments) (i : ℕ) (bs vs : List BlockDetail) (repo : IndexRepo g ad bd)
      → IsRuntime w
      → All OnChain bs
      → Are vs repo
      → let r = process_blocks g ad bd w i bs repo in
        (r.0 ≡ ok (i + length bs)) × Are (latest vs bs) r.1
  unfolding process_blocks
  runs w i [] vs repo run h are = (ap ok (omega arith), are)
  runs w i (b ∷ bs) vs repo run (hb', h) are =
      let (done, after) =
        step b vs (run.clock i) (w.now i) (w.order i) repo (current (key b) vs) (run.now_lem i)
          (run.in_range i) (run.in_order i) hb' are refl (are.blocks (key b)) in
      let rest =
        runs w (i + 1) bs (b ∷ others (key b) vs)
          (process_block g ad bd (w.now i) (w.order i) b false repo).1 run h after in
      rw (done, process_blocks) (rest.0 ∙ ap ok (omega arith), rest.1)

  start : Are [] before
  unfolding current
  start = record { addresses = λ x. refl; blocks = λ n. refl; chain = tt; unique = tt }

  -- The loop of realtimeIndex, over blocks that arrive in any number of versions: no call of
  -- ProcessBlock panics, and all blocks are read. The address database then has under every key what
  -- the records of the last versions alone say, over what it held before, and the block database has
  -- under every number the record of the last version that came with it, or what it held before. It
  -- is assumed that the blocks can be held by the databases, that blocks with the same time have the
  -- same number, that before the first no record has the time and no number is that of one of them,
  -- that the clocks have four bytes, that the stores keep their promises and do not fail, and that
  -- hexutil is as documented.
  pub process_blocks-latest :
      (w : Moments) (bs : List BlockDetail)
      → IsRuntime w
      → All OnChain bs
      → let last = latest [] bs in
        let r = process_blocks g ad bd w 0 bs before in
        (r.0 ≡ ok (length bs))
        × Same (va.contents r.1.address_db) (written_over g last first)
        × ((n : Bytes)
            → Stored g hex ad bd va vb ha hb fa fb number_at before n
                (current n last)
                (vb.contents r.1.block_db))
  process_blocks-latest w bs run h =
      let (done, are) = runs w 0 bs [] before run h start in
      (done ∙ ap ok (omega arith), are.addresses, are.blocks)
