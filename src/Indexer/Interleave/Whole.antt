-- ===== src/Indexer/Interleave/Whole.antt =====
-- What the goroutines of index leave in the databases.
use mathlib.Core.List.Permᴰ
use account_indexer.Common.{
  ℕ, ◌+◌, Bytes, Bool, true, false, List, [], ◌∷◌, Option, none, some, bytes_eq, bytes_eq→eq,
  not_true, All, All-imp, All-zip, if◌then◌else◌, ◌≡◌, ◌≢◌, refl, sym, ap, ◌∙◌,
}
use account_indexer.Common.Int.{ℤ, pos}
use account_indexer.Common.Outcome.{Outcome, ok}
use account_indexer.Common.Action.{Action, bind-ok, ◌>>=◌}
use account_indexer.Common.Perms.{All-perm, Pairwise, Pairwise-perm}
use account_indexer.Go.BigInt.{string, set_string_or}
use account_indexer.Go.BigInt.RoundTrip.{set_string_or-string}
use account_indexer.Geth.{Geth, IsHex}
use account_indexer.Types.{BlockDetail}
use account_indexer.DateTime.Laws.{InRange}
use account_indexer.Dao.{KeyValue, KeyValueDao, new_key_value}
use account_indexer.Dao.Order.{lookup_key, upsert, upsert_all, lookup_key-upsert}
use account_indexer.Dao.Apart.{Same}
use account_indexer.Dao.Contract.{View, IsKeyValueDao}
use account_indexer.Repo.Store.{IndexRepo}
use account_indexer.Repo.Store.Effect.{NeverFails, Leaves}
use account_indexer.Indexer.Data.{SequenceMap}
use account_indexer.Indexer.Process.{process_block}
use account_indexer.Indexer.Process.Batched.{process_block_batch}
use account_indexer.Indexer.Process.Reorg.{IsIndexable, records}
use account_indexer.Indexer.Process.Forgets.{IsOrder, block_value, process_new}
use account_indexer.Indexer.Realtime.{Moments}
use account_indexer.Indexer.Interleave.{Job, in_turn, Interleaves, process_jobs, ended_by}
use account_indexer.Indexer.Interleave.Known.{
  value_after, is_some, some_after-eq, names_key, known_after, known_after-perm,
}
use account_indexer.Indexer.Interleave.AnyOrder.{
  Interleaves-perm, written, IsTimely, Differ, Differ-sym, written-perm,
}

-- A call with a block whose number is not in the block database.
abbrev pub Unknown : List KeyValue → Job → Type 0
Unknown m j = lookup_key (string j.block.block_number) m ≡ none

-- The clock has four bytes, and the runtime goes through a map in some order.
pub record IsRuntime (w : Moments) : Type 0 where
  pub clock : ℕ → ℕ
  pub now_lem : (i : ℕ) → w.now i ≡ pos (clock i)
  pub in_range : (i : ℕ) → InRange (clock i)
  pub in_order : (i : ℕ) → IsOrder (w.order i)

module _ (g : Geth) (hex : IsHex g) (ad bd : KeyValueDao) (va : View ad) (vb : View bd)
    (ha : IsKeyValueDao ad va) (hb : IsKeyValueDao bd vb) (fa : NeverFails ad)
    (fb : NeverFails bd) where
  by_number :
      (q : Bool) (v : Bytes) (x : Option Bytes)
      → (if q then some v else x) ≡ value_after false q v x
  by_number true v x = refl
  by_number false v x = refl

  pub new_effect :
      (b : BlockDetail) (t c : ℕ) (now : ℤ) (order : SequenceMap → SequenceMap)
      (repo : IndexRepo g ad bd)
      → now ≡ pos c
      → IsIndexable g b t
      → InRange c
      → IsOrder order
      → lookup_key (string b.block_number) (vb.contents repo.block_db) ≡ none
      → Leaves g ad bd va vb ha hb fa fb
          (process_block g ad bd now order b false repo)
          (upsert_all (records g b) (va.contents repo.address_db))
          (upsert
            (new_key_value (string b.block_number) (block_value g t c order b))
            (vb.contents repo.block_db))
  new_effect b t c now order repo en h hn perm unknown =
      rw en (process_new g hex ad bd va vb ha hb fa fb b t c order repo h hn perm unknown)

  job_effect :
      (b : BlockDetail) (is_batch : Bool) (t c : ℕ) (now : ℤ) (order : SequenceMap → SequenceMap)
      (repo : IndexRepo g ad bd)
      → now ≡ pos c
      → IsIndexable g b t
      → InRange c
      → IsOrder order
      → lookup_key (string b.block_number) (vb.contents repo.block_db) ≡ none
      → let r = process_block g ad bd now order b is_batch repo in
        (r.0 ≡ ok none)
        × (va.contents r.1.address_db ≡ upsert_all (records g b) (va.contents repo.address_db))
        × ((k : Bytes)
            → lookup_key k (vb.contents r.1.block_db)
              ≡ value_after is_batch
                  (bytes_eq (string b.block_number) k)
                  (block_value g t c order b)
                  (lookup_key k (vb.contents repo.block_db)))
  job_effect b true t c now order repo en h hn perm unknown =
      let (e, a, k) = process_block_batch g ad bd va vb ha hb fa fb now order b repo in
      (e, a, λ x. ap (lookup_key x) k)
  job_effect b false t c now order repo en h hn perm unknown =
      let (e, a, k) = new_effect b t c now order repo en h hn perm unknown in
      let kv = new_key_value (string b.block_number) (block_value g t c order b) in
      (
        e,
        a,
        λ x.
            ap (lookup_key x) k
            ∙ lookup_key-upsert x kv (vb.contents repo.block_db)
            ∙ by_number (bytes_eq kv.key x) kv.value (lookup_key x (vb.contents repo.block_db)),
      )

  still_none :
      (p q : Bool) (v : Bytes) (x : Option Bytes)
      → q ≡ false
      → x ≡ none
      → value_after p q v x ≡ none
  still_none true q v x e h = h
  still_none false q v x e h = rw e h

  differ_names : (n n' : ℤ) → n ≢ n' → bytes_eq (string n) (string n') ≡ false
  differ_names n n' d = not_true _ (λ e. d (
      sym (set_string_or-string n)
      ∙ ap set_string_or (bytes_eq→eq (string n) (string n') e)
      ∙ set_string_or-string n'))

  abbrev Ends : Outcome (Unit {0}) × IndexRepo g ad bd → List KeyValue → (Bytes → Bool) → Type 0
  Ends r a known =
      (r.0 ≡ ok tt)
      × (va.contents r.1.address_db ≡ a)
      × ((k : Bytes) → is_some (lookup_key k (vb.contents r.1.block_db)) ≡ known k)

  -- A call that returns no error is followed by the rest.
  no_error :
      (p : Bool) (m : Bytes) (s : IndexRepo g ad bd) (rest : Action (IndexRepo g ad bd) (Unit {0}))
      → (ended_by g ad bd p m none >>= (λ _. rest)) s ≡ rest s
  unfolding ended_by
  no_error true m s rest = refl
  no_error false m s rest = refl

  process_jobs_step :
      (w : Moments) (i : ℕ) (j : Job) (js : List Job) (repo : IndexRepo g ad bd)
      → let r = process_block g ad bd (w.now i) (w.order i) j.block j.is_batch repo in
        r.0 ≡ ok none
        → process_jobs g ad bd w i (j ∷ js) repo ≡ process_jobs g ad bd w (i + 1) js r.1
  unfolding process_jobs
  process_jobs_step w i j js repo e =
      bind-ok (process_block g ad bd (w.now i) (w.order i) j.block j.is_batch) _ repo none e
      ∙ no_error j.is_batch _ _ (process_jobs g ad bd w (i + 1) js)

  process_jobs_effect :
      (w : Moments) (i : ℕ) (js : List Job) (repo : IndexRepo g ad bd)
      → IsRuntime w
      → All (IsTimely g) js
      → Pairwise (Differ g) js
      → All (Unknown (vb.contents repo.block_db)) js
      → Ends
          (process_jobs g ad bd w i js repo)
          (written g js (va.contents repo.address_db))
          (λ k. known_after k js (is_some (lookup_key k (vb.contents repo.block_db))))
  unfolding process_jobs
  process_jobs_effect w i [] repo run h d u = (refl, refl, λ k. refl)
  process_jobs_effect w i (j ∷ js) repo run ((t, hj), h) (dj, d) (uj, u) =
      let r = process_block g ad bd (w.now i) (w.order i) j.block j.is_batch repo in
      let v = block_value g t (run.clock i) (w.order i) j.block in
      let (e, a, k) =
        job_effect j.block j.is_batch t (run.clock i) (w.now i) (w.order i) repo (run.now_lem i) hj
          (run.in_range i) (run.in_order i) uj in
      let unknown =
        All-imp (λ j'. Differ g j j' × Unknown (vb.contents repo.block_db) j')
          (Unknown (vb.contents r.1.block_db)) js
          (λ j' f.
            k (string j'.block.block_number)
            ∙ still_none j.is_batch _ v _
                (differ_names j.block.block_number j'.block.block_number f.0.1) f.1)
          (All-zip _ _ js dj u) in
      let (e', a', k') = process_jobs_effect w (i + 1) js r.1 run h d unknown in
      rw (process_jobs_step w i j js repo e) (
        e',
        a' ∙ ap (written g js) a,
        λ x.
            k' x
            ∙ ap (λ o. known_after x js (is_some o)) (k x)
            ∙ ap (known_after x js) (some_after-eq j.is_batch (names_key x j) v _),
      )

  -- The goroutines of the batches and the one of the real-time blocks call ProcessBlock, whatever the
  -- order of the calls: they end without a panic, and the databases end up as they do when the
  -- goroutines run one after another. Under every key of the address database stands the same value,
  -- and the block database has a record under the same keys. Clocks and map orders may differ
  -- between the two. It is assumed that each call is one step, that the blocks can be held by the
  -- databases, that no two have the same time or the same number, that no number is in the block
  -- database before, that the clocks have four bytes, that the stores keep their promises and do not
  -- fail, and that hexutil is as documented.
  pub process_jobs-Interleaves :
      (w w' : Moments) (i j : ℕ) (gs : List (List Job)) (js : List Job) (repo : IndexRepo g ad bd)
      → Interleaves gs js
      → IsRuntime w
      → IsRuntime w'
      → All (IsTimely g) (in_turn gs)
      → Pairwise (Differ g) (in_turn gs)
      → All (Unknown (vb.contents repo.block_db)) (in_turn gs)
      → let r = process_jobs g ad bd w i js repo in
        let s = process_jobs g ad bd w' j (in_turn gs) repo in
        (r.0 ≡ ok tt)
        × (s.0 ≡ ok tt)
        × Same (va.contents r.1.address_db) (va.contents s.1.address_db)
        × ((k : Bytes)
            → is_some (lookup_key k (vb.contents r.1.block_db))
              ≡ is_some (lookup_key k (vb.contents s.1.block_db)))
  process_jobs-Interleaves w w' i j gs js repo woven run run' h d u =
      let p = Permᴰ.symm (Interleaves-perm gs js woven) in
      let (e, a, k) =
        process_jobs_effect w i js repo run (All-perm (IsTimely g) p h)
          (Pairwise-perm (Differ g) (Differ-sym g) p d)
          (All-perm (Unknown (vb.contents repo.block_db)) p u) in
      let (e', a', k') = process_jobs_effect w' j (in_turn gs) repo run' h d u in
      let same = written-perm g js (in_turn gs) (va.contents repo.address_db) p h d in
      (
        e,
        e',
        λ x. ap (lookup_key x) a ∙ same x ∙ ap (lookup_key x) (sym a'),
        λ x. k x ∙ known_after-perm x js (in_turn gs) _ p ∙ sym (k' x),
      )
