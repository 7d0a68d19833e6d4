-- ===== src/Repo/Blocks/Delete.antt =====
-- index_repo.go: DeleteOldBlocks.
use account_indexer.Common.{
  ℕ, Bool, true, false, List, [], ◌∷◌, map, length, Option, none, some, All, if◌then◌else◌, ◌≡◌,
  refl, ap,
}
use account_indexer.Common.Int.{ℤ, ltb_ℤ}
use account_indexer.Common.Outcome.{Error, Outcome, ok, deref}
use account_indexer.Common.Action.{Action, lift, ◌>>=◌}
use account_indexer.Geth.{Geth}
use account_indexer.Types.{BlockIndex}
use account_indexer.Dao.{KeyValue, KeyValueDao}
use account_indexer.Dao.Order.{without_all}
use account_indexer.Dao.Iterate.Pages.{take_while}
use account_indexer.Dao.Contract.{View, IsKeyValueDao}
use account_indexer.Marshal.Block.{unmarshall_block_value}
use account_indexer.Repo.Store.{IndexRepo}
use account_indexer.Repo.Store.Effect.{NeverFails}
use account_indexer.Repo.Blocks.{key_value_to_block_index, is_old}

module _ (g : Geth) (address_dao block_dao : KeyValueDao) where
  unfoldable pub delete_blocks :
      List KeyValue → Action (IndexRepo g address_dao block_dao) (ℕ × Option Error)
  delete_blocks kvs_to_del repo =
      let (err, db) = block_dao.batch_delete (map (λ kv. kv.key) kvs_to_del) repo.block_db in
      (ok (length kvs_to_del, err), record repo { block_db = db })

  unfoldable pub delete_old_blocks :
      ℤ → Action (IndexRepo g address_dao block_dao) (ℕ × Option Error)
  delete_old_blocks until_time repo =
      (do
        kvs_to_del ← lift (block_dao.get_n_first_predicate (is_old g until_time) repo.block_db)
        delete_blocks kvs_to_del)
        repo

-- A record of a block that was created at a given time.
pub record IsCreatedAt (g : Geth) (created : ℤ) (kv : KeyValue) : Type 0 where
  pub block : BlockIndex
  pub read : unmarshall_block_value g kv.value ≡ ok block
  pub created_at : block.created_at ≡ some created

-- The first records of a list, as long as they were created before a time.
unfoldable pub old_records : (KeyValue → ℤ) → ℤ → List KeyValue → List KeyValue
old_records created until [] = []
old_records created until (kv ∷ kvs) =
    let rest = old_records created until kvs in if ltb_ℤ (created kv) until then kv ∷ rest else []

keep_or_stop :
    (b : Bool) (kv : KeyValue) (kvs : List KeyValue)
    → (if b then (let r : Outcome (List KeyValue) = ok (kv ∷ kvs) in r) else ok [])
      ≡ ok (if b then kv ∷ kvs else [])
keep_or_stop true kv kvs = refl
keep_or_stop false kv kvs = refl

module _ (g : Geth) (created : KeyValue → ℤ) (until : ℤ) where
  is_old_lem :
      (kv : KeyValue)
      → IsCreatedAt g (created kv) kv
      → is_old g until kv ≡ ok (ltb_ℤ (created kv) until)
  unfolding is_old key_value_to_block_index deref
  is_old_lem kv h = rw (h.read, h.created_at) refl

  take_while_old :
      (kvs : List KeyValue)
      → All (λ kv. IsCreatedAt g (created kv) kv) kvs
      → take_while (is_old g until) kvs ≡ ok (old_records created until kvs)
  unfolding take_while old_records
  take_while_old [] h = refl
  take_while_old (kv ∷ kvs) (hkv, h) =
      rw (is_old_lem kv hkv, take_while_old kvs h) (keep_or_stop (ltb_ℤ (created kv) until) kv _)

module _ (g : Geth) (ad bd : KeyValueDao) (vb : View bd) (hb : IsKeyValueDao bd vb)
    (fb : NeverFails bd) where
  -- DeleteOldBlocks ends without an error and returns how many records it found: those at the front
  -- of the block database that were created before the time, up to the first one that was not. It
  -- deletes the records with their keys, and leaves the address database alone. It is assumed that
  -- the store keeps its promises and does not fail, and that every record can be read.
  pub delete_old_blocks_effect :
      (created : KeyValue → ℤ) (until : ℤ) (repo : IndexRepo g ad bd)
      → All (λ kv. IsCreatedAt g (created kv) kv) (vb.contents repo.block_db)
      → let old = old_records created until (vb.contents repo.block_db) in
        let r = delete_old_blocks g ad bd until repo in
        (r.0 ≡ ok (length old, none))
        × (vb.contents r.1.block_db
            ≡ without_all (map (λ kv. kv.key) old) (vb.contents repo.block_db))
        × (r.1.address_db ≡ repo.address_db)
  unfolding delete_old_blocks delete_blocks
  delete_old_blocks_effect created until repo h =
      let old = old_records created until (vb.contents repo.block_db) in
      let keys = map (λ kv. kv.key) old in
      rw
        (
          hb.get_n_first_predicate_lem (is_old g until) repo.block_db,
          take_while_old g created until (vb.contents repo.block_db) h,
        )
        (
          ap (λ e. ok (length old, e)) (fb.batch_delete_ok keys repo.block_db),
          hb.batch_delete_lem keys repo.block_db (fb.batch_delete_ok keys repo.block_db),
          refl,
        )
