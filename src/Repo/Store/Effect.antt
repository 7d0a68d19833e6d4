-- ===== src/Repo/Store/Effect.antt =====
-- What Store does to the two databases.
use account_indexer.Common.{
  ◌≤◌, Bytes, Bool, true, false, List, [], ◌∷◌, map, Option, none, some, All, ◌≡◌, refl, ap, ◌∙◌,
  if◌then◌else◌,
}
use account_indexer.Common.Int.{ℤ}
use account_indexer.Common.Outcome.{Error, Outcome, ok}
use account_indexer.Common.Action.{pure, bind-ok}
use account_indexer.Geth.{Geth}
use account_indexer.Types.{AddressSequence, AddressIndex, BlockIndex}
use account_indexer.Dao.{KeyValue, KeyValueDao, new_key_value}
use account_indexer.Dao.Order.{lookup_key, upsert, upsert_all, without_all}
use account_indexer.Dao.Contract.{View, IsKeyValueDao}
use account_indexer.Marshal.Block.{marshall_block_key, marshall_block_value, unmarshall_block_value}
use account_indexer.Repo.Store.{
  address_record, IndexRepo, handle_reorg, save_address_index, put_block, save_block_index, undo,
  reorg, save, store,
}
use account_indexer.Repo.Store.Keys.{keys_of, reorg_keys-keys_of}

-- A store whose writes return no error.
pub record NeverFails (d : KeyValueDao) : Type 0 where
  pub put_ok : (kv : KeyValue) (db : d.Db) → (d.put kv db).0 ≡ none
  pub batch_put_ok : (kvs : List KeyValue) (db : d.Db) → (d.batch_put kvs db).0 ≡ none
  pub batch_delete_ok : (ks : List Bytes) (db : d.Db) → (d.batch_delete ks db).0 ≡ none

abbrev pub HasFewUses : BlockIndex → Type 0
HasFewUses b = All (λ (a : AddressSequence). a.sequence ≤ 254) b.addresses

module _ (g : Geth) (ad bd : KeyValueDao) (va : View ad) (vb : View bd) (ha : IsKeyValueDao ad va)
    (hb : IsKeyValueDao bd vb) (fa : NeverFails ad) (fb : NeverFails bd) where
  abbrev pub addresses : IndexRepo g ad bd → List KeyValue
  addresses repo = va.contents repo.address_db

  abbrev pub blocks : IndexRepo g ad bd → List KeyValue
  blocks repo = vb.contents repo.block_db

  -- What a call leaves: how it ends, and the contents of the databases.
  abbrev pub Leaves :
      Outcome (Option Error) × IndexRepo g ad bd → List KeyValue → List KeyValue → Type 0
  Leaves r a b = (r.0 ≡ ok none) × (addresses r.1 ≡ a) × (blocks r.1 ≡ b)

  handle_reorg_effect :
      (t : Option ℤ) (as' : List AddressSequence) (repo : IndexRepo g ad bd)
      → All (λ (a : AddressSequence). a.sequence ≤ 254) as'
      → Leaves
          (handle_reorg g ad bd t as' repo)
          (without_all (keys_of g t as') (addresses repo))
          (blocks repo)
  unfolding handle_reorg
  handle_reorg_effect t as' repo h =
      rw (reorg_keys-keys_of g t as' h, handle_reorg)
        (
          ap ok (fa.batch_delete_ok (keys_of g t as') repo.address_db),
          ha.batch_delete_lem (keys_of g t as') repo.address_db (fa.batch_delete_ok _ _),
          refl,
        )

  save_address_effect :
      (idx : List AddressIndex) (repo : IndexRepo g ad bd)
      → Leaves
          (save_address_index g ad bd idx repo)
          (upsert_all (map (address_record g) idx) (addresses repo))
          (blocks repo)
  unfolding save_address_index
  save_address_effect idx repo =
      rw (fa.batch_put_ok (map (address_record g) idx) repo.address_db, save_address_index)
        (
          refl,
          ha.batch_put_lem (map (address_record g) idx) repo.address_db (fa.batch_put_ok _ _),
          refl,
        )

  put_block_effect :
      (kv : KeyValue) (repo : IndexRepo g ad bd)
      → Leaves (put_block g ad bd kv repo) (addresses repo) (upsert kv (blocks repo))
  unfolding put_block
  put_block_effect kv repo =
      rw (fb.put_ok kv repo.block_db, put_block)
        (refl, refl, hb.put_lem kv repo.block_db (fb.put_ok _ _))

  save_block_effect :
      (b : BlockIndex) (v : Bytes) (repo : IndexRepo g ad bd)
      → marshall_block_value g b ≡ ok v
      → Leaves
          (save_block_index g ad bd b repo)
          (addresses repo)
          (upsert (new_key_value (marshall_block_key b.block_number) v) (blocks repo))
  unfolding save_block_index
  save_block_effect b v repo e =
      rw (e, save_block_index)
        (put_block_effect (new_key_value (marshall_block_key b.block_number) v) repo)

  -- Saving writes every address record, and the block record unless it comes from a batch.
  save_effect :
      (idx : List AddressIndex) (b : BlockIndex) (is_batch : Bool) (v : Bytes)
      (repo : IndexRepo g ad bd)
      → (is_batch ≡ false → marshall_block_value g b ≡ ok v)
      → Leaves
          (save g ad bd idx b is_batch repo)
          (upsert_all (map (address_record g) idx) (addresses repo))
          (if is_batch
            then blocks repo
            else upsert (new_key_value (marshall_block_key b.block_number) v) (blocks repo))
  unfolding save
  save_effect idx b is_batch v repo e =
      let (ended, a, k) = save_address_effect idx repo in
      rw (bind-ok (save_address_index g ad bd idx) _ repo none ended, save)
        (rest is_batch e ended a k)
    where
      repo' : IndexRepo g ad bd
      repo' = (save_address_index g ad bd idx repo).1

      rest :
          (is_batch : Bool)
          → (is_batch ≡ false → marshall_block_value g b ≡ ok v)
          → (save_address_index g ad bd idx repo).0 ≡ ok none
          → addresses repo' ≡ upsert_all (map (address_record g) idx) (addresses repo)
          → blocks repo' ≡ blocks repo
          → Leaves
              ((if is_batch then pure none else save_block_index g ad bd b) repo')
              (upsert_all (map (address_record g) idx) (addresses repo))
              (if is_batch
                then blocks repo
                else upsert (new_key_value (marshall_block_key b.block_number) v) (blocks repo))
      rest true e ended a k = (refl, a, k)
      rest false e ended a k =
          let (ended', a', k') = save_block_effect b v repo' (e refl) in
          (ended', a' ∙ a, k' ∙ ap (upsert (new_key_value (marshall_block_key b.block_number) v)) k)

  undo_effect :
      (t : Option ℤ) (as' : List AddressSequence) (repo : IndexRepo g ad bd)
      → All (λ (a : AddressSequence). a.sequence ≤ 254) as'
      → Leaves
          (undo g ad bd t as' repo)
          (without_all (keys_of g t as') (addresses repo))
          (blocks repo)
  unfolding undo without_all
  undo_effect t [] repo h = (refl, refl, refl)
  undo_effect t (a ∷ as') repo h = handle_reorg_effect t (a ∷ as') repo h

  -- A block that is not yet known changes nothing before it is saved.
  reorg_unknown :
      (b : BlockIndex) (repo : IndexRepo g ad bd)
      → lookup_key b.block_number (blocks repo) ≡ none
      → reorg g ad bd b repo ≡ (ok none, repo)
  unfolding reorg
  reorg_unknown b repo e = rw (hb.find_by_key_lem b.block_number repo.block_db, e, reorg)

  -- A block that is known is undone by what its record says.
  reorg_known :
      (b old : BlockIndex) (v : Bytes) (repo : IndexRepo g ad bd)
      → lookup_key b.block_number (blocks repo) ≡ some v
      → unmarshall_block_value g v ≡ ok old
      → HasFewUses old
      → Leaves
          (reorg g ad bd b repo)
          (without_all (keys_of g old.time old.addresses) (addresses repo))
          (blocks repo)
  unfolding reorg
  reorg_known b old v repo e u h =
      rw (hb.find_by_key_lem b.block_number repo.block_db, reorg)
        (rw (e, reorg) (rw (u, reorg) (undo_effect old.time old.addresses repo h)))

  -- Store on a block that is not known: it ends without an error, every address record is written
  -- over an older one with its key, and the block record is put under the block number. It is
  -- assumed that the stores keep their promises and do not fail, and that the block's value can be
  -- marshalled.
  pub store_new :
      (idx : List AddressIndex) (b : BlockIndex) (v : Bytes) (repo : IndexRepo g ad bd)
      → lookup_key b.block_number (blocks repo) ≡ none
      → marshall_block_value g b ≡ ok v
      → Leaves
          (store g ad bd idx b false repo)
          (upsert_all (map (address_record g) idx) (addresses repo))
          (upsert (new_key_value b.block_number v) (blocks repo))
  unfolding store marshall_block_key
  store_new idx b v repo e m =
      rw (reorg_unknown b repo e, store) (save_effect idx b false v repo (λ _. m))

  -- Store on a block from a batch: it ends without an error, every address record is written, and
  -- the block database is as before, where the stores keep their promises and do not fail.
  pub store_batch :
      (idx : List AddressIndex) (b : BlockIndex) (repo : IndexRepo g ad bd)
      → Leaves
          (store g ad bd idx b true repo)
          (upsert_all (map (address_record g) idx) (addresses repo))
          (blocks repo)
  unfolding store
  store_batch idx b repo = save_effect idx b true [] repo (λ e. cc)

  -- Store on a block that is known, with a record that can be read and sequences of at most 254: it
  -- ends without an error, the keys that the old record names are deleted from the address
  -- database, then the new address records are written, and the block record is replaced. It is
  -- assumed that the stores keep their promises and do not fail, and that the block's value can be
  -- marshalled.
  pub store_again :
      (idx : List AddressIndex) (b old : BlockIndex) (w v : Bytes) (repo : IndexRepo g ad bd)
      → lookup_key b.block_number (blocks repo) ≡ some w
      → unmarshall_block_value g w ≡ ok old
      → HasFewUses old
      → marshall_block_value g b ≡ ok v
      → Leaves
          (store g ad bd idx b false repo)
          (upsert_all
            (map (address_record g) idx)
            (without_all (keys_of g old.time old.addresses) (addresses repo)))
          (upsert (new_key_value b.block_number v) (blocks repo))
  unfolding store marshall_block_key
  store_again idx b old w v repo e u h m =
      let (ended, a, k) = reorg_known b old w repo e u h in
      let repo' = (reorg g ad bd b repo).1 in
      let (ended', a', k') = save_effect idx b false v repo' (λ _. m) in
      rw (bind-ok (reorg g ad bd b) _ repo none ended, store)
        (
          ended',
          a' ∙ ap (upsert_all (map (address_record g) idx)) a,
          k' ∙ ap (upsert (new_key_value b.block_number v)) k,
        )
