-- ===== src/Repo/Store.antt =====
-- index_repo.go: KVIndexRepo, and the operations that write to it.
pub mod Keys
pub mod Effect
use account_indexer.Common.{
  ℕ, zero, suc, ◌+◌, Bytes, Bool, true, false, List, [], ◌∷◌, ◌++◌, map, Option, none, some, ◌⊎◌,
  inl, inr, codes, leb, if◌then◌else◌,
}
use account_indexer.Common.Int.{ℤ, uint8}
use account_indexer.Common.Outcome.{Error, Outcome, ok, panic, diverges}
use account_indexer.Common.Action.{Action, pure, lift, ◌>>=◌}
use account_indexer.Geth.{Geth}
use account_indexer.Types.{AddressSequence, AddressIndex, BlockIndex}
use account_indexer.Dao.{KeyValue, KeyValueDao, new_key_value}
use account_indexer.Marshal.Address.{
  marshall_address_key, marshall_address_key_str, marshall_address_value,
}
use account_indexer.Marshal.Block.{marshall_block_key, marshall_block_value, unmarshall_block_value}

-- The keys that one address has in a block: `for i := uint8(1); i <= sequence; i++`. The counter is
-- a uint8. `none` is fuel that ran out: up to 254 the loop makes fewer than 256 rounds, and at 255
-- its test never fails.
unfoldable pub sequence_keys : Geth → ℕ → ℕ → Bytes → Option ℤ → ℕ → Option (List Bytes)
sequence_keys g zero i address block_time sequence = none
sequence_keys g (suc fuel) i address block_time sequence =
    let rest = sequence_keys g fuel (uint8 (i + 1)) address block_time sequence in
    if leb i sequence
    then elim rest [
      | none ↦ none
      | some keys ↦ some (marshall_address_key_str g address block_time i ∷ keys)
    ]
    else some []

-- The loop over the addresses.
unfoldable pub reorg_keys : Geth → Option ℤ → List AddressSequence → Option (List Bytes)
reorg_keys g block_time [] = some []
reorg_keys g block_time (a ∷ as') = elim (sequence_keys g 256 1 a.address block_time a.sequence) [
  | none ↦ none
  | some keys ↦ elim (reorg_keys g block_time as') [ none ↦ none | some rest ↦ some (keys ++ rest) ]
]

unfoldable pub address_record : Geth → AddressIndex → KeyValue
address_record g item = new_key_value (marshall_address_key g item) (marshall_address_value g item)

module _ (g : Geth) (address_dao block_dao : KeyValueDao) where
  -- The databases of a repository.
  pub record IndexRepo : Type 0 where
    pub address_db : address_dao.Db
    pub block_db : block_dao.Db

  unfoldable pub handle_reorg : Option ℤ → List AddressSequence → Action IndexRepo (Option Error)
  handle_reorg block_time reorg_addresses repo = elim (reorg_keys g block_time reorg_addresses) [
    | none ↦ (diverges, repo)
    | some keys ↦
        let (err, db) = address_dao.batch_delete keys repo.address_db in
        (ok err, record repo { address_db = db })
  ]

  unfoldable pub save_address_index : List AddressIndex → Action IndexRepo (Option Error)
  save_address_index address_index repo =
      let (err, db) =
        address_dao.batch_put (map (address_record g) address_index) repo.address_db in
      let repo' = record repo { address_db = db } in
      elim err [
        | none ↦ (ok none, repo')
        | some e ↦ (panic (codes "Cannot write to address leveldb. Error: " ++ e), repo')
      ]

  put_block : KeyValue → Action IndexRepo (Option Error)
  put_block kv repo =
      let (err, db) = block_dao.put kv repo.block_db in
      let repo' = record repo { block_db = db } in
      elim err [
        | none ↦ (ok none, repo')
        | some e ↦ (panic (codes "Cannot write to block leveldb. Error: " ++ e), repo')
      ]

  unfoldable pub save_block_index : BlockIndex → Action IndexRepo (Option Error)
  unfolding put_block
  save_block_index block_index = do
    value ← lift (marshall_block_value g block_index)
    put_block (new_key_value (marshall_block_key block_index.block_number) value)

  -- A stored block with addresses is undone.
  undo : Option ℤ → List AddressSequence → Action IndexRepo (Option Error)
  undo block_time [] = pure none
  undo block_time (a ∷ as') = handle_reorg block_time (a ∷ as')

  -- The first part of Store: a block that comes again.
  reorg : BlockIndex → Action IndexRepo (Option Error)
  unfolding undo
  reorg block_index repo = elim (block_dao.find_by_key block_index.block_number repo.block_db) [
    | inl err ↦ (ok none, repo)
    | inr old_block ↦
        (do old ← lift (unmarshall_block_value g old_block.value); undo old.time old.addresses) repo
  ]

  -- Writes the addresses, then the block unless it comes from a batch.
  save : List AddressIndex → BlockIndex → Bool → Action IndexRepo (Option Error)
  save address_index block_index is_batch = do
    err ← save_address_index address_index
    elim err [
      | some e ↦ pure (some e)
      | none ↦ if is_batch then pure none else save_block_index block_index
    ]

  unfoldable pub store : List AddressIndex → BlockIndex → Bool → Action IndexRepo (Option Error)
  unfolding reorg save
  store address_index block_index true = save address_index block_index true
  store address_index block_index false = do
    err ← reorg block_index
    elim err [ some e ↦ pure (some e) | none ↦ save address_index block_index false ]
