-- ===== src/Repo/Blocks.antt =====
-- index_repo.go: the operations on the block database.
pub mod Delete
use account_indexer.Common.{
  ℕ, zero, suc, Bytes, Bool, true, false, List, [], ◌∷◌, map, length, ltb, Option, none, some, ◌⊎◌,
  inl, inr, codes, if◌then◌else◌,
}
use account_indexer.Common.Int.{ℤ, ltb_ℤ}
use account_indexer.Common.Outcome.{Error, Outcome, ok, deref, traverse, ◌>>=◌}
use account_indexer.Go.BigInt.{string}
use account_indexer.Geth.{Geth}
use account_indexer.Types.{BlockIndex}
use account_indexer.Dao.{KeyValue, KeyValueDao}
use account_indexer.Marshal.Block.{marshall_block_key, unmarshall_block_key, unmarshall_block_value}
use account_indexer.Repo.Store.{IndexRepo}

-- keyValueToBlockIndex, and makeBlockIndex of GetBlocks: the number comes from the key.
unfoldable pub key_value_to_block_index : Geth → KeyValue → Outcome BlockIndex
key_value_to_block_index g key_value = do
  block_index ← unmarshall_block_value g key_value.value
  ok (record block_index { block_number = string (unmarshall_block_key key_value.key) })

-- The predicate of DeleteOldBlocks.
unfoldable pub is_old : Geth → ℤ → KeyValue → Outcome Bool
is_old g until_time key_value = do
  block_index ← key_value_to_block_index g key_value
  created_at ← deref block_index.created_at
  ok (ltb_ℤ created_at until_time)

module _ (g : Geth) (address_dao block_dao : KeyValueDao) where
  -- The first of the records that a read returns, or an error where there is none.
  unfoldable pub first_of : Error → List KeyValue → Outcome (Error ⊎ BlockIndex)
  first_of e [] = ok (inl e)
  first_of e (kv ∷ kvs) = do block_index ← key_value_to_block_index g kv; ok (inr block_index)

  unfoldable pub get_last_block : IndexRepo g address_dao block_dao → Outcome (Error ⊎ BlockIndex)
  get_last_block repo =
      first_of (codes "no last record") (block_dao.get_n_last_records 1 repo.block_db)

  unfoldable pub get_first_block : IndexRepo g address_dao block_dao → Outcome (Error ⊎ BlockIndex)
  get_first_block repo =
      first_of (codes "no first record") (block_dao.get_n_first_records 1 repo.block_db)

  -- A number is looked up; an empty one asks for a page of all blocks, from the last key on.
  unfoldable pub get_blocks :
      Bytes → ℤ → ℤ → IndexRepo g address_dao block_dao → Outcome (ℕ × List BlockIndex)
  get_blocks block_number rows start repo =
      if ltb 0 (length block_number)
      then elim (block_dao.find_by_key (marshall_block_key block_number) repo.block_db) [
        | inl err ↦ ok (0, [])
        | inr key_value ↦ do
          block_index ← key_value_to_block_index g key_value
          ok (1, block_index ∷ [])
      ]
      else do
        let (total, key_values) = block_dao.find_by_key_prefix [] false rows start repo.block_db
        result ← traverse (key_value_to_block_index g) key_values
        ok (total, result)
