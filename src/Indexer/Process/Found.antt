-- ===== src/Indexer/Process/Found.antt =====
-- A block that was processed is found by its number.
use account_indexer.Common.{
  ℕ, true, false, [], ◌∷◌, map, none, length, ltb, ◌==◌, ◌≡◌, refl, arith, Bool-cases, inl, inr,
}
use account_indexer.Common.Int.{ℤ, pos, negsuc}
use account_indexer.Common.Outcome.{ok}
use account_indexer.Go.BigInt.{string, nat_string}
use account_indexer.Go.BigInt.RoundTrip.{lt-length-nat_string}
use account_indexer.Geth.{Geth, IsHex}
use account_indexer.Types.{BlockDetail}
use account_indexer.DateTime.Laws.{InRange}
use account_indexer.Dao.{KeyValueDao}
use account_indexer.Dao.Order.{lookup_key}
use account_indexer.Dao.Contract.{View, IsKeyValueDao}
use account_indexer.Marshal.Block.{marshall_block_key}
use account_indexer.Marshal.Block.RoundTrip.{read_back, unmarshall_block_key-marshall_block_key}
use account_indexer.Repo.Store.{IndexRepo}
use account_indexer.Repo.Store.Effect.{NeverFails}
use account_indexer.Repo.Blocks.{key_value_to_block_index, get_blocks}
use account_indexer.Indexer.Data.{SequenceMap, create_index_data}
use account_indexer.Indexer.Process.{process_block}
use account_indexer.Indexer.Process.Reorg.{IsIndexable, block_record}
use account_indexer.Indexer.Process.Forgets.{
  IsOrder, block_value, known_after_upsert, value_read, process_new,
}

string_not_empty : (n : ℤ) → ltb 0 (length (string n)) ≡ true
unfolding string nat_string
string_not_empty (pos n) = elim (Bool-cases (n == 0)) [
  | inl e ↦ rw e refl
  | inr e ↦ ground (arith, e, lt-length-nat_string 0 n)
]
string_not_empty (negsuc n) = ground arith

module _ (g : Geth) (hex : IsHex g) (ad bd : KeyValueDao) (va : View ad) (vb : View bd)
    (ha : IsKeyValueDao ad va) (hb : IsKeyValueDao bd vb) (fa : NeverFails ad)
    (fb : NeverFails bd) where
  -- After ProcessBlock on an indexable block that is not known, GetBlocks by its number returns one
  -- block: the record that was made of it, with its number and times, and its addresses as they are
  -- read back. It is assumed that the stores keep their promises and do not fail, that hexutil is
  -- as documented, and that the clock has four bytes.
  pub get_blocks-process_block :
      (b : BlockDetail) (t now : ℕ) (order : SequenceMap → SequenceMap) (repo : IndexRepo g ad bd)
      (rows start : ℤ)
      → IsIndexable g b t
      → InRange now
      → IsOrder order
      → lookup_key (string b.block_number) (vb.contents repo.block_db) ≡ none
      → let after = (process_block g ad bd (pos now) order b false repo).1 in
        let written = block_record g now order b in
        get_blocks g ad bd (string b.block_number) rows start after
        ≡ ok (1, record written { addresses = map (read_back g) written.addresses } ∷ [])
  unfolding get_blocks marshall_block_key create_index_data key_value_to_block_index
  get_blocks-process_block b t now order repo rows start h hn perm unknown =
      let after = (process_block g ad bd (pos now) order b false repo).1 in
      let (e, a, k) =
        process_new g hex ad bd va vb ha hb fa fb b t now order repo h hn perm unknown in
      let v = block_value g t now order b in
      rw
        (
          string_not_empty b.block_number,
          hb.find_by_key_lem (string b.block_number) after.block_db,
          k,
          known_after_upsert b.block_number b.block_number v (vb.contents repo.block_db) refl,
          value_read g b t now order h hn perm,
          unmarshall_block_key-marshall_block_key b.block_number,
        )
        refl
