-- ===== src/Watcher/Clean.antt =====
-- What the cleaner deletes.
use mathlib.Core.List.{reverse}
use account_indexer.Common.{ℕ, ◌<◌, ◌^◌, [], ◌∷◌, map, length, take, none, All, ◌≡◌}
use account_indexer.Common.Int.{ℤ, pos, ◌+ℤ◌, negate, abs-pos, int64_small}
use account_indexer.Common.Outcome.{ok, deref}
use account_indexer.Geth.{Geth}
use account_indexer.DateTime.{unmarshall_int_to_time}
use account_indexer.Dao.{KeyValue, KeyValueDao}
use account_indexer.Dao.Order.{without_all}
use account_indexer.Dao.Contract.{View, IsKeyValueDao}
use account_indexer.Repo.Store.{IndexRepo}
use account_indexer.Repo.Store.Effect.{NeverFails}
use account_indexer.Repo.Blocks.{first_of, get_last_block, key_value_to_block_index}
use account_indexer.Repo.Blocks.Delete.{IsCreatedAt, old_records, delete_old_blocks_effect}
use account_indexer.Watcher.{clean_block_db, clean_before}

module _ (g : Geth) (ad bd : KeyValueDao) (vb : View bd) (hb : IsKeyValueDao bd vb)
    (fb : NeverFails bd) where
  -- The cleaner ends without an error, leaves the address database alone, and deletes the records at
  -- the front of the block database that were created more than the time to live before the record
  -- with the last key, up to the first one that was not. It is assumed that the store keeps its
  -- promises and does not fail, that it holds a record, and that every record can be read.
  pub clean_block_db_effect :
      (created : KeyValue → ℤ) (last : KeyValue) (c block_ttl : ℕ) (repo : IndexRepo g ad bd)
      → take 1 (reverse (vb.contents repo.block_db)) ≡ last ∷ []
      → IsCreatedAt g (pos c) last
      → c < 2 ^ 63
      → All (λ kv. IsCreatedAt g (created kv) kv) (vb.contents repo.block_db)
      → let old =
          old_records created (pos c +ℤ negate (pos block_ttl)) (vb.contents repo.block_db) in
        let r = clean_block_db g ad bd block_ttl repo in
        (r.0 ≡ ok (length old, none))
        × (vb.contents r.1.block_db
            ≡ without_all (map (λ kv. kv.key) old) (vb.contents repo.block_db))
        × (r.1.address_db ≡ repo.address_db)
  unfolding clean_block_db clean_before get_last_block first_of key_value_to_block_index deref
      unmarshall_int_to_time
  clean_block_db_effect created last c block_ttl repo e h hc all =
      rw
        (
          hb.get_n_last_records_lem 1 repo.block_db,
          e,
          h.read,
          h.created_at,
          abs-pos c,
          int64_small c hc,
        )
        (delete_old_blocks_effect g ad bd vb hb fb created (pos c +ℤ negate (pos block_ttl)) repo
          all)
