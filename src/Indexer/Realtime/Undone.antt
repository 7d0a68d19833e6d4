-- ===== src/Indexer/Realtime/Undone.antt =====
-- What the deletion of the last version of a block, and the writing of a new one, leave.
use account_indexer.Common.{
  ℕ, Bytes, false, List, ◌∷◌, none, some, bytes_eq, Bool-cases, inl, inr, All, All-imp, All-zip,
  if◌then◌else◌, ◌≡◌, sym, ap, ◌∙◌,
}
use account_indexer.Geth.{Geth, IsHex}
use account_indexer.Types.{BlockDetail}
use account_indexer.DateTime.Laws.{InRange}
use account_indexer.Dao.{KeyValue, KeyValueDao, new_key_value}
use account_indexer.Dao.Order.{
  lookup_key, upsert, contains, last_value, last_value_of_keys, lookup_key-upsert,
}
use account_indexer.Dao.Contract.{View, IsKeyValueDao}
use account_indexer.Repo.Store.{IndexRepo}
use account_indexer.Repo.Store.Effect.{NeverFails}
use account_indexer.Indexer.Data.{SequenceMap}
use account_indexer.Indexer.Process.Reorg.{records, named_keys, records_named}
use account_indexer.Indexer.Process.Forgets.{IsOrder, block_value}
use account_indexer.Indexer.Realtime.Latest.{
  key, others, current, current-others, current-key, All-others, All-others_differ, Unique,
}
use account_indexer.Indexer.Realtime.Stamps.{stamp-named_keys}
use account_indexer.Indexer.Realtime.Versions.{
  written_over, left_out, none_written, IsOnChain, Stored, stored_same, silent,
}

module _ (g : Geth) (hex : IsHex g) (ad bd : KeyValueDao) (va : View ad) (vb : View bd)
    (ha : IsKeyValueDao ad va) (hb : IsKeyValueDao bd vb) (fa : NeverFails ad) (fb : NeverFails bd)
    (number_at : ℕ → Bytes) (before : IndexRepo g ad bd) where
  abbrev OnChain : BlockDetail → Type 0
  OnChain = IsOnChain g hex ad bd va vb ha hb fa fb number_at before

  abbrev first : List KeyValue
  first = va.contents before.address_db

  -- Where the keys of the last version are deleted, what is left is what the others leave.
  pub undone :
      (k n : Bytes) (vs : List BlockDetail) (b : BlockDetail) (order : SequenceMap → SequenceMap)
      → OnChain b
      → IsOrder order
      → current n vs ≡ some b
      → All OnChain vs
      → Unique vs
      → (if contains k (named_keys g order b) then none else lookup_key k (written_over g vs first))
        ≡ lookup_key k (written_over g (others n vs) first)
  undone k n vs b order h perm c chain u = elim (Bool-cases (contains k (named_keys g order b))) [
    | inl e ↦
        let s = stamp-named_keys g b h.time_of order k h.indexable perm e in
        let rest =
          All-imp (λ v. OnChain v × (bytes_eq (key v) n ≡ false))
            (λ v. last_value k (records g v) ≡ none) (others n vs)
            (λ v f.
              silent g hex ad bd va vb ha hb fa fb number_at before k n b v h f.0
                (current-key n vs b c) f.1 s)
            (All-zip _ _ _ (All-others OnChain n vs chain) (All-others_differ n vs)) in
        rw e (sym (none_written g k (others n vs) first rest (h.fresh k s)))
    | inr e ↦
        let gone =
          last_value_of_keys k (named_keys g order b) (records g b)
            (records_named g b h.time_of order h.indexable perm) e in
        rw e (left_out g k n vs b first c u gone)
  ]

  pub stored_after :
      (b : BlockDetail) (c : ℕ) (order : SequenceMap → SequenceMap) (vs : List BlockDetail)
      (db : List KeyValue)
      → (h : OnChain b) → InRange c
      → IsOrder order
      → ((n : Bytes) → Stored g hex ad bd va vb ha hb fa fb number_at before n (current n vs) db)
      → (n : Bytes)
      → Stored g hex ad bd va vb ha hb fa fb number_at before n
          (current n (b ∷ others (key b) vs))
          (upsert (new_key_value (key b) (block_value g h.time_of c order b)) db)
  unfolding current
  stored_after b c order vs db h hc perm s n =
      let kv = new_key_value (key b) (block_value g h.time_of c order b) in
      elim (Bool-cases (bytes_eq (key b) n)) [
        | inl e ↦
            rw (e, current)
              (
                h,
                c,
                order,
                hc,
                perm,
                lookup_key-upsert n kv db
                    ∙ ap (λ q. if q then some kv.value else lookup_key n db) e,
              )
        | inr e ↦
            rw (e, current)
              (stored_same g hex ad bd va vb ha hb fa fb number_at before n _ db _
                (lookup_key-upsert n kv db
                  ∙ ap (λ q. if q then some kv.value else lookup_key n db) e)
                (rw (current-others (key b) n vs e) (s n)))
      ]
