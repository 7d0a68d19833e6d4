-- ===== src/Indexer/Process/Forgets.antt =====
-- A block that comes again: what the databases hold is what the last version alone would have left.
use mathlib.Core.List.{Permᴰ}
use account_indexer.Common.{
  ℕ, ◌≤◌, Bytes, true, false, List, [], ◌++◌, map, none, some, ◌⊎◌, inl, inr, Bool-cases, bytes_eq,
  bytes_eq_refl, All-map, if◌then◌else◌, ◌≡◌, refl, sym, ap, ◌∙◌,
}
use account_indexer.Common.Int.{ℤ, pos}
use account_indexer.Common.Outcome.{ok}
use account_indexer.Go.BigInt.{string}
use account_indexer.Go.BigInt.RoundTrip.{be4}
use account_indexer.Geth.{Geth, IsHex}
use account_indexer.Types.{AddressSequence, BlockDetail}
use account_indexer.DateTime.Laws.{InRange}
use account_indexer.Dao.{KeyValue, KeyValueDao, new_key_value}
use account_indexer.Dao.Order.{
  lookup_key, upsert, upsert_all, without_all, contains, last_value, or_else, lookup_key-upsert,
  lookup_key-upsert_all, lookup_key-without_all, last_value_of_keys,
}
use account_indexer.Dao.Contract.{View, IsKeyValueDao}
use account_indexer.Marshal.Block.{marshall_block_value, unmarshall_block_value}
use account_indexer.Marshal.Block.Layout.{rows, block_layout}
use account_indexer.Marshal.Block.RoundTrip.{read_back, unmarshall_block_value-marshall_block_value}
use account_indexer.Repo.Store.{IndexRepo}
use account_indexer.Repo.Store.Effect.{NeverFails, store_new, store_again, Leaves}
use account_indexer.Indexer.Data.{SequenceMap, create_index_data}
use account_indexer.Indexer.Process.{process_block}
use account_indexer.Indexer.Process.Covers.{keys_of-read_back}
use account_indexer.Indexer.Process.Reorg.{
  IsIndexable, records, named_keys, records_named, block_record, few_sequences, readable_addresses,
}

abbrev pub IsOrder : (SequenceMap → SequenceMap) → Type 0
IsOrder order = (m : SequenceMap) → Permᴰ (order m) m

pub known_after_upsert :
    (n1 n2 : ℤ) (v : Bytes) (m : List KeyValue)
    → n1 ≡ n2
    → lookup_key (string n2) (upsert (new_key_value (string n1) v) m) ≡ some v
known_after_upsert n1 n2 v m e = rw (lookup_key-upsert, e, bytes_eq_refl (string n2)) refl

upsert_over :
    (n1 n2 : ℤ) (v w : Bytes) (m : List KeyValue) (k : Bytes)
    → n1 ≡ n2
    → lookup_key k (upsert (new_key_value (string n2) w) (upsert (new_key_value (string n1) v) m))
      ≡ lookup_key k (upsert (new_key_value (string n2) w) m)
upsert_over n1 n2 v w m k e =
    rw
      (
        lookup_key-upsert k (new_key_value (string n2) w) (upsert (new_key_value (string n1) v) m),
        lookup_key-upsert k (new_key_value (string n2) w) m,
        lookup_key-upsert k (new_key_value (string n1) v) m,
        e,
      )
      (by_cases (Bool-cases (bytes_eq (string n2) k)))
  where
    by_cases :
        (bytes_eq (string n2) k ≡ true) ⊎ (bytes_eq (string n2) k ≡ false)
        → (if bytes_eq (string n2) k
            then some w
            else if bytes_eq (string n2) k
            then some v
            else lookup_key k m)
          ≡ (if bytes_eq (string n2) k then some w else lookup_key k m)
    by_cases (inl t) = rw t refl
    by_cases (inr t) = rw t refl

module _ (g : Geth) where
  abbrev pub block_value : ℕ → ℕ → (SequenceMap → SequenceMap) → BlockDetail → Bytes
  block_value t now order b = be4 now ++ (be4 t ++ rows g (block_record g now order b).addresses)

  value_written :
      (b : BlockDetail) (t now : ℕ) (order : SequenceMap → SequenceMap)
      → IsIndexable g b t
      → InRange now
      → IsOrder order
      → marshall_block_value g (block_record g now order b) ≡ ok (block_value t now order b)
  value_written b t now order h hn perm =
      block_layout g (block_record g now order b) now t (unfold create_index_data in refl)
        (unfold create_index_data in ap some h.timed) hn h.in_range
        (readable_addresses g b t now order h perm)

  pub value_read :
      (b : BlockDetail) (t now : ℕ) (order : SequenceMap → SequenceMap)
      → IsIndexable g b t
      → InRange now
      → IsOrder order
      → unmarshall_block_value g (block_value t now order b)
        ≡ ok (record (block_record g now order b) {
          block_number = [];
          addresses = map (read_back g) (block_record g now order b).addresses;
        })
  value_read b t now order h hn perm = rw (value_written b t now order h hn perm) at (
      unmarshall_block_value-marshall_block_value g (block_record g now order b) now t
        (unfold create_index_data in refl) (unfold create_index_data in ap some h.timed) hn
        h.in_range (readable_addresses g b t now order h perm))

  module _ (hex : IsHex g) (ad bd : KeyValueDao) (va : View ad) (vb : View bd)
      (ha : IsKeyValueDao ad va) (hb : IsKeyValueDao bd vb) (fa : NeverFails ad)
      (fb : NeverFails bd) where
    -- What processing a block that is not known does.
    pub process_new :
        (b : BlockDetail) (t now : ℕ) (order : SequenceMap → SequenceMap) (repo : IndexRepo g ad bd)
        → IsIndexable g b t
        → InRange now
        → IsOrder order
        → lookup_key (string b.block_number) (vb.contents repo.block_db) ≡ none
        → Leaves g ad bd va vb ha hb fa fb
            (process_block g ad bd (pos now) order b false repo)
            (upsert_all (records g b) (va.contents repo.address_db))
            (upsert
              (new_key_value (string b.block_number) (block_value t now order b))
              (vb.contents repo.block_db))
    unfolding process_block create_index_data
    process_new b t now order repo h hn perm e =
        store_new g ad bd va vb ha hb fa fb _ (block_record g now order b)
          (block_value t now order b) repo e (value_written b t now order h hn perm)

    -- What processing a block does where its number is known with an older version of it.
    pub process_again :
        (b1 b2 : BlockDetail) (t1 t2 now1 now2 : ℕ) (order1 order2 : SequenceMap → SequenceMap)
        (repo : IndexRepo g ad bd)
        → IsIndexable g b1 t1
        → IsIndexable g b2 t2
        → InRange now1
        → InRange now2
        → IsOrder order1
        → IsOrder order2
        → lookup_key (string b2.block_number) (vb.contents repo.block_db)
          ≡ some (block_value t1 now1 order1 b1)
        → Leaves g ad bd va vb ha hb fa fb
            (process_block g ad bd (pos now2) order2 b2 false repo)
            (upsert_all
              (records g b2)
              (without_all (named_keys g order1 b1) (va.contents repo.address_db)))
            (upsert
              (new_key_value (string b2.block_number) (block_value t2 now2 order2 b2))
              (vb.contents repo.block_db))
    unfolding process_block create_index_data
    process_again b1 b2 t1 t2 now1 now2 order1 order2 repo h1 h2 hn1 hn2 p1 p2 e =
        rw (← keys_of-read_back g (some b1.time) hex (block_record g now1 order1 b1).addresses) (
          store_again g ad bd va vb ha hb fa fb _ (block_record g now2 order2 b2) _
            (block_value t1 now1 order1 b1) (block_value t2 now2 order2 b2) repo e
            (value_read b1 t1 now1 order1 h1 hn1 p1)
            (All-map (λ (a : AddressSequence). a.sequence ≤ 254) (read_back g) _
              (few_sequences g b1 t1 now1 order1 h1 p1))
            (value_written b2 t2 now2 order2 h2 hn2 p2))

    forgets_address :
        (b1 b2 : BlockDetail) (t1 : ℕ) (order1 : SequenceMap → SequenceMap) (m : List KeyValue)
        (k : Bytes)
        → IsIndexable g b1 t1
        → IsOrder order1
        → (contains k (named_keys g order1 b1) ≡ true → lookup_key k m ≡ none)
        → lookup_key k (
            upsert_all
              (records g b2)
              (without_all (named_keys g order1 b1) (upsert_all (records g b1) m)))
          ≡ lookup_key k (upsert_all (records g b2) m)
    forgets_address b1 b2 t1 order1 m k h p fresh =
        lookup_key-upsert_all k (records g b2) _
        ∙ ap (or_else (last_value k (records g b2)))
            (undone (Bool-cases (contains k (named_keys g order1 b1))))
        ∙ sym (lookup_key-upsert_all k (records g b2) m)
      where
        undone :
            (contains k (named_keys g order1 b1) ≡ true)
              ⊎ (contains k (named_keys g order1 b1) ≡ false)
            → lookup_key k (without_all (named_keys g order1 b1) (upsert_all (records g b1) m))
              ≡ lookup_key k m
        undone (inl e) = rw (lookup_key-without_all, e, fresh e)
        undone (inr e) = rw (
          lookup_key-without_all,
          e,
          lookup_key-upsert_all k (records g b1) m,
          last_value_of_keys k (named_keys g order1 b1) (records g b1)
              (records_named g b1 t1 order1 h p) e,
        )

    -- ProcessBlock on a block, and then on another version of it with the same number, leaves under
    -- every key of both databases what ProcessBlock on the second version alone leaves, and both
    -- calls end without an error, whatever the order in which the runtime goes through the maps. It
    -- is assumed that the stores keep their promises and their writes do not fail, that hexutil is
    -- as documented, that both versions are indexable (a time of four bytes, no address used more
    -- than 254 times, addresses that can be decoded), that the clock is in the range of four bytes,
    -- that the number is not known before, and that the address database has no record under the
    -- keys of the first version.
    pub process_block-forgets :
        (b1 b2 : BlockDetail) (t1 t2 now1 now2 : ℕ) (order1 order2 : SequenceMap → SequenceMap)
        (repo : IndexRepo g ad bd)
        → b1.block_number ≡ b2.block_number
        → IsIndexable g b1 t1
        → IsIndexable g b2 t2
        → InRange now1
        → InRange now2
        → IsOrder order1
        → IsOrder order2
        → lookup_key (string b2.block_number) (vb.contents repo.block_db) ≡ none
        → ((k : Bytes)
            → contains k (named_keys g order1 b1) ≡ true
            → lookup_key k (va.contents repo.address_db) ≡ none)
        → let first = process_block g ad bd (pos now1) order1 b1 false repo in
          let second = process_block g ad bd (pos now2) order2 b2 false first.1 in
          let alone = process_block g ad bd (pos now2) order2 b2 false repo in
          (first.0 ≡ ok none)
          × (second.0 ≡ ok none)
          × ((k : Bytes)
              → lookup_key k (va.contents second.1.address_db)
                ≡ lookup_key k (va.contents alone.1.address_db))
          × ((k : Bytes)
              → lookup_key k (vb.contents second.1.block_db)
                ≡ lookup_key k (vb.contents alone.1.block_db))
    process_block-forgets b1 b2 t1 t2 now1 now2 order1 order2 repo n h1 h2 hn1 hn2 p1 p2 unknown
          fresh =
        let r1 = (process_block g ad bd (pos now1) order1 b1 false repo).1 in
        let (e1, a1, k1) = process_new b1 t1 now1 order1 repo h1 hn1 p1 (rw n unknown) in
        let (e2, a2, k2) =
          process_again b1 b2 t1 t2 now1 now2 order1 order2 r1 h1 h2 hn1 hn2 p1 p2
            (rw k1 (known_after_upsert b1.block_number b2.block_number _ _ n)) in
        let (e3, a3, k3) = process_new b2 t2 now2 order2 repo h2 hn2 p2 unknown in
        (
          e1,
          e2,
          λ k.
              rw (a2, a3, a1)
                (forgets_address b1 b2 t1 order1 (va.contents repo.address_db) k h1 p1 (fresh k)),
          λ k. rw (k2, k3, k1) (upsert_over b1.block_number b2.block_number _ _ _ k n),
        )
