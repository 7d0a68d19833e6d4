-- ===== src/Indexer/Process/Reorg.antt =====
-- A block that comes again replaces what was indexed of it before.
use mathlib.Core.List.{Permᴰ}
use account_indexer.Common.{
  ℕ, ◌+◌, ◌≤◌, Bytes, true, List, [], map, some, All, All-imp, All-map, All-zip, ◌≡◌, refl, arith,
}
use account_indexer.Common.Int.{pos}
use account_indexer.Common.Assoc.{lookup}
use account_indexer.Common.Perms.{All-perm}
use account_indexer.Geth.{Geth}
use account_indexer.Types.{AddressSequence, AddressIndex, BlockIndex, BlockDetail}
use account_indexer.DateTime.Laws.{InRange}
use account_indexer.Dao.{KeyValue}
use account_indexer.Dao.Order.{contains}
use account_indexer.Marshal.Address.{marshall_address_key}
use account_indexer.Marshal.Address.RoundTrip.{IsAddress}
use account_indexer.Repo.Store.{address_record}
use account_indexer.Repo.Store.Keys.{keys_of}
use account_indexer.Indexer.Data.{
  SequenceMap, Progress, at_key, index_transactions, to_sequence, create_index_data,
}
use account_indexer.Indexer.Data.Uses.{
  uses, IsCounted, index_transactions-times, index_transactions-IsCounted, Sides,
  index_transactions-keys,
}
use account_indexer.Indexer.Process.Covers.{contains-counted}

abbrev pub start : Progress
start = record { address_index = []; sequence_map = [] }

module _ (g : Geth) where
  -- A block that the databases can hold: its time has four bytes, no address is used more than 254
  -- times, and the addresses can be read.
  pub record IsIndexable (b : BlockDetail) (t : ℕ) : Type 0 where
    pub timed : b.time ≡ pos t
    pub in_range : InRange t
    pub few_uses : (a : Bytes) → uses a b.transactions ≤ 254
    pub readable : All (Sides (IsAddress g)) b.transactions

  -- The address records of a block.
  abbrev pub records : BlockDetail → List KeyValue
  records b = map (address_record g) (index_transactions b.time b.transactions start).address_index

  counted :
      (b : BlockDetail) (t : ℕ)
      → IsIndexable b t
      → IsCounted (index_transactions b.time b.transactions start) (λ a. 0 + uses a b.transactions)
  counted b t h =
      index_transactions-IsCounted b.time b.transactions start (λ a. 0)
        (λ a. omega (arith, h.few_uses a))
        (record { counts = λ a. unfold at_key lookup in refl; entries = tt; sequences = tt })

  -- The keys that a block's record names, in the order of the runtime.
  abbrev pub named_keys : (SequenceMap → SequenceMap) → BlockDetail → List Bytes
  named_keys order b =
      keys_of g (some b.time)
        (map to_sequence (order (index_transactions b.time b.transactions start).sequence_map))

  -- Every address record of an indexable block is written under a key that the block's record
  -- names, so that HandleReorg finds it, whatever the order in which the runtime goes through the
  -- map.
  pub records_named :
      (b : BlockDetail) (t : ℕ) (order : SequenceMap → SequenceMap)
      → IsIndexable b t
      → ((m : SequenceMap) → Permᴰ (order m) m)
      → All (λ (r : KeyValue). contains r.key (named_keys order b) ≡ true) (records b)
  unfolding address_record marshall_address_key
  records_named b t order h perm = All-map _ (address_record g) p.address_index (
      All-imp _ _ p.address_index (λ i f. named i f.0 f.1)
        (All-zip _ _ p.address_index c.sequences
          (index_transactions-times b.time b.transactions start tt)))
    where
      p : Progress
      p = index_transactions b.time b.transactions start

      c : IsCounted p (λ a. 0 + uses a b.transactions)
      c = counted b t h

      named :
          (i : AddressIndex)
          → (1 ≤ i.sequence) × (i.sequence ≤ 0 + uses i.address b.transactions)
          → i.time ≡ some b.time
          → contains (marshall_address_key g i) (named_keys order b) ≡ true
      named i (lo, hi) e = rw e (
          contains-counted g (some b.time) i.address i.sequence p.sequence_map
            (order p.sequence_map) (perm p.sequence_map) lo (omega (arith, c.counts i.address)))

  -- The block record.
  abbrev pub block_record : ℕ → (SequenceMap → SequenceMap) → BlockDetail → BlockIndex
  block_record now order b = (create_index_data (pos now) order b).1

  pub few_sequences :
      (b : BlockDetail) (t now : ℕ) (order : SequenceMap → SequenceMap)
      → IsIndexable b t
      → ((m : SequenceMap) → Permᴰ (order m) m)
      → All (λ (a : AddressSequence). a.sequence ≤ 254) (block_record now order b).addresses
  unfolding create_index_data
  few_sequences b t now order h perm =
      All-map (λ (a : AddressSequence). a.sequence ≤ 254) to_sequence _
        (All-perm (λ (e : Bytes × ℕ). e.1 ≤ 254) (perm _)
          (All-imp (λ (e : Bytes × ℕ). e.1 ≤ 0 + uses e.0 b.transactions) _ _
            (λ e le. omega (arith, h.few_uses e.0)) (counted b t h).entries))

  pub readable_addresses :
      (b : BlockDetail) (t now : ℕ) (order : SequenceMap → SequenceMap)
      → IsIndexable b t
      → ((m : SequenceMap) → Permᴰ (order m) m)
      → All (λ (a : AddressSequence). IsAddress g a.address) (block_record now order b).addresses
  unfolding create_index_data
  readable_addresses b t now order h perm =
      All-map (λ (a : AddressSequence). IsAddress g a.address) to_sequence _
        (All-perm (λ (e : Bytes × ℕ). IsAddress g e.0) (perm _)
          (index_transactions-keys (IsAddress g) b.time b.transactions start h.readable tt))
