-- ===== src/Indexer/Data.antt =====
-- indexer.go: CreateIndexData, from a block of the chain to the records of the databases.
pub mod Uses
pub mod Owners
use account_indexer.Common.{
  ℕ, ◌+◌, Bytes, Bool, true, false, List, [], ◌∷◌, ◌++◌, map, Option, none, some, codes, bytes_eq,
  if◌then◌else◌,
}
use account_indexer.Common.Int.{ℤ, negate, uint8, pos}
use account_indexer.Common.Assoc.{lookup, insert}
use account_indexer.Go.BigInt.{string}
use account_indexer.Types.{
  AddressSequence, AddressIndex, BlockIndex, TransactionDetail, BlockDetail,
}

-- common.AddressZero
abbrev pub address_zero : Bytes
address_zero = codes "0x0000000000000000000000000000000000000000"

-- map[string]uint8
abbrev pub SequenceMap : Type 0
SequenceMap = List (Bytes × ℕ)

-- m[k], which is 0 for a missing key.
unfoldable pub at_key : Bytes → SequenceMap → ℕ
at_key k m = elim (lookup k m) [ none ↦ 0 | some n ↦ n ]

-- if _, ok := m[k]; !ok { m[k] = 0 }
unfoldable pub init_key : Bytes → SequenceMap → SequenceMap
init_key k m = elim (lookup k m) [ none ↦ insert k 0 m | some n ↦ m ]

-- and then m[k]++
unfoldable pub bump : Bytes → SequenceMap → SequenceMap
bump k m = let m' = init_key k m in insert k (uint8 (at_key k m' + 1)) m'

-- The two results of the loop.
pub record Progress : Type 0 where
  pub address_index : List AddressIndex
  pub sequence_map : SequenceMap

-- One side of a transaction: its address is counted and its record appended.
unfoldable pub append_side : Bytes → Bytes → ℤ → Bytes → ℤ → Progress → Progress
append_side address couple value tx_hash time p =
    let m = bump address p.sequence_map in
    record {
      address_index =
          p.address_index
          ++ (record {
            address_sequence = record { address = address; sequence = at_key address m };
            tx_hash = tx_hash;
            value = value;
            time = some time;
            couple_address = couple;
          }
              ∷ []);
      sequence_map = m;
    }

abbrev pub or_zero : Bytes → Bytes
or_zero s = if bytes_eq s [] then address_zero else s

-- A side that is missing is not indexed.
unfoldable pub index_side : Bytes → Bytes → ℤ → Bytes → ℤ → Progress → Progress
unfolding append_side
index_side address couple value tx_hash time p =
    if bytes_eq address [] then p else append_side address couple value tx_hash time p

-- A round of the loop: the sender, then the receiver. AddressZero stands for a missing side in the
-- record of the other.
unfoldable pub index_transaction : ℤ → TransactionDetail → Progress → Progress
unfolding index_side
index_transaction time tx p =
    index_side tx.to (or_zero tx.from) tx.value tx.tx_hash time
      (index_side tx.from (or_zero tx.to) (negate tx.value) tx.tx_hash time p)

unfoldable pub index_transactions : ℤ → List TransactionDetail → Progress → Progress
index_transactions time [] p = p
index_transactions time (tx ∷ txs) p = index_transactions time txs (index_transaction time tx p)

abbrev pub to_sequence : Bytes × ℕ → AddressSequence
to_sequence (k, v) = record { address = k; sequence = v }

-- `now` is the clock, and `range_map` the order in which the runtime goes through a map.
unfoldable pub create_index_data :
    ℤ → (SequenceMap → SequenceMap) → BlockDetail → List AddressIndex × BlockIndex
create_index_data now range_map block_detail =
    let p =
      index_transactions block_detail.time block_detail.transactions
        (record { address_index = []; sequence_map = [] }) in
    (
      p.address_index,
      record {
        block_number = string block_detail.block_number;
        addresses = map to_sequence (range_map p.sequence_map);
        time = some block_detail.time;
        created_at = some now;
      },
    )
