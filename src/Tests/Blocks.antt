-- ===== src/Tests/Blocks.antt =====
-- Blocks of two transactions, and a block processed again with other ones.
use mathlib.Core.List.{reverse}
use mathlib.Core.List.Permᴰ
use account_indexer.Go.BigInt.{string, nat_string, emit}
use account_indexer.Common.{
  bytes_eq, ℕ, ◌+◌, ◌*◌, ◌≤◌, Bytes, List, [], ◌∷◌, none, false, codes, replicate, length, ap, ◌≡◌,
  refl, arith,
}
use account_indexer.Common.Int.{pos}
use account_indexer.Common.Outcome.{ok}
use account_indexer.Types.{TransactionDetail, BlockDetail}
use account_indexer.Marshal.Address.RoundTrip.{IsAddress}
use account_indexer.DateTime.Laws.{InRange}
use account_indexer.Dao.{new_key_value}
use account_indexer.Dao.Order.{lookup_key}
use account_indexer.Dao.Contract.{View}
use account_indexer.Dao.Leveldb.{leveldb_dao}
use account_indexer.Dao.Leveldb.Refines.{view, leveldb_dao-IsKeyValueDao}
use account_indexer.Repo.Store.{IndexRepo}
use account_indexer.Indexer.Data.Uses.{uses}
use account_indexer.Indexer.Process.{process_block}
use account_indexer.Indexer.Process.Reorg.{IsIndexable}
use account_indexer.Indexer.Process.Forgets.{IsOrder, process_block-forgets}
use account_indexer.Tests.Hex.{hex, hex-IsHex, encode}
use account_indexer.Tests.Stores.{single, empty, disk, disk-IsLeveldb, store, store-NeverFails}

abbrev pub alice : Bytes
alice = encode (replicate 20 17)

abbrev pub bob : Bytes
bob = encode (replicate 20 171)

abbrev pub payment : Bytes → Bytes → ℕ → TransactionDetail
payment from to value = record {
  from = from;
  to = to;
  tx_hash = encode (replicate 32 value);
  value = pos value;
}

abbrev pub time : ℕ
time = 1546522340

abbrev pub block : BlockDetail
block = record {
  block_number = pos 100;
  time = pos time;
  transactions = payment alice bob 5 ∷ payment bob alice 7 ∷ [];
}

abbrev pub other_block : BlockDetail
other_block = record {
  block_number = pos 100;
  time = pos (time + 15);
  transactions = payment alice alice 9 ∷ [];
}

abbrev pub repo : IndexRepo hex store store
unfolding leveldb_dao
repo = record { address_db = empty; block_db = single (new_key_value (codes "99") []) }

abbrev pub seen : View store
seen = view disk disk-IsLeveldb

pub uses-le : (a : Bytes) (txs : List TransactionDetail) → uses a txs ≤ 2 * length txs
unfolding uses
uses-le a [] = omega arith
uses-le a (tx ∷ txs) = ground (arith, uses-le a txs)

pub soon-InRange : (d : ℕ) → d ≤ 20 → InRange (time + d)
soon-InRange d h = record { above = omega (arith, h); below = omega (arith, h) }

time-InRange : InRange time
time-InRange = record { above = omega arith; below = omega arith }

pub alice-IsAddress : IsAddress hex alice
alice-IsAddress = ap (λ r. length r.0) (hex-IsHex.decode-encode (replicate 20 17) (omega arith))

pub bob-IsAddress : IsAddress hex bob
bob-IsAddress = ap (λ r. length r.0) (hex-IsHex.decode-encode (replicate 20 171) (omega arith))

pub block-IsIndexable : IsIndexable hex block time
block-IsIndexable = record {
  timed = refl;
  in_range = time-InRange;
  few_uses = λ a. omega (arith, uses-le a block.transactions);
  readable = (
    (λ _. alice-IsAddress, λ _. bob-IsAddress),
    ((λ _. bob-IsAddress, λ _. alice-IsAddress), tt),
  );
}

pub other_block-IsIndexable : IsIndexable hex other_block (time + 15)
other_block-IsIndexable = record {
  timed = refl;
  in_range = record { above = omega arith; below = omega arith };
  few_uses = λ a. omega (arith, uses-le a other_block.transactions);
  readable = ((λ _. alice-IsAddress, λ _. alice-IsAddress), tt);
}

pub kept : IsOrder (λ m. m)
kept m = Permᴰ.refl m

pub reversed : IsOrder reverse
reversed m = Permᴰ.reverse m

process_block-forgets_example :
    let first = process_block hex store store (pos (time + 1)) (λ m. m) block false repo in
    let second =
      process_block hex store store (pos (time + 20)) reverse other_block false first.1 in
    let alone = process_block hex store store (pos (time + 20)) reverse other_block false repo in
    (first.0 ≡ ok none)
    × (second.0 ≡ ok none)
    × ((k : Bytes)
        → lookup_key k (seen.contents second.1.address_db)
          ≡ lookup_key k (seen.contents alone.1.address_db))
    × ((k : Bytes)
        → lookup_key k (seen.contents second.1.block_db)
          ≡ lookup_key k (seen.contents alone.1.block_db))
unfolding leveldb_dao view disk-IsLeveldb lookup_key bytes_eq string nat_string emit
process_block-forgets_example =
    process_block-forgets hex hex-IsHex store store seen seen
      (leveldb_dao-IsKeyValueDao disk disk-IsLeveldb)
      (leveldb_dao-IsKeyValueDao disk disk-IsLeveldb) store-NeverFails store-NeverFails block
      other_block time (time + 15) (time + 1) (time + 20) (λ m. m) reverse repo refl
      block-IsIndexable other_block-IsIndexable (soon-InRange 1 (omega arith))
      (soon-InRange 20 (omega arith)) kept reversed refl (λ k e. refl)
