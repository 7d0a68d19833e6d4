-- ===== src/Tests/Interleave.antt =====
-- Two goroutines that process three blocks.
use account_indexer.Common.{
  Bool, codes, ℕ, ◌+◌, ◌<◌, ◌%◌, ◌==◌, Bytes, true, false, List, [], ◌∷◌, All, bytes_eq, ap, ◌≡◌,
  ◌≢◌, refl, arith,
}
use account_indexer.Common.Int.{ℤ, pos, negsuc}
use account_indexer.Common.Outcome.{ok}
use account_indexer.Common.Perms.{Pairwise}
use account_indexer.Go.BigInt.{string, nat_string, emit}
use account_indexer.Types.{BlockDetail}
use account_indexer.Dao.Apart.{Same}
use account_indexer.Dao.Order.{lookup_key}
use account_indexer.Dao.Leveldb.{leveldb_dao}
use account_indexer.Dao.Leveldb.Refines.{leveldb_dao-IsKeyValueDao, view}
use account_indexer.Indexer.Process.Reorg.{IsIndexable}
use account_indexer.Indexer.Realtime.{Moments}
use account_indexer.Indexer.Interleave.{
  Job, Takes.this, Takes.other, in_turn, Interleaves, Interleaves.ended, Interleaves.takes,
  process_jobs,
}
use account_indexer.Indexer.Interleave.AnyOrder.{Differ}
use account_indexer.Indexer.Interleave.Known.{is_some}
use account_indexer.Indexer.Interleave.Whole.{Unknown, IsRuntime, process_jobs-Interleaves}
use account_indexer.Tests.Hex.{hex, hex-IsHex}
use account_indexer.Tests.Stores.{disk, disk-IsLeveldb, store, store-NeverFails}
use account_indexer.Tests.Blocks.{
  alice, bob, payment, time, block, other_block, repo, seen, uses-le, block-IsIndexable,
  alice-IsAddress, bob-IsAddress, soon-InRange, kept,
}
use native.Mathlib.Nat.{mod-lt}

abbrev pub last_block : BlockDetail
last_block = record {
  block_number = pos 108;
  time = pos (time + 40);
  transactions = payment bob alice 3 ∷ [];
}

abbrev new_block : BlockDetail
new_block = record other_block { block_number = pos 110 }

new_block-IsIndexable : IsIndexable hex new_block (time + 15)
new_block-IsIndexable = record {
  timed = refl;
  in_range = record { above = omega arith; below = omega arith };
  few_uses = λ a. omega (arith, uses-le a new_block.transactions);
  readable = ((λ _. alice-IsAddress, λ _. alice-IsAddress), tt);
}

pub last_block-IsIndexable : IsIndexable hex last_block (time + 40)
last_block-IsIndexable = record {
  timed = refl;
  in_range = record { above = omega arith; below = omega arith };
  few_uses = λ a. omega (arith, uses-le a last_block.transactions);
  readable = ((λ _. bob-IsAddress, λ _. alice-IsAddress), tt);
}

abbrev call : BlockDetail → Bool → Job
call b is_batch = record {
  block = b;
  block_number = b.block_number;
  tag = codes "100-120-:";
  is_batch = is_batch;
}

-- A batch with two blocks, and one block of real time.
abbrev goroutines : List (List Job)
goroutines = (call block true ∷ call last_block true ∷ []) ∷ (call new_block false ∷ []) ∷ []

abbrev processed : List Job
processed = call block true ∷ call new_block false ∷ call last_block true ∷ []

woven : Interleaves goroutines processed
woven =
    takes _ _ _ _ (this _ _ _)
      (takes _ _ _ _ (other _ _ _ _ (this _ _ _)) (takes _ _ _ _ (this _ _ _) (ended _ refl)))

abbrev pub moments : Moments
moments = record { now = λ i. pos (time + i % 20); order = λ i m. m }

twenty : 0 < 20
twenty = omega arith

pub moments-IsRuntime : IsRuntime moments
moments-IsRuntime = record {
  clock = λ i. time + i % 20;
  now_lem = λ i. refl;
  in_range = λ i. soon-InRange (i % 20) (omega (arith, mod-lt i twenty));
  in_order = λ i. kept;
}

number : ℤ → ℕ
number (pos n) = n
number (negsuc n) = n

different : (a b : ℕ) → (a == b) ≡ false → pos a ≢ pos b
different a b h e = absurd (ground (arith, h, ap number e))

differ : Pairwise (Differ hex) (in_turn goroutines)
differ = (
  (
    (different time (time + 40) refl, different 100 108 refl),
    ((different time (time + 15) refl, different 100 110 refl), tt),
  ),
  (((different (time + 40) (time + 15) refl, different 108 110 refl), tt), (tt, tt)),
)

unknown : All (Unknown (seen.contents repo.block_db)) (in_turn goroutines)
unfolding leveldb_dao view disk-IsLeveldb lookup_key bytes_eq string nat_string emit
unknown = (refl, (refl, (refl, tt)))

process_jobs-Interleaves_example :
    let r = process_jobs hex store store moments 0 processed repo in
    let s = process_jobs hex store store moments 7 (in_turn goroutines) repo in
    (r.0 ≡ ok tt)
    × (s.0 ≡ ok tt)
    × Same (seen.contents r.1.address_db) (seen.contents s.1.address_db)
    × ((k : Bytes)
        → is_some (lookup_key k (seen.contents r.1.block_db))
          ≡ is_some (lookup_key k (seen.contents s.1.block_db)))
process_jobs-Interleaves_example =
    process_jobs-Interleaves hex hex-IsHex store store seen seen
      (leveldb_dao-IsKeyValueDao disk disk-IsLeveldb)
      (leveldb_dao-IsKeyValueDao disk disk-IsLeveldb) store-NeverFails store-NeverFails moments
      moments 0 7 goroutines processed repo woven moments-IsRuntime moments-IsRuntime
      (
        (time, block-IsIndexable),
        ((time + 40, last_block-IsIndexable), ((time + 15, new_block-IsIndexable), tt)),
      )
      differ unknown
