-- ===== src/Tests/Queries.antt =====
-- Searches in a database of three records.
use Prim.Native.Nat.{min}
use account_indexer.Common.{
  ◌++◌, ◌∙◌, ℕ, ◌+◌, ◌<◌, ◌≤◌, ap, Bytes, true, false, not, ◌&&◌, List, [], ◌∷◌, map, none, some,
  leb, All, replicate, length, take, bytes_eq, Option-cases, Bool-cases, ◌⊎◌, inl, inr, ◌≡◌, refl,
  arith,
}
use account_indexer.Common.Int.{pos}
use account_indexer.Common.Outcome.{ok}
use account_indexer.Go.BigInt.RoundTrip.{be4}
use account_indexer.Types.{AddressIndex}
use account_indexer.Dao.Order.{bytes_lt, below, in_range}
use account_indexer.Dao.Sorted.{InOrder}
use account_indexer.Dao.Leveldb.{leveldb_dao}
use account_indexer.Dao.Leveldb.Refines.{leveldb_dao-IsKeyValueDao, view}
use account_indexer.Marshal.Address.RoundTrip.{IsAddress, key_layout}
use account_indexer.Marshal.Address.{marshall_address_key, marshall_address_key_str}
use account_indexer.Repo.Store.{IndexRepo, address_record}
use account_indexer.Repo.Query.{get_total_transaction, get_transaction_by_address}
use account_indexer.Repo.Query.Within.{
  IsBytesPrefix, bound, within, search_range, search_range_exact,
}
use account_indexer.Repo.Query.Read.{IsStored, read_index, hits}
use account_indexer.Common.Perms.{Pairwise}
use account_indexer.Repo.Query.Chronology.{ordered, page_of, InTime}
use account_indexer.Repo.Query.Exact.{get_total_transaction_exact, get_transaction_by_address_exact}
use account_indexer.Tests.Hex.{hex, hex-IsHex, encode}
use account_indexer.Tests.Stores as Stores
use account_indexer.Tests.Stores.{empty, disk, disk-IsLeveldb, bytes_prefix, successor}
use account_indexer.Tests.Blocks.{
  alice, bob, time, seen, alice-IsAddress, bob-IsAddress, soon-InRange,
}

covered :
    (p k : Bytes)
    → All (λ x. x < 256) p
    → All (λ x. x < 256) k
    → (not (bytes_lt k p) && below k (successor p)) ≡ bytes_eq (take (length p) k) p
unfolding bytes_lt below bytes_eq successor
covered [] k hp hk = refl
covered (c ∷ p) [] hp hk = refl
covered (c ∷ p) (d ∷ k) (hc, hp) (hd, hk) = step (Option-cases (successor p)) (covered p k hp hk)
  where
    Goal : Type 0
    Goal =
        (not (bytes_lt (d ∷ k) (c ∷ p)) && below (d ∷ k) (successor (c ∷ p)))
        ≡ bytes_eq (take (length (c ∷ p)) (d ∷ k)) (c ∷ p)

    Rest : Type 0
    Rest = (not (bytes_lt k p) && below k (successor p)) ≡ bytes_eq (take (length p) k) p

    last : successor p ≡ none → Rest → (leb 255 c ≡ true) ⊎ (leb 255 c ≡ false) → Goal
    last e rest (inl l) = rw (e, successor) (rw l (ground (arith, rw e at rest)))
    last e rest (inr l) = rw (e, successor) (rw l (ground (arith, rw e at rest)))

    step : (successor p ≡ none) ⊎ ((l : Bytes) × (successor p ≡ some l)) → Rest → Goal
    step (inl e) rest = last e rest (Bool-cases (leb 255 c))
    step (inr (l, e)) rest = rw (e, successor) (ground (arith, rw e at rest))

pub laws : IsBytesPrefix bytes_prefix
laws = record { starts = λ p. refl; covers = λ p k hp hk. unfold in_range in covered p k hp hk }

abbrev entry : Bytes → Bytes → ℕ → AddressIndex
entry owner other t = record {
  address_sequence = record { address = owner; sequence = 1 };
  tx_hash = encode (replicate 32 7);
  value = pos 300;
  time = some (pos t);
  couple_address = other;
}

hash_length : length (hex.decode (encode (replicate 32 7))).0 ≡ 32
hash_length = ap (λ r. length r.0) (hex-IsHex.decode-encode (replicate 32 7) (omega arith))

abbrev pub entries : List AddressIndex
entries = entry alice bob (time + 1) ∷ entry alice bob (time + 9) ∷ entry bob alice (time + 1) ∷ []

pub entries-IsStored : All (IsStored hex) entries
entries-IsStored = (
  stored_of (alice-IsAddress) bob-IsAddress 1 (omega arith),
  (
    stored_of alice-IsAddress bob-IsAddress 9 (omega arith),
    (stored_of bob-IsAddress alice-IsAddress 1 (omega arith), tt),
  ),
)
  where
    stored_of :
        {owner other : Bytes}
        → IsAddress hex owner
        → IsAddress hex other
        → (d : ℕ) → d ≤ 20
        → IsStored hex (entry owner other (time + d))
    stored_of ho hc d h = record {
      seconds = time + d;
      timed = refl;
      in_range_time = soon-InRange d h;
      own = ho;
      couple = hc;
      hash = hash_length;
      byte = omega arith;
    }

key_bytes :
    (b : Bytes) (other : Bytes) (d : ℕ)
    → All (λ x. x < 256) b
    → d ≤ 20
    → (address_record hex (entry (encode b) other (time + d))).key
      ≡ b ++ (be4 (time + d) ++ (1 ∷ []))
unfolding address_record marshall_address_key
key_bytes b other d h le =
    key_layout hex (encode b) (time + d) 1 (soon-InRange d le)
    ∙ ap (λ r. r.0 ++ (be4 (time + d) ++ (1 ∷ []))) (hex-IsHex.decode-encode b h)

pub entries-InOrder : InOrder (map (address_record hex) entries)
unfolding bytes_lt
entries-InOrder =
    let one = key_bytes (replicate 20 17) bob 1 (omega arith) (omega arith) in
    let two = key_bytes (replicate 20 17) bob 9 (omega arith) (omega arith) in
    let three = key_bytes (replicate 20 171) alice 1 (omega arith) (omega arith) in
    ((rw (one, two) refl, (rw (one, three) refl, tt)), ((rw (two, three) refl, tt), (tt, tt)))

abbrev pub stored : IndexRepo hex Stores.store Stores.store
unfolding leveldb_dao
stored = record {
  address_db = record { records = map (address_record hex) entries; ordered = entries-InOrder };
  block_db = empty;
}

search_range_exact_example :
    in_range
      (search_range hex bytes_prefix alice (some time) (some (time + 5)))
      (marshall_address_key_str hex bob (some (pos (time + 1))) 1)
    ≡ (bytes_eq (hex.decode bob).0 (hex.decode alice).0
        && within (some time) (some (time + 5)) (time + 1))
search_range_exact_example =
    search_range_exact hex bytes_prefix hex-IsHex laws alice bob (some time) (some (time + 5))
      (time + 1) 1 alice-IsAddress bob-IsAddress
      (soon-InRange 0 (omega arith), soon-InRange 6 (omega arith)) (soon-InRange 1 (omega arith))
      (omega arith)

get_total_transaction_exact_example :
    get_total_transaction hex Stores.store Stores.store seen.prefix_range alice
      (bound none)
      (bound (some (time + 5)))
      stored
    ≡ length (hits hex alice none (some (time + 5)) entries)
unfolding leveldb_dao view disk-IsLeveldb
get_total_transaction_exact_example =
    get_total_transaction_exact hex hex-IsHex Stores.store Stores.store seen
      (leveldb_dao-IsKeyValueDao disk disk-IsLeveldb) laws (omega arith) alice none
      (some (time + 5)) stored entries alice-IsAddress (soon-InRange 6 (omega arith)) refl
      entries-IsStored

get_transaction_by_address_exact_example :
    let found = hits hex alice none none entries in
    let listed = page_of (pos 10) (pos 0) (ordered none none found) in
    (get_transaction_by_address hex Stores.store Stores.store seen.prefix_range alice
        (pos 10)
        (pos 0)
        (bound none)
        (bound none)
        stored
      ≡ ok (min (length found) 10001, map (read_index hex) listed))
    × Pairwise (InTime hex none none) listed
unfolding leveldb_dao view disk-IsLeveldb
get_transaction_by_address_exact_example =
    get_transaction_by_address_exact hex hex-IsHex Stores.store Stores.store seen
      (leveldb_dao-IsKeyValueDao disk disk-IsLeveldb) laws (omega arith) alice none none (pos 10)
      (pos 0) stored entries alice-IsAddress tt refl entries-IsStored
