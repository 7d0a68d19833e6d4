-- ===== src/Indexer/Data/Uses.antt =====
-- How often a block uses an address, and the sequences that its records get.
use mathlib.Core.Path.{fun_ext, subst}
use account_indexer.Common.{
  ℕ, ◌+◌, ◌≤◌, ◌<◌, Bytes, false, List, [], ◌∷◌, none, some, bytes_eq, bytes_eq_iff, bytes_eq_refl,
  Bool-cases, Option-cases, ◌⊎◌, inl, inr, if◌then◌else◌, All, All-append, All-imp, ◌≡◌, refl,
  arith,
}
use account_indexer.Common.Int.{ℤ, negate, uint8}
use account_indexer.Common.Assoc.{lookup, insert, lookup-insert, All-insert}
use account_indexer.Types.{AddressIndex, TransactionDetail}
use account_indexer.Indexer.Data.{
  SequenceMap, at_key, init_key, bump, Progress, append_side, index_side, or_zero,
  index_transaction, index_transactions,
}

abbrev pub side : Bytes → Bytes → ℕ
side a s = if bytes_eq s [] then 0 else if bytes_eq s a then 1 else 0

-- In how many places of the transactions an address stands.
unfoldable pub uses : Bytes → List TransactionDetail → ℕ
uses a [] = 0
uses a (tx ∷ txs) = side a tx.from + (side a tx.to + uses a txs)

at_key-insert :
    (k j : Bytes) (n : ℕ) (m : SequenceMap)
    → at_key j (insert k n m) ≡ (if bytes_eq k j then n else at_key j m)
unfolding at_key
at_key-insert k j n m = ground (arith, lookup-insert k j n m)

at_key-init_key : (k j : Bytes) (m : SequenceMap) → at_key j (init_key k m) ≡ at_key j m
unfolding init_key at_key
at_key-init_key k j m = ground (arith, lookup-insert k j 0 m, bytes_eq_iff k j)

pub at_key-bump :
    (k j : Bytes) (m : SequenceMap)
    → at_key j (bump k m) ≡ (if bytes_eq k j then uint8 (at_key k m + 1) else at_key j m)
unfolding bump init_key
at_key-bump k j m =
    rw
      (
        at_key-insert k j (uint8 (at_key k (init_key k m) + 1)) (init_key k m),
        at_key-init_key k j m,
        at_key-init_key k k m,
      )
      refl

-- What holds of every key and value of the map after a use of `k`.
pub bump-All {κ} :
    (P : Bytes × ℕ → Type κ) (k : Bytes) (m : SequenceMap)
    → P (k, 0)
    → P (k, uint8 (at_key k m + 1))
    → All P m
    → All P (bump k m)
unfolding bump init_key
bump-All P k m z h a =
    All-insert P k (uint8 (at_key k (init_key k m) + 1)) (init_key k m)
      (rw (at_key-init_key k k m) h) (opened (Option-cases (lookup k m)))
  where
    opened : (lookup k m ≡ none) ⊎ ((n : ℕ) × (lookup k m ≡ some n)) → All P (init_key k m)
    opened (inl e) = rw (e, init_key) (All-insert P k 0 m z a)
    opened (inr (n, e)) = rw (e, init_key) a

-- After some transactions of a block: the map counts the uses of each address, no entry of it is
-- above the count, and the sequence of each record lies between 1 and the count of its address.
pub record IsCounted (p : Progress) (count : Bytes → ℕ) : Type 0 where
  pub counts : (a : Bytes) → at_key a p.sequence_map ≡ count a
  pub entries : All (λ (e : Bytes × ℕ). e.1 ≤ count e.0) p.sequence_map
  pub sequences :
      All (λ (i : AddressIndex). (1 ≤ i.sequence) × (i.sequence ≤ count i.address)) p.address_index

abbrev Fits : (Bytes → ℕ) → AddressIndex → Type 0
Fits count i = (1 ≤ i.sequence) × (i.sequence ≤ count i.address)

-- The count after one more use of `address`.
abbrev one_more : Bytes → (Bytes → ℕ) → Bytes → ℕ
one_more address count a = count a + (if bytes_eq address a then 1 else 0)

Fits-one_more :
    (address : Bytes) (count : Bytes → ℕ) (i : AddressIndex)
    → Fits count i
    → Fits (one_more address count) i
Fits-one_more address count i (lo, hi) = (lo, omega arith)

append_side-IsCounted :
    (address couple tx_hash : Bytes) (value time : ℤ) (p : Progress) (count : Bytes → ℕ)
    → count address < 255
    → IsCounted p count
    → IsCounted (append_side address couple value tx_hash time p) (one_more address count)
unfolding append_side
append_side-IsCounted address couple tx_hash value time p count h c = record {
  counts = λ a. ground (
    arith,
    at_key-bump address a p.sequence_map,
    bytes_eq_iff address a,
    c.counts address,
    c.counts a,
  );
  entries =
      bump-All (λ (e : Bytes × ℕ). e.1 ≤ one_more address count e.0) address p.sequence_map
        (omega arith) fresh.1
        (All-imp (λ (e : Bytes × ℕ). e.1 ≤ count e.0)
          (λ (e : Bytes × ℕ). e.1 ≤ one_more address count e.0) p.sequence_map (λ e le. omega arith)
          c.entries);
  sequences =
      All-append (Fits (one_more address count)) p.address_index _
        (All-imp (Fits count) (Fits (one_more address count)) p.address_index
          (Fits-one_more address count) c.sequences)
        (counted, tt);
}
  where
    fresh :
        (1 ≤ uint8 (at_key address p.sequence_map + 1))
        × (uint8 (at_key address p.sequence_map + 1) ≤ one_more address count address)
    fresh = ground (arith, bytes_eq_refl address, c.counts address)

    counted :
        (1 ≤ at_key address (bump address p.sequence_map))
        × (at_key address (bump address p.sequence_map) ≤ one_more address count address)
    counted =
        ground (arith, at_key-bump address address p.sequence_map, bytes_eq_refl address, fresh)

IsCounted-eq :
    (p : Progress) (count count' : Bytes → ℕ)
    → ((a : Bytes) → count a ≡ count' a)
    → IsCounted p count
    → IsCounted p count'
IsCounted-eq p count count' e c = subst (IsCounted p) (fun_ext e) c

side_of_nonempty :
    (a s : Bytes) → bytes_eq s [] ≡ false → (if bytes_eq s a then 1 else 0) ≡ side a s
side_of_nonempty a s e = rw e

index_side-IsCounted :
    (address couple tx_hash : Bytes) (value time : ℤ) (p : Progress) (count : Bytes → ℕ)
    → ((a : Bytes) → count a + side a address ≤ 255)
    → IsCounted p count
    → IsCounted (index_side address couple value tx_hash time p) (λ a. count a + side a address)
unfolding index_side
index_side-IsCounted address couple tx_hash value time p count h c =
    elim (Bool-cases (bytes_eq address [])) [
      | inl e ↦ rw (e, index_side) (IsCounted-eq p count (λ a. count a + 0) (λ a. omega arith) c)
      | inr e ↦
          rw (e, index_side)
            (append_side-IsCounted address couple tx_hash value time p count (room e) c)
    ]
  where
    room : bytes_eq address [] ≡ false → count address < 255
    room e = ground (arith, h address, bytes_eq_refl address)

index_transaction-IsCounted :
    (time : ℤ) (tx : TransactionDetail) (p : Progress) (count : Bytes → ℕ)
    → ((a : Bytes) → count a + side a tx.from + side a tx.to ≤ 255)
    → IsCounted p count
    → IsCounted (index_transaction time tx p) (λ a. count a + side a tx.from + side a tx.to)
unfolding index_transaction
index_transaction-IsCounted time tx p count h c =
    index_side-IsCounted tx.to (or_zero tx.from) tx.tx_hash tx.value time _
      (λ a. count a + side a tx.from) h
      (index_side-IsCounted tx.from (or_zero tx.to) tx.tx_hash (negate tx.value) time p count
        (λ a. omega (arith, h a)) c)

-- The loop of CreateIndexData, from a state that counts its addresses and where no address comes to
-- more than 255 uses: afterwards the map counts the uses of each address, no entry is above that
-- count, and the sequence of each record lies between 1 and the count of its address.
pub index_transactions-IsCounted :
    (time : ℤ) (txs : List TransactionDetail) (p : Progress) (count : Bytes → ℕ)
    → ((a : Bytes) → count a + uses a txs ≤ 255)
    → IsCounted p count
    → IsCounted (index_transactions time txs p) (λ a. count a + uses a txs)
unfolding index_transactions uses
index_transactions-IsCounted time [] p count h c =
    IsCounted-eq p count (λ a. count a + 0) (λ a. omega arith) c
index_transactions-IsCounted time (tx ∷ txs) p count h c =
    IsCounted-eq _ (λ a. count a + side a tx.from + side a tx.to + uses a txs) _ (λ a. omega arith)
      (index_transactions-IsCounted time txs (index_transaction time tx p)
        (λ a. count a + side a tx.from + side a tx.to) (λ a. omega (arith, h a))
        (index_transaction-IsCounted time tx p count (λ a. omega (arith, h a)) c))

-- What holds of the addresses of the transactions holds of every key of the map.
module _ {κ} (P : Bytes → Type κ) where
  abbrev pub Sides : TransactionDetail → Type κ
  Sides tx = (bytes_eq tx.from [] ≡ false → P tx.from) × (bytes_eq tx.to [] ≡ false → P tx.to)

  index_side-keys :
      (address couple tx_hash : Bytes) (value time : ℤ) (p : Progress)
      → (bytes_eq address [] ≡ false → P address)
      → All (λ (e : Bytes × ℕ). P e.0) p.sequence_map
      → All (λ (e : Bytes × ℕ). P e.0) (index_side address couple value tx_hash time p).sequence_map
  unfolding index_side append_side
  index_side-keys address couple tx_hash value time p h a =
      elim (Bool-cases (bytes_eq address [])) [
        | inl e ↦ rw (e, index_side) a
        | inr e ↦
            rw (e, index_side)
              (bump-All (λ (e : Bytes × ℕ). P e.0) address p.sequence_map (h e) (h e) a)
      ]

  pub index_transactions-keys :
      (time : ℤ) (txs : List TransactionDetail) (p : Progress)
      → All Sides txs
      → All (λ (e : Bytes × ℕ). P e.0) p.sequence_map
      → All (λ (e : Bytes × ℕ). P e.0) (index_transactions time txs p).sequence_map
  unfolding index_transactions index_transaction
  index_transactions-keys time [] p _ a = a
  index_transactions-keys time (tx ∷ txs) p (sides, h) a =
      index_transactions-keys time txs (index_transaction time tx p) h (
        index_side-keys tx.to (or_zero tx.from) tx.tx_hash tx.value time _ sides.1
          (index_side-keys tx.from (or_zero tx.to) tx.tx_hash (negate tx.value) time p sides.0 a))

-- Every record has the time of the block.
abbrev Timed : ℤ → AddressIndex → Type 0
Timed time i = i.time ≡ some time

index_side-times :
    (address couple tx_hash : Bytes) (value time : ℤ) (p : Progress)
    → All (Timed time) p.address_index
    → All (Timed time) (index_side address couple value tx_hash time p).address_index
unfolding index_side append_side
index_side-times address couple tx_hash value time p h = elim (Bool-cases (bytes_eq address [])) [
  | inl e ↦ rw (e, index_side) h
  | inr e ↦ rw (e, index_side) (All-append (Timed time) p.address_index _ h (refl, tt))
]

pub index_transactions-times :
    (time : ℤ) (txs : List TransactionDetail) (p : Progress)
    → All (λ (i : AddressIndex). i.time ≡ some time) p.address_index
    → All (λ (i : AddressIndex). i.time ≡ some time) (index_transactions time txs p).address_index
unfolding index_transactions index_transaction
index_transactions-times time [] p h = h
index_transactions-times time (tx ∷ txs) p h =
    index_transactions-times time txs (index_transaction time tx p) (
      index_side-times tx.to (or_zero tx.from) tx.tx_hash tx.value time _
        (index_side-times tx.from (or_zero tx.to) tx.tx_hash (negate tx.value) time p h))
