-- ===== src/Fetcher/Block.antt =====
-- What FetchABlock returns.
use account_indexer.Common.{
  ℕ, suc, Bool, Option, none, some, ◌⊎◌, ◌+◌, Bytes, true, false, List, [], ◌∷◌, ◌++◌, length,
  append_assoc, append-nil, inl, inr, ◌≡◌, refl, sym, ap, ◌∙◌, arith,
}
use account_indexer.Common.Int.{ℤ, pos, int64, eq_ℤ}
use account_indexer.Common.Outcome.{Error}
use native.Mathlib.Nat.{zero-add}
use account_indexer.Types.{TransactionDetail}
use account_indexer.Fetcher.{
  EthTransaction, EthBlock, EthClient, or_blank, is_creation, receipt_entry, entries,
  fetch_transactions, fetch_a_block,
}

-- A transfer of the value of a transaction.
abbrev pub transfer : EthTransaction → Bytes → Bytes → TransactionDetail
transfer tx from to = record { from = from; to = to; tx_hash = tx.hash; value = tx.value }

module _ (client : EthClient) (block_hash : Bytes) where
  -- The node names a sender for each of the transactions, of which the first has an index.
  abbrev pub Sent : ℕ → List (EthTransaction × Bytes) → Type 0
  Sent index [] = Unit
  Sent index ((tx, sender) ∷ txs) =
      (client.transaction_sender tx block_hash index ≡ inr sender) × Sent (index + 1) txs

  abbrev pub chain : List (EthTransaction × Bytes) → List EthTransaction
  chain [] = []
  chain ((tx, sender) ∷ txs) = tx ∷ chain txs

  -- What is indexed of a transaction, by its receiver, whether the low 64 bits of its value are 0,
  -- and the answer of the node to the question for the receipt: the transfer from the sender to the
  -- receiver; without a receiver, the transfer to a blank address, and after it the address of the
  -- contract as the receiver of the same hash and value, from a blank address, if the value is 0 and
  -- the node has a receipt.
  abbrev pub shown_as :
      EthTransaction → Bytes → Option Bytes → Bool → Error ⊎ Option Bytes → List TransactionDetail
  shown_as tx sender (some receiver) zero_value receipt = transfer tx sender receiver ∷ []
  shown_as tx sender none false receipt = transfer tx sender [] ∷ []
  shown_as tx sender none true (inl err) = transfer tx sender [] ∷ []
  shown_as tx sender none true (inr none) = transfer tx sender [] ∷ []
  shown_as tx sender none true (inr (some contract)) =
      transfer tx sender [] ∷ transfer tx [] contract ∷ []

  -- All of it, in the order of the transactions.
  abbrev pub all_shown : List (EthTransaction × Bytes) → List TransactionDetail
  all_shown [] = []
  all_shown ((tx, sender) ∷ txs) =
      shown_as tx sender tx.receiver (eq_ℤ (int64 tx.value) (pos 0))
        (client.transaction_receipt tx.hash)
      ++ all_shown txs

  entries-shown_as :
      (tx : EthTransaction) (sender : Bytes)
      → entries client tx sender
        ≡ shown_as tx sender tx.receiver
            (eq_ℤ (int64 tx.value) (pos 0))
            (client.transaction_receipt tx.hash)
  unfolding entries or_blank is_creation receipt_entry
  entries-shown_as tx sender =
      by_cases tx.receiver (eq_ℤ (int64 tx.value) (pos 0)) (client.transaction_receipt tx.hash) refl
        refl refl
    where
      by_cases :
          (o : Option Bytes) (z : Bool) (r : Error ⊎ Option Bytes)
          → tx.receiver ≡ o
          → eq_ℤ (int64 tx.value) (pos 0) ≡ z
          → client.transaction_receipt tx.hash ≡ r
          → entries client tx sender ≡ shown_as tx sender o z r
      by_cases (some to) z r e f h = rw (e, entries) refl
      by_cases none false r e f h = rw (e, entries) (rw (f, entries) refl)
      by_cases none true (inl err) e f h = rw (e, entries) (rw (f, entries) (rw (h, entries) refl))
      by_cases none true (inr none) e f h = rw (e, entries) (rw (f, entries) (rw (h, entries) refl))
      by_cases none true (inr (some c)) e f h =
          rw (e, entries) (rw (f, entries) (rw (h, entries) refl))

  fetched :
      (txs : List (EthTransaction × Bytes)) (rest : List EthTransaction) (index : ℕ)
      (result : List TransactionDetail)
      → Sent index txs
      → fetch_transactions client block_hash index result (chain txs ++ rest)
        ≡ fetch_transactions client block_hash (index + length txs) (result ++ all_shown txs) rest
  unfolding fetch_transactions
  fetched [] rest index result h =
      ap (λ i. fetch_transactions client block_hash i result rest) (omega arith)
      ∙ ap (λ r. fetch_transactions client block_hash (index + 0) r rest) (sym (append-nil result))
  fetched ((tx, sender) ∷ txs) rest index result (h, hs) = rw h (
      fetched txs rest (index + 1) (result ++ entries client tx sender) hs
      ∙ ap
          (λ i.
            fetch_transactions client block_hash i
              ((result ++ entries client tx sender) ++ all_shown txs) rest)
          (omega arith)
      ∙ ap (λ r. fetch_transactions client block_hash (index + suc (length txs)) r rest)
          (append_assoc result (entries client tx sender) (all_shown txs))
      ∙ ap
          (λ e.
            fetch_transactions client block_hash (index + suc (length txs))
              (result ++ (e ++ all_shown txs)) rest)
          (entries-shown_as tx sender))

  stops :
      (tx : EthTransaction) (after : List EthTransaction) (index : ℕ)
      (result : List TransactionDetail) (err : Error)
      → client.transaction_sender tx block_hash index ≡ inl err
      → fetch_transactions client block_hash index result (tx ∷ after) ≡ inl err
  unfolding fetch_transactions
  stops tx after index result err e = rw (e, fetch_transactions) refl

-- FetchABlock on a block whose transactions all have a sender: it returns the number and the time of
-- the block, and what is indexed of its transactions, in their order, and does not switch the IPC.
-- Of a transaction with a receiver that is the transfer from the sender to the receiver. Of one
-- without, it is the transfer from the sender to a blank address, and after it, where the low 64 bits
-- of the value are 0 and the node has a receipt with a contract, a transfer of the same hash and
-- value from a blank address to the contract.
pub fetch_a_block_entries :
    (client : EthClient) (number : ℤ) (block : EthBlock) (txs : List (EthTransaction × Bytes))
    → client.block_by_number number ≡ inr block
    → block.transactions ≡ chain client block.hash txs
    → Sent client block.hash 0 txs
    → fetch_a_block client number ≡ (
      inr (record {
        block_number = block.number;
        time = pos block.time;
        transactions = all_shown client block.hash txs;
      }),
      false,
    )
unfolding fetch_a_block fetch_transactions
fetch_a_block_entries client number block txs answer parts h =
    let all : fetch_transactions client block.hash 0 [] block.transactions
        ≡ inr (all_shown client block.hash txs) =
      ap (fetch_transactions client block.hash 0 [])
        (parts ∙ sym (append-nil (chain client block.hash txs)))
      ∙ fetched client block.hash txs [] 0 [] h in
    rw (answer, fetch_a_block) (rw (all, fetch_a_block) refl)

-- Where the node gives no sender of a transaction, and does so for each one before it, FetchABlock
-- returns the node's error, without a block, and switches the IPC.
pub fetch_a_block_no_sender :
    (client : EthClient) (number : ℤ) (block : EthBlock) (txs : List (EthTransaction × Bytes))
    (tx : EthTransaction) (after : List EthTransaction) (err : Error)
    → client.block_by_number number ≡ inr block
    → block.transactions ≡ chain client block.hash txs ++ (tx ∷ after)
    → Sent client block.hash 0 txs
    → client.transaction_sender tx block.hash (length txs) ≡ inl err
    → fetch_a_block client number ≡ (inl err, true)
unfolding fetch_a_block fetch_transactions
fetch_a_block_no_sender client number block txs tx after err answer parts h e =
    let stopped : fetch_transactions client block.hash 0 [] block.transactions ≡ inl err =
      ap (fetch_transactions client block.hash 0 []) parts
      ∙ fetched client block.hash txs (tx ∷ after) 0 [] h
      ∙ stops client block.hash tx after (0 + length txs) (all_shown client block.hash txs) err
          (rw zero-add e) in
    rw (answer, fetch_a_block) (rw (stopped, fetch_a_block) refl)
