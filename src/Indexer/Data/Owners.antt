-- ===== src/Indexer/Data/Owners.antt =====
-- Whose the records of a block are.
use account_indexer.Common.{
  Bytes, false, List, [], ◌∷◌, bytes_eq, Bool-cases, inl, inr, All, All-append, ◌≡◌,
}
use account_indexer.Common.Int.{ℤ, negate}
use account_indexer.Types.{AddressIndex, TransactionDetail}
use account_indexer.Indexer.Data.{
  Progress, append_side, index_side, or_zero, index_transaction, index_transactions,
}
use account_indexer.Indexer.Data.Uses.{Sides}

-- What holds of the addresses of the transactions holds of the address of every record.
module _ {κ} (P : Bytes → Type κ) where
  abbrev Owned : AddressIndex → Type κ
  Owned i = P i.address

  index_side-owners :
      (address couple tx_hash : Bytes) (value time : ℤ) (p : Progress)
      → (bytes_eq address [] ≡ false → P address)
      → All Owned p.address_index
      → All Owned (index_side address couple value tx_hash time p).address_index
  unfolding index_side append_side
  index_side-owners address couple tx_hash value time p h a =
      elim (Bool-cases (bytes_eq address [])) [
        | inl e ↦ rw (e, index_side) a
        | inr e ↦ rw (e, index_side) (All-append Owned p.address_index _ a (h e, tt))
      ]

  pub index_transactions-owners :
      (time : ℤ) (txs : List TransactionDetail) (p : Progress)
      → All (Sides P) txs
      → All (λ (i : AddressIndex). P i.address) p.address_index
      → All (λ (i : AddressIndex). P i.address) (index_transactions time txs p).address_index
  unfolding index_transactions index_transaction
  index_transactions-owners time [] p _ a = a
  index_transactions-owners time (tx ∷ txs) p (sides, h) a =
      index_transactions-owners time txs (index_transaction time tx p) h (
        index_side-owners tx.to (or_zero tx.from) tx.tx_hash tx.value time _ sides.1
          (index_side-owners tx.from (or_zero tx.to) tx.tx_hash (negate tx.value) time p sides.0 a))
