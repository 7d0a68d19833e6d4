-- ===== src/Fetcher.antt =====
-- fetcher/fetch.go: blocks and transactions from a geth node, which is a parameter of the model.
pub mod Block
pub mod Realtime
pub mod Dial
use account_indexer.Common.{
  ℕ, ◌+◌, Bytes, Bool, true, false, ◌&&◌, List, [], ◌∷◌, ◌++◌, Option, none, some, ◌⊎◌, inl, inr,
  if◌then◌else◌,
}
use account_indexer.Common.Int.{ℤ, pos, negsuc, eq_ℤ, int64}
use account_indexer.Common.Outcome.{Error}
use account_indexer.Geth.{Geth}
use account_indexer.Types.{TransactionDetail, TransactionExtra, BlockDetail}

-- A transaction of go-ethereum, with its addresses and its hash as texts. It has no receiver if it
-- creates a contract. Its value is never nil. `extra` is its Data, Gas and GasPrice.
pub record EthTransaction : Type 0 where
  pub receiver : Option Bytes
  pub hash : Bytes
  pub value : ℤ
  pub extra : TransactionExtra

pub record EthBlock : Type 0 where
  pub number : ℤ
  pub time : ℕ
  pub hash : Bytes
  pub transactions : List EthTransaction

-- A receipt that is not nil is the address of the contract. A subscription is its error.
pub record EthClient : Type 0 where
  pub block_by_number : ℤ → Error ⊎ EthBlock
  pub transaction_sender : EthTransaction → Bytes → ℕ → Error ⊎ Bytes
  pub transaction_receipt : Bytes → Error ⊎ Option Bytes
  pub latest_header : Error ⊎ ℤ
  pub transaction_by_hash : Bytes → Error ⊎ EthTransaction
  pub subscribe_new_head : Option Error

unfoldable pub or_blank : Option Bytes → Bytes
or_blank none = []
or_blank (some to) = to

-- A contract that is created with no value. Int64 reads the low 64 bits of the value.
unfoldable pub is_creation : EthTransaction → Bool
is_creation tx = elim tx.receiver [ none ↦ eq_ℤ (int64 tx.value) (pos 0) | some to ↦ false ]

-- The entry of the contract. A receipt that cannot be had is left out.
unfoldable pub receipt_entry : EthTransaction → Error ⊎ Option Bytes → List TransactionDetail
receipt_entry tx (inl err) = []
receipt_entry tx (inr none) = []
receipt_entry tx (inr (some contract)) =
    record { from = []; to = contract; tx_hash = tx.hash; value = tx.value } ∷ []

module _ (client : EthClient) where
  -- What a round of the loop appends.
  unfoldable pub entries : EthTransaction → Bytes → List TransactionDetail
  entries tx sender =
      record { from = sender; to = or_blank tx.receiver; tx_hash = tx.hash; value = tx.value }
      ∷ (if is_creation tx then receipt_entry tx (client.transaction_receipt tx.hash) else [])

  -- The loop over the transactions, from one at `index` on.
  unfoldable pub fetch_transactions :
      Bytes → ℕ → List TransactionDetail → List EthTransaction → Error ⊎ List TransactionDetail
  fetch_transactions block_hash index transactions [] = inr transactions
  fetch_transactions block_hash index transactions (tx ∷ txs) =
      elim (client.transaction_sender tx block_hash index) [
        | inl err ↦ inl err
        | inr sender ↦
            fetch_transactions block_hash (index + 1) (transactions ++ entries tx sender) txs
      ]

  -- The result, and whether the IPC is switched.
  unfoldable pub fetch_a_block : ℤ → (Error ⊎ BlockDetail) × Bool
  fetch_a_block block_number = elim (client.block_by_number block_number) [
    | inl err ↦ (inl err, true)
    | inr a_block ↦ elim (fetch_transactions a_block.hash 0 [] a_block.transactions) [
      | inl err ↦ (inl err, true)
      | inr transactions ↦ (
        inr (record {
          block_number = a_block.number;
          time = pos a_block.time;
          transactions = transactions;
        }),
        false,
      )
    ]
  ]

  -- big.NewInt(-1) is returned beside an error.
  unfoldable pub get_latest_block : (ℤ × Option Error) × Bool
  get_latest_block = elim client.latest_header [
    | inl err ↦ ((negsuc 0, some err), true)
    | inr number ↦ ((number, none), false)
  ]

-- The additional data of a transaction. The hash is made before the error of Decode is looked at.
unfoldable pub transaction_by_hash : Geth → EthClient → Bytes → Error ⊎ TransactionExtra
transaction_by_hash g client tx_hash =
    let (bytes, err) = g.decode tx_hash in
    let hash = g.bytes_to_hash bytes in
    elim err [
      | some e ↦ inl e
      | none ↦ elim (client.transaction_by_hash hash) [ inl e ↦ inl e | inr tx ↦ inr tx.extra ]
    ]
