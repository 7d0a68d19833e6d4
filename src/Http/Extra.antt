-- ===== src/Http/Extra.antt =====
-- server.go: the additional data of a transaction, in the loop of getTransactionsByAccount.
use account_indexer.Common.{
  Bytes, Bool, true, false, ◌||◌, List, [], ◌∷◌, Option, some, inl, inr, codes, bytes_eq,
  if◌then◌else◌,
}
use account_indexer.Common.Int.{ℤ}
use account_indexer.Common.Outcome.{Outcome, ok, deref, ◌>>=◌}
use account_indexer.Go.Strings.{split}
use account_indexer.Geth.{Geth}
use account_indexer.Types.{AddressIndex, TransactionExtra}
use account_indexer.Fetcher.{EthClient, transaction_by_hash}
use account_indexer.Http.Types.{EiAddress, address_to_ei_address}

-- common.Contains
unfoldable pub contains : List Bytes → Bytes → Bool
contains [] item = false
contains (a ∷ arr) item = bytes_eq a item || contains arr item

-- Which of the additional fields are asked for.
pub record Needs : Type 0 where
  pub tx_data : Bool
  pub tx_gas : Bool
  pub tx_gas_price : Bool

unfoldable pub needs_of : Bytes → Needs
needs_of fl_param =
    let addl_fields = split b',' fl_param in
    record {
      tx_data = contains addl_fields (codes "data");
      tx_gas = contains addl_fields (codes "gas");
      tx_gas_price = contains addl_fields (codes "gasPrice");
    }

-- The fields that are asked for are copied.
unfoldable pub with_extra : Needs → TransactionExtra → EiAddress → EiAddress
with_extra needs extra addr = record addr {
  data_bytes = if needs.tx_data then extra.data_bytes else addr.data_bytes;
  gas = if needs.tx_gas then extra.gas else addr.gas;
  gas_price = if needs.tx_gas_price then some extra.gas_price else addr.gas_price;
}

module _ (g : Geth) (local : ℤ → ℤ) (client : Option EthClient) where
  -- A transaction that cannot be had is logged, and the record stays as it is.
  unfoldable pub add_extra : Needs → EiAddress → Outcome EiAddress
  add_extra needs addr = do
    fetcher ← deref client
    elim (transaction_by_hash g fetcher addr.tx_hash) [
      | inl err ↦ ok addr
      | inr extra ↦ ok (with_extra needs extra addr)
    ]

  -- A round of the loop. The node is asked only where something is needed.
  unfoldable pub to_address : Needs → AddressIndex → Outcome EiAddress
  to_address needs idx = do
    addr ← address_to_ei_address local idx
    elim (needs.tx_data || (needs.tx_gas || needs.tx_gas_price)) [
      | true ↦ add_extra needs addr
      | false ↦ ok addr
    ]
