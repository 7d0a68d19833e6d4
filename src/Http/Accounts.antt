-- ===== src/Http/Accounts.antt =====
-- server.go: getTransactionsByAccount and getTotalByAccount.
pub mod Answers
pub mod Search
use account_indexer.Common.{
  ℕ, Bytes, Bool, true, false, ◌||◌, List, [], ◌∷◌, ◌++◌, Option, none, some, ◌⊎◌, inl, inr, codes,
  bytes_eq, ltb, if◌then◌else◌,
}
use account_indexer.Common.Int.{ℤ}
use account_indexer.Common.Outcome.{Error, Outcome, ok, deref, traverse}
use account_indexer.Common.Action.{Action, pure, lift, ◌>>=◌}
use account_indexer.Go.BigInt.{nat_string}
use account_indexer.Go.Strings.{split}
use account_indexer.Geth.{Geth}
use account_indexer.Types.{AddressIndex, TransactionExtra}
use account_indexer.Dao.{Range, KeyValueDao}
use account_indexer.Dao.Iterate.{num_max_transaction}
use account_indexer.Repo.Store.{IndexRepo}
use account_indexer.Repo.Query.{get_total_transaction, get_transaction_by_address}
use account_indexer.Fetcher.{EthClient, transaction_by_hash}
use account_indexer.Http.Types.{EiAddress}
use account_indexer.Http.Extra.{needs_of, to_address}
use account_indexer.Http.{Request, Written, json, Body.total, Body.transactions}
use account_indexer.Http.Params.{AccountParam, get_paging_query_params, get_account_param}

-- The total as text: a number above the most that is counted is shown as +10000.
unfoldable pub total_text : ℕ → Bytes
total_text n =
    if ltb num_max_transaction n then b'+' ∷ nat_string num_max_transaction else nat_string n

module _ (g : Geth) (address_dao block_dao : KeyValueDao) (bytes_prefix : Bytes → Range) where
  -- A handler stops where there is an error.
  unfoldable pub total_answer :
      IndexRepo g address_dao block_dao → AccountParam → Action Written Unit
  total_answer repo p = elim p.err [
    | some e ↦ pure tt
    | none ↦ json 200 (
        total (record {
          total =
              get_total_transaction g address_dao block_dao bytes_prefix p.account p.from_time
                p.to_time repo;
        }))
  ]

  unfoldable pub get_total_by_account :
      Request → IndexRepo g address_dao block_dao → Action Written Unit
  unfolding total_answer
  get_total_by_account c repo = do p ← get_account_param g c; total_answer repo p

module _ (g : Geth) (local : ℤ → ℤ) (client : Option EthClient)
    (address_dao block_dao : KeyValueDao) (bytes_prefix : Bytes → Range) where
  -- Where the parameters are in order.
  unfoldable pub answer_transactions :
      Request → AccountParam → IndexRepo g address_dao block_dao → Action Written Unit
  answer_transactions c p repo = do
    let (rows, start) = get_paging_query_params c
    (count, address_indexes) ← lift (
        get_transaction_by_address g address_dao block_dao bytes_prefix p.account rows start
          p.from_time p.to_time repo)
    addresses ←
        lift
          (traverse (to_address g local client (needs_of (c.query (codes "fl")))) address_indexes)
    json 200
        (transactions (record { total = total_text count; start = start; indexes = addresses }))

  -- A handler stops where there is an error.
  unfoldable pub transactions_answer :
      Request → IndexRepo g address_dao block_dao → AccountParam → Action Written Unit
  unfolding answer_transactions
  transactions_answer c repo p = elim p.err [
    | some e ↦ pure tt
    | none ↦ answer_transactions c p repo
  ]

  unfoldable pub get_transactions_by_account :
      Request → IndexRepo g address_dao block_dao → Action Written Unit
  get_transactions_by_account c repo = do p ← get_account_param g c; transactions_answer c repo p
