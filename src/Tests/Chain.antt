-- ===== src/Tests/Chain.antt =====
-- A node with one block: a payment, and a contract that is created.
use account_indexer.Common.{
  ℕ, true, false, [], ◌∷◌, none, some, codes, ◌==◌, inl, inr, if◌then◌else◌, ◌≡◌, refl,
}
use account_indexer.Common.Int.{pos, int64}
use account_indexer.Types.{TransactionExtra}
use account_indexer.Fetcher.{EthTransaction, EthBlock, EthClient, fetch_a_block}
use account_indexer.Fetcher.Block.{transfer, fetch_a_block_entries, fetch_a_block_no_sender}
use account_indexer.Tests.Blocks.{alice, bob, time}

abbrev extra : TransactionExtra
extra = record { data_bytes = some (1 ∷ 2 ∷ []); gas = 21000; gas_price = pos 9 }

abbrev paid : EthTransaction
paid = record { receiver = some bob; hash = codes "0x01"; value = pos 5; extra = extra }

abbrev created_tx : EthTransaction
created_tx = record { receiver = none; hash = codes "0x02"; value = pos 0; extra = extra }

abbrev mined : EthBlock
mined = record {
  number = pos 7;
  time = time;
  hash = codes "0x07";
  transactions = paid ∷ created_tx ∷ [];
}

-- The node knows the senders of the first `known` transactions.
abbrev pub node : ℕ → EthClient
node known = record {
  block_by_number = λ n. inr mined;
  transaction_sender = λ tx h i. if i == known then inl (codes "no sender") else inr alice;
  transaction_receipt = λ h. inr (some bob);
  latest_header = inr (pos 7);
  transaction_by_hash = λ h. inr paid;
  subscribe_new_head = none;
}

fetch_a_block_entries_example : fetch_a_block (node 2) (pos 7) ≡ (
  inr (record {
    block_number = pos 7;
    time = pos time;
    transactions =
        transfer paid alice bob ∷ transfer created_tx alice [] ∷ transfer created_tx [] bob ∷ [];
  }),
  false,
)
unfolding int64
fetch_a_block_entries_example =
    fetch_a_block_entries (node 2) (pos 7) mined ((paid, alice) ∷ (created_tx, alice) ∷ []) refl
      refl (refl, (refl, tt))

fetch_a_block_no_sender_example : fetch_a_block (node 1) (pos 7) ≡ (inl (codes "no sender"), true)
fetch_a_block_no_sender_example =
    fetch_a_block_no_sender (node 1) (pos 7) mined ((paid, alice) ∷ []) created_tx []
      (codes "no sender") refl refl (refl, tt) refl
