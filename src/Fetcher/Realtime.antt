-- ===== src/Fetcher/Realtime.antt =====
-- fetch.go: RealtimeFetch.
use account_indexer.Common.{Bool, true, false, List, [], ◌∷◌, none, some, inl, inr}
use account_indexer.Common.Int.{ℤ}
use account_indexer.Types.{BlockDetail}
use account_indexer.Fetcher.{EthClient, fetch_a_block}

-- What RealtimeFetch does: the blocks that it sends, whether it closes the channel of the blocks, and
-- whether it switches the IPC.
pub record Sent : Type 0 where
  pub blocks : List BlockDetail
  pub closed : Bool
  pub switched : Bool

unfoldable pub send : BlockDetail → Sent → Sent
send block_detail sent = record sent { blocks = block_detail ∷ sent.blocks }

module _ (client : EthClient) where
  -- The loop, over the numbers of the headers that are received until their channel is closed.
  unfoldable pub receive_headers : List ℤ → Sent
  unfolding send
  receive_headers [] = record { blocks = []; closed = true; switched = false }
  receive_headers (block_number ∷ numbers) =
      let rest = receive_headers numbers in
      let (result, switched) = fetch_a_block client block_number in
      elim result [
        | inl err ↦ record { blocks = []; closed = true; switched = switched }
        | inr block_detail ↦ send block_detail rest
      ]

  -- After an error of the subscription the channel of the blocks stays open.
  unfoldable pub realtime_fetch : List ℤ → Sent
  realtime_fetch numbers = elim client.subscribe_new_head [
    | some err ↦ record { blocks = []; closed = false; switched = true }
    | none ↦ receive_headers numbers
  ]
