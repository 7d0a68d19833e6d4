-- ===== src/Fetcher/Dial.antt =====
-- fetch.go: ChainFetch, NewChainFetch and the end of its subscription.
use account_indexer.Common.{Bytes, Bool, true, false, none, some, ◌⊎◌, inl, inr, codes}
use account_indexer.Common.Outcome.{Error, Outcome, ok, panic, ◌>>=◌}
use account_indexer.Fetcher.{EthClient}

-- A channel of Go, as far as closing it goes.
pub data Channel : Type 0 where
  nil_channel : Channel
  open_channel : Channel
  closed_channel : Channel

-- close(c), where c is not nil.
unfoldable pub close : Channel → Outcome Channel
close nil_channel = ok nil_channel
close open_channel = ok closed_channel
close closed_channel = panic (codes "close of closed channel")

pub record ChainFetch : Type 0 where
  pub client : EthClient
  pub block_header_channel : Channel
  pub subscribed : Bool

-- `dial` is ethclient.Dial. The result, and whether the IPC is switched.
unfoldable pub new_chain_fetch : (Bytes → Error ⊎ EthClient) → Bytes → (Error ⊎ ChainFetch) × Bool
new_chain_fetch dial ipc_path = elim (dial ipc_path) [
  | inl err ↦ (inl err, true)
  | inr client ↦ (
    inr (record { client = client; block_header_channel = nil_channel; subscribed = false }),
    false,
  )
]

-- How RealtimeFetch begins.
unfoldable pub open_headers : ChainFetch → ChainFetch
open_headers cf = elim cf.client.subscribe_new_head [
  | some err ↦ record cf { block_header_channel = open_channel }
  | none ↦ record cf { block_header_channel = open_channel; subscribed = true }
]

-- IpcUpdated: the subscription is ended and the channel of the headers closed.
unfoldable pub stop_headers : ChainFetch → Outcome ChainFetch
stop_headers cf = do
  channel ← close cf.block_header_channel
  ok (record cf { block_header_channel = channel; subscribed = false })
