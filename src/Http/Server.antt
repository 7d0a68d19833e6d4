-- ===== src/Http/Server.antt =====
-- server.go: the server's fetcher, and which handler is behind which path.
use account_indexer.Common.{ℕ, Bytes, List, [], ◌∷◌, Bool, Option, none, some, ◌⊎◌, inl, inr, codes}
use account_indexer.Common.Outcome.{Error}
use account_indexer.Ipc.{IpcManager, subscribe}
use account_indexer.Fetcher.{EthClient}
use account_indexer.Fetcher.Dial.{ChainFetch, new_chain_fetch}

-- The fetcher is nil where the node could not be reached.
pub record Server : Type 0 where
  pub fetcher : Option EthClient

-- NewServer returns a copy of the server whose pointer it subscribes: there are two of them.
pub record Servers : Type 0 where
  pub subscribed : Server
  pub running : Server

fetcher_of : Error ⊎ ChainFetch → Option EthClient
fetcher_of (inl err) = none
fetcher_of (inr cf) = some cf.client

-- The server subscribes, as `sub`, and makes a fetcher. Whether the IPC is switched is returned.
unfoldable pub new_server :
    (Bytes → Error ⊎ EthClient) → ℕ → IpcManager → (Servers × Bool) × IpcManager
unfolding fetcher_of
new_server dial sub im =
    let (dialled, switched) = new_chain_fetch dial im.cur_ipc in
    let server : Server = record { fetcher = fetcher_of dialled } in
    ((record { subscribed = server; running = server }, switched), subscribe sub im)

-- The old fetcher is kept where there is no new one. The call reaches the one that has subscribed.
unfoldable pub ipc_updated : (Bytes → Error ⊎ EthClient) → IpcManager → Servers → Servers × Bool
ipc_updated dial im servers =
    let (dialled, switched) = new_chain_fetch dial im.cur_ipc in
    elim dialled [
      | inl err ↦ (servers, switched)
      | inr cf ↦ (record servers { subscribed = record { fetcher = some cf.client } }, switched)
    ]

pub data Handler : Type 0 where
  handle_transactions_by_account : Handler
  handle_total_by_account : Handler
  handle_batch_status : Handler
  handle_block : Handler
  handle_rerun_block : Handler
  handle_config : Handler
  handle_version : Handler

pub data Method : Type 0 where
  get : Method
  post : Method

-- The paths of the interface, and those behind the name and the password of the administrator.
abbrev pub routes : List (Method × Bytes × Handler)
routes =
    (get, codes "/api/v1/accounts/:accountNumber", handle_transactions_by_account)
    ∷ (get, codes "/api/v1/accounts/:accountNumber/total", handle_total_by_account)
    ∷ (get, codes "/admin/batches/status", handle_batch_status)
    ∷ (get, codes "/admin/blocks/:blockNumber", handle_block)
    ∷ (post, codes "/admin/blocks/:blockNumber", handle_rerun_block)
    ∷ (get, codes "/admin/blocks", handle_block)
    ∷ (get, codes "/admin/config", handle_config)
    ∷ (get, codes "/admin/version", handle_version)
    ∷ []
