-- ===== src/Http.antt =====
-- http: the requests and the responses of the server.
pub mod Types
pub mod Params
pub mod Extra
pub mod Accounts
pub mod Batches
pub mod Admin
pub mod Server
use account_indexer.Common.{ℕ, Bytes, List, [], ◌∷◌, ◌++◌, codes}
use account_indexer.Common.Outcome.{ok}
use account_indexer.Common.Action.{Action}
use account_indexer.Config.{VersionInfo}
use account_indexer.Http.Types.{
  EiTransactionsByAccount, EiTotalTransaction, EiBlocks, EiBatchStatus,
}

-- A parameter of the path and one of the query, which is empty where it is missing.
pub record Request : Type 0 where
  pub param : Bytes → Bytes
  pub query : Bytes → Bytes

-- What is printed as JSON: `message` is gin.H{"msg": …}.
pub data Body : Type 0 where
  message : Bytes → Body
  transactions : EiTransactionsByAccount → Body
  total : EiTotalTransaction → Body
  blocks : EiBlocks → Body
  batches : List EiBatchStatus → Body
  text : Bytes → Body
  version : VersionInfo → Body

pub record Response : Type 0 where
  pub status : ℕ
  pub body : Body

-- What a handler has written, in its order.
abbrev pub Written : Type 0
Written = List Response

-- c.JSON
unfoldable pub json : ℕ → Body → Action Written Unit
json status body written = (ok tt, written ++ (record { status = status; body = body } ∷ []))
