-- ===== src/Indexer/Interleave.antt =====
-- indexer.go: the goroutines of index, whose blocks are processed in an order that is not known.
pub mod Times
pub mod AnyOrder
pub mod Known
pub mod Whole
use account_indexer.Common.{
  ℕ, Bytes, ◌+◌, Bool, true, false, List, [], ◌∷◌, ◌++◌, Option, none, some, codes, ◌≡◌,
}
use account_indexer.Common.Int.{ℤ}
use account_indexer.Common.Outcome.{Error, panic}
use account_indexer.Common.Action.{Action, pure, lift, ◌>>=◌}
use account_indexer.Go.BigInt.{string}
use account_indexer.Geth.{Geth}
use account_indexer.Types.{BlockDetail}
use account_indexer.Dao.{KeyValueDao}
use account_indexer.Repo.Store.{IndexRepo}
use account_indexer.Indexer.Process.{process_block}
use account_indexer.Indexer.Realtime.{Moments}

-- A call of ProcessBlock, from batchIndex or from realtimeIndex, with the number that was asked for
-- and the tag, which only batchIndex uses.
pub record Job : Type 0 where
  pub block : BlockDetail
  pub block_number : ℤ
  pub tag : Bytes
  pub is_batch : Bool

-- A goroutine that has calls left to make makes its next one.
pub data Takes : List (List Job) → Job → List (List Job) → Type 0 where
  this : (b : Job) (bs : List Job) (gs : List (List Job)) → Takes ((b ∷ bs) ∷ gs) b (bs ∷ gs)
  other :
      (g : List Job) (b : Job) (gs gs' : List (List Job))
      → Takes gs b gs'
      → Takes (g ∷ gs) b (g ∷ gs')

-- All calls, those of one goroutine after those of another.
abbrev pub in_turn : List (List Job) → List Job
in_turn [] = []
in_turn (g ∷ gs) = g ++ in_turn gs

-- The goroutines' calls, in the order in which they are made.
pub data Interleaves : List (List Job) → List Job → Type 0 where
  ended : (gs : List (List Job)) → in_turn gs ≡ [] → Interleaves gs []
  takes :
      (gs gs' : List (List Job)) (b : Job) (bs : List Job)
      → Takes gs b gs'
      → Interleaves gs' bs
      → Interleaves gs (b ∷ bs)

module _ (g : Geth) (address_dao block_dao : KeyValueDao) where
  abbrev Repo : Type 0
  Repo = IndexRepo g address_dao block_dao

  -- batchIndex panics where ProcessBlock returns an error, and realtimeIndex drops it.
  ended_by : Bool → Bytes → Option Error → Action Repo Unit
  ended_by false message err = pure tt
  ended_by true message none = pure tt
  ended_by true message (some e) = lift (panic (message ++ e))

  -- tag + text + blockNumber.String() + " , error is "
  message : Job → Bytes
  message j =
      j.tag
      ++ (codes " Indexer: cannot process block "
          ++ (string j.block_number ++ codes " , error is "))

  -- The calls are made one by one, from the `i`-th on.
  unfoldable pub process_jobs : Moments → ℕ → List Job → Action Repo Unit
  unfolding ended_by message
  process_jobs w i [] = pure tt
  process_jobs w i (j ∷ js) = do
    err ← process_block g address_dao block_dao (w.now i) (w.order i) j.block j.is_batch
    _ ← ended_by j.is_batch (message j) err
    process_jobs w (i + 1) js
