-- ===== src/Http/Admin.antt =====
-- server.go: the handlers of the administrator.
use account_indexer.Common.{ℕ, Bytes, Bool, false, ◌++◌, none, some, ◌⊎◌, codes}
use account_indexer.Common.Int.{ℤ}
use account_indexer.Common.Outcome.{Error, ok, traverse}
use account_indexer.Common.Action.{Action, lift, ◌>>=◌}
use account_indexer.Go.BigInt.{set_string}
use account_indexer.Geth.{Geth}
use account_indexer.Dao.{KeyValueDao}
use account_indexer.Repo.Store.{IndexRepo}
use account_indexer.Repo.Blocks.{get_blocks}
use account_indexer.Repo.Batches.{get_all_batch_statuses}
use account_indexer.Ipc.{IpcManager}
use account_indexer.Config.{Configuration, config_string, get_version}
use account_indexer.Fetcher.{EthClient}
use account_indexer.Indexer.Data.{SequenceMap}
use account_indexer.Indexer.Rerun.{fetch_and_process}
use account_indexer.Http.{
  Request, Written, json, Body.message, Body.blocks, Body.batches, Body.text, Body.version,
}
use account_indexer.Http.Params.{get_paging_query_params}
use account_indexer.Http.Batches.{to_ei_batch}

unfoldable pub get_config : (ℤ → ℤ) → Configuration → IpcManager → Action Written Unit
get_config local con im = json 200 (text (config_string local con ++ (codes " ipc=" ++ im.cur_ipc)))

unfoldable pub get_version_of : Action Written Unit
get_version_of = json 200 (version get_version)

module _ (batch_dao : KeyValueDao) where
  unfoldable pub get_batch_status : batch_dao.Db → Action Written Unit
  get_batch_status db = do
    batch_statuses ← lift (get_all_batch_statuses batch_dao db)
    response ← lift (traverse to_ei_batch batch_statuses)
    json 200 (batches response)

module _ (g : Geth) (address_dao block_dao : KeyValueDao) where
  unfoldable pub get_block : Request → IndexRepo g address_dao block_dao → Action Written Unit
  get_block c repo = do
    let (rows, start) = get_paging_query_params c
    (total, found) ←
        lift (get_blocks g address_dao block_dao (c.param (codes "blockNumber")) rows start repo)
    json 200 (blocks (record { total = total; start = start; indexes = found }))

  -- What the handler of a block that is run again works on.
  pub record Session : Type 0 where
    pub written : Written
    pub repo : IndexRepo g address_dao block_dao

  answer : ℕ → Bytes → Bool → Action Session Bool
  answer status msg switched s =
      (ok switched, record s { written = (json status (message msg) s.written).1 })

  answer_text : Bytes → Bool → Action Session Bool
  answer_text msg switched s =
      (ok switched, record s { written = (json 200 (text msg) s.written).1 })

  on_repo : {A : Type 0} → Action (IndexRepo g address_dao block_dao) A → Action Session A
  on_repo m s = let (r, repo) = m s.repo in (r, record s { repo = repo })

  -- Whether the IPC is switched is returned.
  unfoldable pub rerun_block :
      (Bytes → Error ⊎ EthClient)
      → Bytes
      → ℤ
      → (SequenceMap → SequenceMap)
      → Request
      → Action Session Bool
  unfolding answer answer_text on_repo
  rerun_block dial ipc now range_map c =
      let block_number_str = c.param (codes "blockNumber") in
      elim (set_string block_number_str) [
        | none ↦ answer 400 (codes "invalid block nunmber " ++ block_number_str) false
        | some block_number ↦ do
          (err, switched) ←
              on_repo
                (fetch_and_process g address_dao block_dao dial ipc now range_map block_number)
          elim err [
            | some e ↦ answer 500 (codes "internal server error " ++ e) switched
            | none ↦
                answer_text
                  (codes "Indexer processed block " ++ (block_number_str ++ codes " successfully"))
                  switched
          ]
      ]
