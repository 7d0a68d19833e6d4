-- ===== src/Command.antt =====
-- cmd/indexer/main.go: the flags, the configuration that they make, and the start of the program.
pub mod Bounds
pub mod Log
use account_indexer.Common.{
  ℕ, ◌*◌, ◌-◌, ◌^◌, suc, Bytes, Bool, true, false, ◌||◌, List, [], ◌∷◌, ◌++◌, Option, none, some,
  ◌⊎◌, inl, inr, codes, if◌then◌else◌,
}
use account_indexer.Common.Int.{ℤ, pos, negsuc, ltb_ℤ, int64}
use account_indexer.Common.Outcome.{Error, ok, panic}
use account_indexer.Common.Action.{Action, pure, lift, ◌>>=◌}
use account_indexer.Go.Strings.{split}
use account_indexer.DateTime.{Time}
use account_indexer.Config.{Configuration}
use account_indexer.Config.Duration.{duration_string}
use account_indexer.Ipc.{IpcManager, set_ipc}

-- A flag that is a float64 stands as the int64 that time.Duration makes of it.
pub record Flags : Type 0 where
  pub ipc : Bytes
  pub db : Bytes
  pub clean_interval : ℤ
  pub block_time_to_live : ℤ
  pub watcher_interval : ℤ
  pub oos_threshold : ℤ
  pub port : ℤ
  pub batch : ℤ

-- The values of the flags that are not given.
abbrev pub default_flags : Flags
default_flags = record {
  ipc = codes "/home/blockform/.ethereum/geth.ipc";
  db = codes "/home/blockform/account-indexer-db/geth_indexer_leveldb";
  clean_interval = pos 5;
  block_time_to_live = pos 4;
  watcher_interval = pos 5;
  oos_threshold = pos 300;
  port = pos 3000;
  batch = pos 8;
}

-- time.Second and so on, in nanoseconds.
abbrev pub seconds : ℕ → ℕ
seconds n = n * 10 ^ 9

-- time.Duration(n) * unit, which wraps round.
unfoldable pub times_unit : ℕ → ℤ → ℤ
times_unit unit (pos n) = int64 (pos (n * unit))
times_unit unit (negsuc n) = int64 (negsuc (suc n * unit - 1))

-- if duration < least { panic(…) }
unfoldable pub check : ℕ → ℤ → Error → Error → Action Configuration Unit
check least duration before after =
    if ltb_ℤ duration (pos least)
    then lift (panic (before ++ (duration_string duration ++ after)))
    else pure tt

modify : (Configuration → Configuration) → Action Configuration Unit
modify f con = (ok tt, f con)

set_clean_interval : ℤ → Action Configuration Unit
unfolding modify
set_clean_interval interval = do
  let duration = times_unit (seconds 60) interval
  _ ← modify (λ con. record con { clean_interval = duration })
  check (seconds 1) duration (codes "CleanInterval of ") (codes " is not valid")

set_block_ttl : ℤ → Action Configuration Unit
unfolding modify
set_block_ttl ttl = do
  let duration = times_unit (seconds 3600) ttl
  _ ← modify (λ con. record con { block_ttl = duration })
  check (seconds 3600) duration (codes "BlockTTL of ")
      (codes " is not valid. Should not be less than 1 hour")

set_watcher_interval : ℤ → Action Configuration Unit
unfolding modify
set_watcher_interval interval = do
  let duration = times_unit (seconds 60) interval
  _ ← modify (λ con. record con { watcher_interval = duration })
  check (seconds 1) duration (codes "WatcherInterval of ") (codes " is not valid")

set_oos_threshold : ℤ → Action Configuration Unit
unfolding modify
set_oos_threshold threshold = do
  let duration = times_unit (seconds 1) threshold
  _ ← modify (λ con. record con { oos_threshold = duration })
  check (seconds 1) duration (codes "OOSThreshold of ") (codes " is not valid")

-- The range of a byte.
check_batch : ℤ → Action Configuration Unit
check_batch batch =
    if ltb_ℤ batch (pos 1) || ltb_ℤ (pos 127) batch
    then lift (panic (codes "number of batch should be 1 to 127"))
    else pure tt

set_port_and_batch : ℤ → ℤ → Time → Action Configuration Unit
unfolding modify check_batch
set_port_and_batch port batch now = do
  _ ← modify (λ con. record con { port = port; num_batch = batch; start_time = now })
  check_batch batch

-- The one configuration of the program is filled in turn, up to the first value that is refused.
unfoldable pub set_config : Flags → Time → Action Configuration Unit
unfolding set_clean_interval set_block_ttl set_watcher_interval set_oos_threshold set_port_and_batch
set_config flags now = do
  _ ← set_clean_interval flags.clean_interval
  _ ← set_block_ttl flags.block_time_to_live
  _ ← set_watcher_interval flags.watcher_interval
  _ ← set_oos_threshold flags.oos_threshold
  set_port_and_batch flags.port flags.batch now

-- The singletons of the program.
pub record Process : Type 0 where
  pub configuration : Configuration
  pub ipc_manager : IpcManager

-- The databases that are opened.
pub record Opened (Db : Type 0) : Type 0 where
  pub address_db : Db
  pub block_db : Db
  pub batch_db : Db

-- The result of SetIPC is not used.
set_paths : Bytes → Bytes → Process → Process
set_paths ipc_path db_path p = record {
  configuration = record p.configuration { db_path = db_path };
  ipc_manager = (set_ipc (split b',' ipc_path) p.ipc_manager).1;
}

module _ {Db : Type 0} (open_file : Bytes → Error ⊎ Db) where
  open_or_panic : Bytes → Error → Action Process Db
  open_or_panic path message p = elim (open_file path) [
    | inl err ↦ (panic (message ++ err), p)
    | inr db ↦ (ok db, p)
  ]

  on_configuration : Action Configuration Unit → Action Process Unit
  on_configuration m p = let (r, con) = m p.configuration in (r, record p { configuration = con })

  on_paths : Bytes → Bytes → Action Process Unit
  on_paths ipc_path db_path p = (ok tt, set_paths ipc_path db_path p)

  -- The entry point, up to the start of the indexer, the cleaner and the server. `open_file` is
  -- leveldb.OpenFile.
  unfoldable pub index : Flags → Time → Action Process (Opened Db)
  unfolding set_paths open_or_panic on_configuration on_paths
  index flags now = do
    _ ← on_configuration (set_config flags now)
    _ ← on_paths flags.ipc flags.db
    address_db ←
        open_or_panic (flags.db ++ codes "_address")
          (codes "Can't connect to Address LevelDB. Error: ")
    block_db ←
        open_or_panic (flags.db ++ codes "_block") (codes "Can't connect to Block LevelDB. Error: ")
    batch_db ←
        open_or_panic (flags.db ++ codes "_batch") (codes "Can't connect to Batch LevelDB. Error: ")
    pure (record { address_db = address_db; block_db = block_db; batch_db = batch_db })
