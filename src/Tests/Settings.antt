-- ===== src/Tests/Settings.antt =====
-- The flags that are not given, and a change of the node.
use account_indexer.Common.{[], none, inr, true, codes, ◌≡◌, refl}
use account_indexer.Common.Int.{pos, int64}
use account_indexer.Common.Outcome.{ok, panic}
use account_indexer.DateTime.{Time, zero_time}
use account_indexer.Config.{Configuration}
use account_indexer.Config.Duration.{duration_string}
use account_indexer.Command.{default_flags, set_config, check, times_unit}
use account_indexer.Command.Bounds.{IsValid, set_config-IsValid}
use account_indexer.Fetcher.Dial.{nil_channel}
use account_indexer.Indexer.Start.{IndexerState, first_index, index, ipc_updated}
use account_indexer.Indexer.Start.Stops.{at_start, IsReady, stopped, ipc_updated-IsReady}
use account_indexer.Tests.Hex.{hex}
use account_indexer.Tests.Stores.{store}
use account_indexer.Tests.Blocks.{time}
use account_indexer.Tests.Run.{databases}
use account_indexer.Tests.Chain.{node}
use account_indexer.Tests.Paths.{manager}

abbrev blank : Configuration
blank = record {
  clean_interval = pos 0;
  block_ttl = pos 0;
  watcher_interval = pos 0;
  oos_threshold = pos 0;
  port = pos 0;
  num_batch = pos 0;
  db_path = [];
  start_time = zero_time;
}

abbrev started_at : Time
started_at = record { unix = pos time; nsec = 0 }

defaults_pass : (set_config default_flags started_at blank).0 ≡ ok tt
unfolding set_config check times_unit int64
defaults_pass = refl

set_config-IsValid_example : IsValid default_flags (set_config default_flags started_at blank).1
set_config-IsValid_example = set_config-IsValid default_flags started_at blank defaults_pass

-- No batch is a panic, after the other values have been set.
no_batch_fails :
    (set_config (record default_flags { batch = pos 0 }) started_at blank).0
    ≡ panic (codes "number of batch should be 1 to 127")
unfolding set_config check times_unit int64
no_batch_fails = refl

-- 2 ^ 58 minutes wrap round to no time at all.
wrap_fails :
    (set_config
      (record default_flags { clean_interval = pos 288230376151711744 })
      started_at
      blank).0
    ≡ panic (codes "CleanInterval of 0s is not valid")
unfolding set_config check times_unit int64 duration_string
wrap_fails = refl

abbrev blank_state : IndexerState hex store store store
blank_state = record {
  ipc_manager = manager;
  databases = databases;
  realtime_fetcher = none;
  stop_chan = nil_channel;
}

-- The state after the start.
abbrev running : IndexerState hex store store store
running = (first_index hex store store store (λ path. inr (node 2)) 1 8 (pos time) blank_state).1

ipc_updated-IsReady_example :
    let r = ipc_updated hex store store store (λ path. inr (node 2)) 1 8 (pos time) running in
    IsReady hex store store store running
    × (r
        ≡ index hex store store store
            (λ path. inr (node 2))
            1
            8
            (pos time)
            true
            (stopped hex store store store running))
    × IsReady hex store store store r.1
ipc_updated-IsReady_example =
    ipc_updated-IsReady hex store store store (λ path. inr (node 2)) 1 8 (pos time) running
      (at_start (λ path. inr (node 2)) 1 8 (pos time) blank_state)
