-- ===== src/Config.antt =====
-- common/config: the configuration and the version. A time.Duration is a number of nanoseconds.
pub mod Duration
use account_indexer.Common.{ℕ, Bytes, List, [], ◌∷◌, ◌++◌, codes}
use account_indexer.Common.Int.{ℤ}
use account_indexer.Go.BigInt.{string}
use account_indexer.DateTime.{Time}
use account_indexer.DateTime.Format.{format_rfc3339}
use account_indexer.Config.Duration.{duration_string}

pub record Configuration : Type 0 where
  pub clean_interval : ℤ
  pub block_ttl : ℤ
  pub watcher_interval : ℤ
  pub oos_threshold : ℤ
  pub port : ℤ
  pub num_batch : ℤ
  pub db_path : Bytes
  pub start_time : Time

pub record VersionInfo : Type 0 where
  pub version : Bytes
  pub build_id : Bytes
  pub git_hash : Bytes

-- The values of the source, which a build may replace.
unfoldable pub get_version : VersionInfo
get_version = record { version = codes "1.0.3-alpha"; build_id = codes "55"; git_hash = codes "0" }

-- `local` are the offsets of the local zone.
unfoldable pub config_string : (ℤ → ℤ) → Configuration → Bytes
config_string local con =
    codes "CleanInterval="
    ++ duration_string con.clean_interval
    ++ codes " BlockTTL="
    ++ duration_string con.block_ttl
    ++ codes " WatcherInterval="
    ++ duration_string con.watcher_interval
    ++ codes " OOSThreshold="
    ++ duration_string con.oos_threshold
    ++ codes " Port="
    ++ string con.port
    ++ codes " NumBatch="
    ++ string con.num_batch
    ++ codes " DbPath="
    ++ con.db_path
    ++ codes " StartTime="
    ++ format_rfc3339 local con.start_time
