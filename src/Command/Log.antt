-- ===== src/Command/Log.antt =====
-- main.go: logInit.
use account_indexer.Common.{Bytes, List, [], ◌∷◌, none, some, codes, ◌≡◌, refl, bytes_eq}
use account_indexer.Common.Assoc.{lookup}
use account_indexer.Go.Strings.{to_lower}

-- The levels of logrus, of which PanicLevel is the zero value.
pub data Level : Type 0 where
  panic_level : Level
  fatal_level : Level
  error_level : Level
  warn_level : Level
  info_level : Level
  debug_level : Level
  trace_level : Level

abbrev log_level_map : List (Bytes × Level)
log_level_map =
    (codes "", info_level)
    ∷ (codes "panic", panic_level)
    ∷ (codes "fatal", fatal_level)
    ∷ (codes "error", error_level)
    ∷ (codes "warn", warn_level)
    ∷ (codes "info", info_level)
    ∷ (codes "debug", debug_level)
    ∷ (codes "trace", trace_level)
    ∷ []

-- The level for the value of INDEXER_LOG_LEVEL. A name that is not in the map gives the zero value.
unfoldable pub log_init : Bytes → Level
log_init log_level = elim (lookup (to_lower log_level) log_level_map) [
  | none ↦ panic_level
  | some level ↦ level
]

warn_runs : log_init (codes "WARN") ≡ warn_level
unfolding log_init to_lower lookup bytes_eq
warn_runs = refl

unknown_runs : log_init (codes "verbose") ≡ panic_level
unfolding log_init to_lower lookup bytes_eq
unknown_runs = refl
