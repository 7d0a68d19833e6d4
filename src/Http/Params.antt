-- ===== src/Http/Params.antt =====
-- server.go: getPagingQueryParams and getAccountParam.
pub mod Reads
use account_indexer.Common.{
  ℕ, Bytes, Bool, true, false, not, ◌||◌, ◌==◌, [], ◌++◌, length, Option, none, some, codes,
}
use account_indexer.Common.Int.{ℤ, pos}
use account_indexer.Common.Outcome.{Error}
use account_indexer.Common.Action.{Action, pure, ◌>>=◌}
use account_indexer.Geth.{Geth}
use account_indexer.DateTime.{Time, zero_time, parse_int}
use account_indexer.DateTime.Text.{str_to_time}
use account_indexer.Http.{Request, Written, json, Body.message}

-- strconv.Atoi, or a default where it fails.
unfoldable pub int_or : ℤ → Bytes → ℤ
int_or n str = elim (parse_int str) [ none ↦ n | some i ↦ i ]

-- Rows and start.
unfoldable pub get_paging_query_params : Request → ℤ × ℤ
get_paging_query_params c =
    (int_or (pos 10) (c.query (codes "rows")), int_or (pos 0) (c.query (codes "start")))

-- The account, the bounds on the time, and the error.
pub record AccountParam : Type 0 where
  pub account : Bytes
  pub from_time : Time
  pub to_time : Time
  pub err : Option Error

-- The text of StrToTime's error is not used.
abbrev pub invalid_time : Error
invalid_time = codes "parsing time"

-- A bound: the zero time for an empty text, and `none` for one that is no time.
unfoldable pub bound_of : Bytes → Option Time
bound_of str = elim (length str == 0) [ true ↦ some zero_time | false ↦ str_to_time str ]

is_some : Option Error → Bool
is_some none = false
is_some (some e) = true

to_param : Bytes → Bytes → Time → Action Written AccountParam
to_param account to from_time = elim (bound_of to) [
  | none ↦ do
    _ ← json 400 (message (codes "invalid to " ++ to))
    pure (record {
      account = account;
      from_time = from_time;
      to_time = zero_time;
      err = some invalid_time;
    })
  | some to_time ↦
      pure (record { account = account; from_time = from_time; to_time = to_time; err = none })
]

from_param : Bytes → Bytes → Bytes → Action Written AccountParam
from_param account from to = elim (bound_of from) [
  | none ↦ do
    _ ← json 400 (message (codes "invalid from " ++ from))
    pure (record {
      account = account;
      from_time = zero_time;
      to_time = zero_time;
      err = some invalid_time;
    })
  | some from_time ↦ to_param account to from_time
]

-- An account that decodes to no bytes is refused, but without an error.
unfoldable pub get_account_param : Geth → Request → Action Written AccountParam
unfolding from_param to_param is_some
get_account_param g c =
    let account = c.param (codes "accountNumber") in
    let (bytes, err) = g.decode account in
    elim (is_some err || length bytes == 0) [
      | true ↦ do
        _ ← json 400 (message (codes "invalid account " ++ account))
        pure (record { account = account; from_time = zero_time; to_time = zero_time; err = err })
      | false ↦ from_param account (c.query (codes "from")) (c.query (codes "to"))
    ]
