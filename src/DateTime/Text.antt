-- ===== src/DateTime/Text.antt =====
-- datetime.go: StrToTime.
use account_indexer.Common.{Bytes, Option, none, some, codes, ◌≡◌, refl}
use account_indexer.Common.Int.{pos, ◌+ℤ◌, negate}
use account_indexer.Go.BigInt.{set_string}
use account_indexer.DateTime.{Time, parse_int}
use account_indexer.DateTime.Parse.{parse, numeric, absent, iso8601}

-- Unix seconds, and then the ISO 8601 layouts in turn: with a zone, without one, and RFC 3339.
-- `none` is the error.
unfoldable pub str_to_time : Bytes → Option Time
str_to_time str = elim (parse_int str) [
  | some i ↦ some (record { unix = i; nsec = 0 })
  | none ↦ elim (parse numeric str) [
    | some tm ↦ some tm
    | none ↦ elim (parse absent str) [ some tm ↦ some tm | none ↦ parse iso8601 str ]
  ]
]

unix_runs : str_to_time (codes "1405544146") ≡ some (record { unix = pos 1405544146; nsec = 0 })
unfolding str_to_time parse_int set_string
unix_runs = refl

iso_runs :
    str_to_time (codes "2019-01-19T15:04:05+0100")
    ≡ some (record { unix = pos 1547906645; nsec = 0 })
unfolding str_to_time parse_int set_string parse ◌+ℤ◌ negate
iso_runs = refl

no_time_fails : str_to_time (codes "yesterday") ≡ none
unfolding str_to_time parse_int set_string parse
no_time_fails = refl
