-- ===== src/DateTime/Format.antt =====
-- Format(time.RFC3339) of a time in the local zone, whose offsets are an argument.
use account_indexer.Common.{
  ℕ, suc, ◌+◌, ◌-◌, ◌*◌, ◌/◌, ◌%◌, Bytes, List, [], ◌∷◌, ◌++◌, length, replicate, ltb, ◌==◌, codes,
  if◌then◌else◌, ◌≡◌, refl,
}
use account_indexer.Common.Int.{ℤ, pos, negsuc, pos_part, neg_part, sub_ℕ, ◌+ℤ◌, abs}
use account_indexer.Go.BigInt.{nat_string, emit}
use account_indexer.DateTime.{Time}
use account_indexer.DateTime.Parse.{months_of, is_leap}

at_most : ℕ → ℕ → ℕ
at_most bound n = if ltb bound n then bound else n

-- Periods of 400 years that are added so that a day of any int64 of seconds has a number.
abbrev shift : ℕ
shift = 730692562

-- The seconds from the first of January of year 1, with the shift.
shifted_seconds : ℤ → ℕ
shifted_seconds unix = (719162 + 146097 * shift) * 86400 + pos_part unix - neg_part unix

-- A year, before the shift is taken back, and a day of it from 0.
year_and_day : ℕ → ℕ × ℕ
unfolding at_most
year_and_day days =
    let d = days % 146097 in
    let centuries = at_most 3 (d / 36524) in
    let d = d - 36524 * centuries in
    let fours = d / 1461 in
    let d = d % 1461 in
    let years = at_most 3 (d / 365) in
    (1 + 400 * (days / 146097) + 100 * centuries + 4 * fours + years, d - 365 * years)

-- The month and the day of it, from a day of the year.
month_and_day : ℕ → List ℕ → ℕ → ℕ × ℕ
month_and_day month [] day = (month, day + 1)
month_and_day month (n ∷ ns) day =
    let later = month_and_day (month + 1) ns (day - n) in
    if ltb day n then (month, day + 1) else later

-- Decimal text, with zeros up to a width.
pad : ℕ → ℕ → Bytes
pad width n = let s = nat_string n in replicate (width - length s) b'0' ++ s

year_text : ℤ → Bytes
unfolding pad
year_text (pos y) = pad 4 y
year_text (negsuc y) = b'-' ∷ pad 4 (suc y)

zone_text : ℤ → Bytes
unfolding pad abs
zone_text offset =
    let minutes = abs offset / 60 in
    let digits = pad 2 (minutes / 60) ++ (b':' ∷ pad 2 (minutes % 60)) in
    if abs offset == 0
    then codes "Z"
    else if neg_part offset / 60 == 0
    then b'+' ∷ digits
    else b'-' ∷ digits

concat : List Bytes → Bytes
concat [] = []
concat (s ∷ ss) = s ++ concat ss

unfoldable pub format_rfc3339 : (ℤ → ℤ) → Time → Bytes
unfolding shifted_seconds year_and_day month_and_day pad year_text zone_text at_most concat
format_rfc3339 local tm =
    let offset = local tm.unix in
    let seconds = shifted_seconds (tm.unix +ℤ offset) in
    let (y, yday) = year_and_day (seconds / 86400) in
    let (month, day) = month_and_day 1 (months_of y) yday in
    let second = seconds % 86400 in
    concat (
      year_text (sub_ℕ y (400 * shift))
      ∷ codes "-"
      ∷ pad 2 month
      ∷ codes "-"
      ∷ pad 2 day
      ∷ codes "T"
      ∷ pad 2 (second / 3600)
      ∷ codes ":"
      ∷ pad 2 (second % 3600 / 60)
      ∷ codes ":"
      ∷ pad 2 (second % 60)
      ∷ zone_text offset
      ∷ [])

format_utc_runs :
    format_rfc3339 (λ t. pos 0) (record { unix = pos 951868799; nsec = 0 })
    ≡ codes "2000-02-29T23:59:59Z"
unfolding format_rfc3339 ◌+ℤ◌ abs nat_string emit is_leap
format_utc_runs = refl

format_zone_runs :
    format_rfc3339 (λ t. pos 3600) (record { unix = pos 1547906645; nsec = 0 })
    ≡ codes "2019-01-19T15:04:05+01:00"
unfolding format_rfc3339 ◌+ℤ◌ abs nat_string emit is_leap
format_zone_runs = refl

format_old_runs :
    format_rfc3339 (λ t. pos 0) (record { unix = negsuc 62135596799; nsec = 0 })
    ≡ codes "0001-01-01T00:00:00Z"
unfolding format_rfc3339 ◌+ℤ◌ abs nat_string emit is_leap
format_old_runs = refl
