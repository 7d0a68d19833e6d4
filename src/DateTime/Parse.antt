-- ===== src/DateTime/Parse.antt =====
-- time.Parse for the layouts of StrToTime: 2006-01-02T15:04:05 with -0700, with no zone, or with Z07:00.
use account_indexer.Common.{
  ℕ, zero, suc, ◌+◌, ◌-◌, ◌*◌, ◌/◌, ◌%◌, ◌^◌, Bytes, Bool, true, false, not, ◌&&◌, ◌||◌, List, [],
  ◌∷◌, length, take, drop, Option, none, some, ◌==◌, leb, ltb, codes, if◌then◌else◌, ◌≡◌, refl,
}
use account_indexer.Common.Int.{ℤ, pos, negsuc, sub_ℕ, ◌+ℤ◌, negate}
use account_indexer.Go.BigInt.{set_string}
use account_indexer.DateTime.{Time}

-- The zone at the end of a layout.
pub data Zone : Type 0 where
  numeric : Zone
  absent : Zone
  iso8601 : Zone

infixl 5 ◌>>=◌
abbrev ◌>>=◌ {ℓ κ} : {A : Type ℓ} {B : Type κ} → Option A → (A → Option B) → Option B
none >>= f = none
some a >>= f = f a

abbrev guard : Bool → Option ℕ
guard b = if b then some 0 else none

abbrev is_digit : ℕ → Bool
is_digit c = leb b'0' c && leb c b'9'

-- A number of two digits, and what follows it.
unfoldable pub two_digits : Bytes → Option (ℕ × Bytes)
two_digits (c ∷ d ∷ s) =
    if is_digit c && is_digit d then some (10 * (c - b'0') + (d - b'0'), s) else none
two_digits _ = none

-- An hour may have one digit.
unfoldable pub hour_digits : Bytes → Option (ℕ × Bytes)
unfolding two_digits
hour_digits [] = none
hour_digits (c ∷ s) = elim (two_digits (c ∷ s)) [
  | some r ↦ some r
  | none ↦ if is_digit c then some (c - b'0', s) else none
]

unfoldable pub year_digits : Bytes → Option (ℕ × Bytes)
unfolding two_digits
year_digits s = do
  (century, s) ← two_digits s
  (year, s) ← two_digits s
  some (100 * century + year, s)

-- A byte of the layout.
abbrev skip : ℕ → Bytes → Option Bytes
skip b [] = none
skip b (c ∷ s) = if c == b then some s else none

-- A number between bounds.
abbrev within : ℕ → ℕ → ℕ × Bytes → Option (ℕ × Bytes)
within low high (n, s) = if leb low n && leb n high then some (n, s) else none

abbrev pub digits_of : Bytes → Bytes × Bytes
digits_of [] = ([], [])
digits_of (c ∷ s) = let (ds, r) = digits_of s in if is_digit c then (c ∷ ds, r) else ([], c ∷ s)

abbrev decimal : ℕ → Bytes → ℕ
decimal acc [] = acc
decimal acc (d ∷ ds) = decimal (acc * 10 + (d - b'0')) ds

-- `digits`, after the point, as nanoseconds.
nanoseconds : Bytes → Bytes → Option (ℕ × Bytes)
nanoseconds digits rest = do
  let ns = decimal 0 digits
  _ ← guard (ltb ns (10 ^ 9))
  some (ns * 10 ^ (9 - length digits), rest)

-- A fraction of a second, which the layout need not show.
unfoldable pub fraction : Bytes → Option (ℕ × Bytes)
unfolding nanoseconds
fraction [] = some (0, [])
fraction (c ∷ s) =
    let (digits, rest) = digits_of s in
    let present = c == b'.' && ltb 0 (length digits) in
    elim present [ true ↦ nanoseconds digits rest | false ↦ some (0, c ∷ s) ]

unfoldable pub is_leap : ℕ → Bool
is_leap y = y % 4 == 0 && (not (y % 100 == 0) || y % 400 == 0)

abbrev pub month_lengths : ℕ → List ℕ
month_lengths february = 31 ∷ february ∷ 31 ∷ 30 ∷ 31 ∷ 30 ∷ 31 ∷ 31 ∷ 30 ∷ 31 ∷ 30 ∷ 31 ∷ []

abbrev pub months_of : ℕ → List ℕ
unfolding is_leap
months_of y = month_lengths (if is_leap y then 29 else 28)

abbrev sum : List ℕ → ℕ
sum [] = 0
sum (n ∷ ns) = n + sum ns

abbrev head_or_0 : List ℕ → ℕ
head_or_0 [] = 0
head_or_0 (n ∷ ns) = n

abbrev days_in : ℕ → ℕ → ℕ
days_in month y = head_or_0 (drop (month - 1) (months_of y))

-- The days from the first of January of year 0 to that of another year.
unfoldable pub days_before_year : ℕ → ℕ
days_before_year zero = 0
days_before_year (suc y) = 365 * suc y + (y / 4 - y / 100 + y / 400 + 1)

-- The days up to the first of January 1970.
abbrev pub epoch_days : ℕ
epoch_days = 719528

-- Unix seconds of a date and a time of the day, in UTC.
unfoldable pub unix_of : ℕ → ℕ → ℕ → ℕ → ℤ
unfolding days_before_year is_leap
unix_of y month day second =
    let days = days_before_year y + sum (take (month - 1) (months_of y)) + (day - 1) in
    sub_ℕ (days * 86400 + second) (epoch_days * 86400)

-- k times a number.
times : ℕ → ℤ → ℤ
times k (pos n) = pos (k * n)
times k (negsuc n) = negate (pos (k * suc n))

signed : ℕ → ℤ → Option ℤ
signed c seconds =
    if c == b'+' then some seconds else if c == b'-' then some (negate seconds) else none

-- +0100 or, with the colon, +01:00, in seconds. The numbers are read by atoi, so may have a sign.
offset : Bool → Bytes → Option (ℤ × Bytes)
unfolding times signed
offset colon [] = none
offset colon (c ∷ s) = do
  hours ← set_string (take 2 s)
  rest ← if colon then skip b':' (drop 2 s) else some (drop 2 s)
  _ ← guard (leb 2 (length rest))
  minutes ← set_string (take 2 rest)
  seconds ← signed c (times 3600 hours +ℤ times 60 minutes)
  some (seconds, drop 2 rest)

unfoldable pub zone_offset : Zone → Bytes → Option (ℤ × Bytes)
unfolding offset
zone_offset numeric s = offset false s
zone_offset absent s = some (pos 0, s)
zone_offset iso8601 [] = none
zone_offset iso8601 (c ∷ s) = if c == b'Z' then some (pos 0, s) else offset true (c ∷ s)

-- `none` is the error: a text that the layout does not fit, or a number out of its range.
unfoldable pub parse : Zone → Bytes → Option Time
unfolding year_digits two_digits hour_digits fraction zone_offset unix_of
parse zone s = do
  (year, s) ← year_digits s
  s ← skip b'-' s
  month_read ← two_digits s
  (month, s) ← within 1 12 month_read
  s ← skip b'-' s
  (day, s) ← two_digits s
  s ← skip b'T' s
  hour_read ← hour_digits s
  (hour, s) ← within 0 23 hour_read
  s ← skip b':' s
  minute_read ← two_digits s
  (minute, s) ← within 0 59 minute_read
  s ← skip b':' s
  second_read ← two_digits s
  (second, s) ← within 0 59 second_read
  (nsec, s) ← fraction s
  (off, s) ← zone_offset zone s
  _ ← guard (length s == 0 && (leb 1 day && leb day (days_in month year)))
  some (record {
    unix = unix_of year month day (3600 * hour + (60 * minute + second)) +ℤ negate off;
    nsec = nsec;
  })

parse_numeric_runs :
    parse numeric (codes "2019-01-19T15:04:05+0100")
    ≡ some (record { unix = pos 1547906645; nsec = 0 })
unfolding parse set_string ◌+ℤ◌ negate
parse_numeric_runs = refl

parse_iso_runs :
    parse iso8601 (codes "2019-01-25T07:01:00.691Z")
    ≡ some (record { unix = pos 1548399660; nsec = 691000000 })
unfolding parse ◌+ℤ◌ negate
parse_iso_runs = refl

parse_leap_runs :
    parse absent (codes "2000-02-29T23:59:59") ≡ some (record { unix = pos 951868799; nsec = 0 })
unfolding parse ◌+ℤ◌ negate
parse_leap_runs = refl

parse_no_leap_fails : parse absent (codes "2019-02-29T00:00:00") ≡ none
unfolding parse
parse_no_leap_fails = refl
