-- ===== src/DateTime.antt =====
-- common/datetime.go: times as bytes.
pub mod Laws
pub mod Parse
pub mod Text
pub mod Format
use account_indexer.Common.{
  ℕ, ◌≤◌, ◌<◌, ◌^◌, ◌-◌, Bytes, Bool, ◌&&◌, Option, none, some, ◌≡◌, refl, codes, arith, length,
  take, ltb, ◌==◌, if◌then◌else◌,
}
use account_indexer.Common.Int.{ℤ, pos, negsuc, ltb_ℤ, eq_ℤ, abs, int64}
use account_indexer.Go.BigInt.{string, set_string, set_string_or, set_bytes, to_bytes}

-- time.Time: Unix seconds, and the nanoseconds within the second.
pub record Time : Type 0 where
  pub unix : ℤ
  pub nsec : ℕ

-- The zero time.Time is the first of January of year 1.
abbrev pub zero_time : Time
zero_time = record { unix = negsuc 62135596799; nsec = 0 }

unfoldable pub is_zero : Time → Bool
is_zero tm = eq_ℤ tm.unix zero_time.unix && tm.nsec == 0

-- String of a *big.Int that may be nil.
unfoldable pub ptr_string : Option ℤ → Bytes
ptr_string none = codes "<nil>"
ptr_string (some t) = string t

-- Unix time is 10 digits in length.
cut_time : Bytes → Bytes
cut_time time_str = if ltb 10 (length time_str) then take 10 time_str else time_str

unfoldable pub marshall_time : Option ℤ → Bytes
unfolding cut_time
marshall_time t = to_bytes (set_string_or (cut_time (ptr_string t)))

unfoldable pub marshall_time2 : Time → Bytes
marshall_time2 tm = to_bytes tm.unix

unfoldable pub unmarshall_time_to_int : Bytes → ℤ
unmarshall_time_to_int value = pos (set_bytes value)

-- int64(value.Uint64()) reads the absolute value.
unfoldable pub unmarshall_int_to_time : ℤ → Time
unmarshall_int_to_time value = record { unix = int64 (pos (abs value)); nsec = 0 }

unfoldable pub unmarshall_time : Bytes → Time
unmarshall_time value = unmarshall_int_to_time (unmarshall_time_to_int value)

-- strconv.ParseInt(str, 10, 64): `none` is a syntax or a range error.
unfoldable pub parse_int : Bytes → Option ℤ
parse_int str = elim (set_string str) [
  | none ↦ none
  | some i ↦
      if ltb_ℤ i (negsuc (2 ^ 63 - 1))
      then none
      else if ltb_ℤ (pos (2 ^ 63 - 1)) i
      then none
      else some i
]

-- `none` is the error.
unfoldable pub str_to_unix_time_int : Bytes → Option ℤ
str_to_unix_time_int str = parse_int str
