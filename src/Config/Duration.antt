-- ===== src/Config/Duration.antt =====
-- String of a time.Duration.
use account_indexer.Common.{
  ℕ, suc, ◌-◌, ◌*◌, ◌/◌, ◌%◌, ◌^◌, Bytes, [], ◌∷◌, ◌++◌, length, replicate, ltb, ◌==◌, ◌&&◌, codes,
  if◌then◌else◌, ◌≡◌, refl,
}
use account_indexer.Common.Int.{ℤ, pos, negsuc}
use account_indexer.Go.BigInt.{nat_string, emit}

-- Without the zeros at the end.
trim : Bytes → Bytes
trim [] = []
trim (c ∷ s) = let rest = trim s in if c == b'0' && length rest == 0 then [] else c ∷ rest

-- u / 10 ^ digits as decimal text.
decimal_text : ℕ → ℕ → Bytes
unfolding trim
decimal_text digits u =
    let part = nat_string (u % 10 ^ digits) in
    let fraction = trim (replicate (digits - length part) b'0' ++ part) in
    nat_string (u / 10 ^ digits) ++ (if length fraction == 0 then [] else b'.' ∷ fraction)

-- The unit of a part of a second. The sign of micro is the bytes 194 and 181.
below_second : ℕ → Bytes
unfolding decimal_text
below_second u =
    if u == 0
    then codes "0s"
    else if ltb u 1000
    then nat_string u ++ codes "ns"
    else if ltb u 1000000
    then decimal_text 3 u ++ (194 ∷ 181 ∷ codes "s")
    else decimal_text 6 u ++ codes "ms"

from_second : ℕ → Bytes
unfolding decimal_text
from_second u =
    let minutes = u / (60 * 10 ^ 9) in
    let seconds = decimal_text 9 (u % (60 * 10 ^ 9)) ++ codes "s" in
    if minutes == 0
    then seconds
    else if minutes / 60 == 0
    then nat_string minutes ++ (b'm' ∷ seconds)
    else nat_string (minutes / 60) ++ (b'h' ∷ (nat_string (minutes % 60) ++ (b'm' ∷ seconds)))

magnitude : ℕ → Bytes
unfolding below_second from_second
magnitude u = if ltb u (10 ^ 9) then below_second u else from_second u

unfoldable pub duration_string : ℤ → Bytes
unfolding magnitude
duration_string (pos u) = magnitude u
duration_string (negsuc n) = b'-' ∷ magnitude (suc n)

minutes_runs : duration_string (pos (5 * (60 * 10 ^ 9))) ≡ codes "5m0s"
unfolding duration_string nat_string emit
minutes_runs = refl

hours_runs : duration_string (pos (4 * (3600 * 10 ^ 9))) ≡ codes "4h0m0s"
unfolding duration_string nat_string emit
hours_runs = refl

part_runs : duration_string (pos 1500000000) ≡ codes "1.5s"
unfolding duration_string nat_string emit
part_runs = refl
