-- ===== src/Go/BigInt.antt =====
-- math/big: Bytes, SetBytes, String and SetString(s, 10) of *big.Int.
pub mod Digits
pub mod RoundTrip
use account_indexer.Common.{
  ℕ, zero, suc, ◌+◌, ◌*◌, ◌/◌, ◌%◌, ◌-◌, List, [], ◌∷◌, ◌++◌, map, Bytes, Bool, true, false, ◌&&◌,
  Option, none, some, ◌≡◌, refl, codes, ltb, leb, ◌==◌, if◌then◌else◌,
}
use account_indexer.Common.Int.{ℤ, pos, negsuc, abs, negate}

-- The digits of `n` to a base, most significant first and with no leading zero, put before `out`.
-- The fuel counts the digits; `n` itself is enough.
unfoldable pub emit : ℕ → ℕ → ℕ → Bytes → Bytes
emit base zero n out = out
emit base (suc f) n out =
    let rest = emit base f (n / base) ((n % base) ∷ out) in if n == 0 then out else rest

-- The value of digits to a base, read after `acc`.
abbrev pub horner : ℕ → ℕ → Bytes → ℕ
horner base acc [] = acc
horner base acc (d ∷ ds) = horner base (acc * base + d) ds

-- SetBytes: big-endian.
unfoldable pub set_bytes : Bytes → ℕ
set_bytes = horner 256 0

-- Bytes of a non-negative number.
unfoldable pub nat_bytes : ℕ → Bytes
nat_bytes n = emit 256 n n []

-- Bytes: the absolute value, big-endian.
unfoldable pub to_bytes : ℤ → Bytes
to_bytes a = nat_bytes (abs a)

unfoldable pub nat_string : ℕ → Bytes
nat_string n = if n == 0 then b'0' ∷ [] else map (λ d. d + b'0') (emit 10 n n [])

-- String: decimal, with a minus sign.
unfoldable pub string : ℤ → Bytes
string (pos n) = nat_string n
string (negsuc n) = b'-' ∷ nat_string (suc n)

is_digit : ℕ → Bool
is_digit c = leb b'0' c && leb c b'9'

scan : ℕ → Bytes → Option ℕ
unfolding is_digit
scan acc [] = some acc
scan acc (c ∷ s) = let rest = scan (acc * 10 + (c - b'0')) s in if is_digit c then rest else none

pub parse_nat : Bytes → Option ℕ
unfolding scan
parse_nat [] = none
parse_nat (c ∷ s) = scan 0 (c ∷ s)

-- SetString(s, 10): an optional sign, then one or more digits. `none` is the result `false`.
unfoldable pub set_string : Bytes → Option ℤ
unfolding parse_nat
set_string [] = none
set_string (c ∷ s) =
    if c == b'-'
    then elim (parse_nat s) [ none ↦ none | some n ↦ some (negate (pos n)) ]
    else if c == b'+'
    then elim (parse_nat s) [ none ↦ none | some n ↦ some (pos n) ]
    else elim (parse_nat (c ∷ s)) [ none ↦ none | some n ↦ some (pos n) ]

-- The receiver after SetString where the caller ignores the flag. After a failure its value is
-- undefined; nothing proved here rests on the zero.
unfoldable pub set_string_or : Bytes → ℤ
set_string_or s = elim (set_string s) [ none ↦ pos 0 | some a ↦ a ]

bytes_runs : nat_bytes 1546522340 ≡ 92 ∷ 46 ∷ 14 ∷ 228 ∷ []
unfolding nat_bytes emit
bytes_runs = refl

string_runs : string (negsuc 110) ≡ codes "-111"
unfolding string nat_string emit
string_runs = refl

set_string_runs : set_string (codes "0000002018") ≡ some (pos 2018)
unfolding set_string
set_string_runs = refl

set_string_fails : set_string (codes "100a") ≡ none
unfolding set_string
set_string_fails = refl
