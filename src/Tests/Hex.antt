-- ===== src/Tests/Hex.antt =====
-- A hex codec for the tests, in the place of hexutil.
use account_indexer.Common.{
  ℕ, ◌+◌, ◌-◌, ◌*◌, ◌/◌, ◌%◌, ◌<◌, Bytes, [], ◌∷◌, All, Option, none, some, codes, ltb, leb, ◌&&◌,
  ◌≡◌, refl, if◌then◌else◌, arith, ap, length, drop, replicate, ◌++◌,
}
use mathlib.Core.Option.{some-injective}
use account_indexer.Geth.{Geth, IsHex}

unfoldable pub hex_digit : ℕ → ℕ
hex_digit n = if ltb n 10 then 48 + n else 87 + n

unfoldable pub digit_value : ℕ → Option ℕ
digit_value c =
    if leb 48 c && ltb c 58
    then some (c - 48)
    else if leb 97 c && ltb c 103
    then some (c - 87)
    else none

digit_value-hex_digit : (n : ℕ) → n < 16 → digit_value (hex_digit n) ≡ some n
unfolding hex_digit digit_value
digit_value-hex_digit n h = ground arith

digit_value-lt : (c n : ℕ) → digit_value c ≡ some n → n < 16
unfolding digit_value
digit_value-lt c n e = ground arith

unfoldable pub digits : Bytes → Bytes
digits [] = []
digits (x ∷ xs) = hex_digit (x / 16) ∷ hex_digit (x % 16) ∷ digits xs

unfoldable pub pair : Option ℕ → Option ℕ → Option Bytes → Option Bytes
pair (some h) (some l) (some rest) = some ((h * 16 + l) ∷ rest)
pair (some h) (some l) none = none
pair (some h) none rest = none
pair none l rest = none

unfoldable pub undigits : Bytes → Option Bytes
undigits [] = some []
undigits (c ∷ []) = none
undigits (c ∷ d ∷ cs) = pair (digit_value c) (digit_value d) (undigits cs)

unfoldable pub encode : Bytes → Bytes
encode b = b'0' ∷ b'x' ∷ digits b

undigits-digits : (b : Bytes) → All (λ x. x < 256) b → undigits (digits b) ≡ some b
unfolding undigits digits pair
undigits-digits [] h = refl
undigits-digits (x ∷ xs) (hx, h) =
    rw
      (
        digit_value-hex_digit (x / 16) (omega (arith, hx)),
        digit_value-hex_digit (x % 16) (omega (arith, hx)),
        undigits-digits xs h,
        pair,
      )
      (ap (λ y. some (y ∷ xs)) (omega arith))

by_all : (a b : Bytes) → some a ≡ some b → All (λ x. x < 256) a → All (λ x. x < 256) b
by_all a b e h = rw (← some-injective a b e) h

pair_bytes :
    (h l : Option ℕ) (rest : Option Bytes) (b : Bytes)
    → ((n : ℕ) → h ≡ some n → n < 16)
    → ((n : ℕ) → l ≡ some n → n < 16)
    → ((b : Bytes) → rest ≡ some b → All (λ x. x < 256) b)
    → pair h l rest ≡ some b
    → All (λ x. x < 256) b
unfolding pair
pair_bytes (some h) (some l) (some rest) b ph pl pr e =
    by_all ((h * 16 + l) ∷ rest) b e (omega (arith, ph h refl, pl l refl), pr rest refl)
pair_bytes (some h) (some l) none b ph pl pr e = ground arith
pair_bytes (some h) none rest b ph pl pr e = ground arith
pair_bytes none none rest b ph pl pr e = ground arith
pair_bytes none (some l) rest b ph pl pr e = ground arith

undigits_bytes : (s b : Bytes) → undigits s ≡ some b → All (λ x. x < 256) b
unfolding undigits
undigits_bytes [] b e = by_all [] b e tt
undigits_bytes (c ∷ []) b e = ground arith
undigits_bytes (c ∷ d ∷ cs) b e =
    pair_bytes (digit_value c) (digit_value d) (undigits cs) b (digit_value-lt c) (digit_value-lt d)
      (undigits_bytes cs) e

unfoldable pub or_error : Option Bytes → Bytes × Option Bytes
or_error none = ([], some (codes "invalid hex string"))
or_error (some b) = (b, none)

-- Of a text that is no hex string it is enough that it is an error.
unfoldable pub decode : Bytes → Bytes × Option Bytes
decode [] = ([], some (codes "empty hex string"))
decode (c ∷ []) = ([], some (codes "hex string without 0x prefix"))
decode (c ∷ d ∷ cs) = or_error (undigits cs)

abbrev pub hex : Geth
hex = record {
  decode = decode;
  encode = encode;
  bytes_to_hash = λ b. encode (drop (length b - 32) (replicate (32 - length b) 0 ++ b));
  address_length = 20;
  hash_length = 32;
}

or_error_bytes :
    (o : Option Bytes)
    → ((b : Bytes) → o ≡ some b → All (λ x. x < 256) b)
    → All (λ x. x < 256) (or_error o).0
unfolding or_error
or_error_bytes none h = tt
or_error_bytes (some b) h = h b refl

decode_bytes : (s : Bytes) → All (λ x. x < 256) (decode s).0
unfolding decode
decode_bytes [] = tt
decode_bytes (c ∷ []) = tt
decode_bytes (c ∷ d ∷ cs) = or_error_bytes (undigits cs) (undigits_bytes cs)

decode-encode : (b : Bytes) → All (λ x. x < 256) b → decode (encode b) ≡ (b, none)
unfolding decode encode or_error
decode-encode b h = rw (undigits-digits b h, or_error) refl

pub hex-IsHex : IsHex hex
hex-IsHex = record { decode-encode = decode-encode; decode_bytes = decode_bytes }
