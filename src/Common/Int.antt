-- ===== src/Common/Int.antt =====
-- Signed integers over the native numbers: `*big.Int` and `int` values.
use Prim.Native.Nat.{ℕ, suc, ◌+◌, ◌-◌, ◌<◌, ◌%◌, ◌^◌}
use mathlib.Core.Path.{◌≡◌}
use mathlib.Core.Bool.{Bool, false, ◌&&◌}
use native.Mathlib.Omega.{arith}
use account_indexer.Common.Tests.{ltb, leb, if◌then◌else◌}

-- `negsuc n` is -(n + 1).
pub data ℤ : Type 0 where
  pos : ℕ → ℤ
  negsuc : ℕ → ℤ

abbrev pub pos_part : ℤ → ℕ
pos_part (pos n) = n
pos_part (negsuc n) = 0

abbrev pub neg_part : ℤ → ℕ
neg_part (pos n) = 0
neg_part (negsuc n) = suc n

-- a - b, as an integer.
abbrev pub sub_ℕ : ℕ → ℕ → ℤ
sub_ℕ a b = if leb b a then pos (a - b) else negsuc (b - a - 1)

infixl 65 ◌+ℤ◌
unfoldable pub ◌+ℤ◌ : ℤ → ℤ → ℤ
a +ℤ b = sub_ℕ (pos_part a + pos_part b) (neg_part a + neg_part b)

unfoldable pub negate : ℤ → ℤ
negate a = sub_ℕ (neg_part a) (pos_part a)

-- big.Int.Bytes reads the absolute value.
unfoldable pub abs : ℤ → ℕ
abs a = pos_part a + neg_part a

abbrev pub ltb_ℤ : ℤ → ℤ → Bool
ltb_ℤ a b = ltb (pos_part a + neg_part b) (pos_part b + neg_part a)

abbrev pub leb_ℤ : ℤ → ℤ → Bool
leb_ℤ a b = leb (pos_part a + neg_part b) (pos_part b + neg_part a)

-- big.Int.Cmp(b) == 0.
abbrev pub eq_ℤ : ℤ → ℤ → Bool
eq_ℤ a b = elim a [
  | pos m ↦ elim b [ pos n ↦ leb m n && leb n m | negsuc n ↦ false ]
  | negsuc m ↦ elim b [ pos n ↦ false | negsuc n ↦ leb m n && leb n m ]
]

-- The int64 with the low 64 bits of a number: big.Int.Int64, and the wrap-around of int64 sums.
unfoldable pub int64 : ℤ → ℤ
int64 a =
    let w : ℕ = elim a [ pos n ↦ n % 2 ^ 64 | negsuc n ↦ 2 ^ 64 - 1 - n % 2 ^ 64 ] in
    if ltb w (2 ^ 63) then pos w else negsuc (2 ^ 64 - 1 - w)

-- uint8 of a number.
abbrev pub uint8 : ℕ → ℕ
uint8 n = n % 256

pub int64_small : (n : ℕ) → n < 2 ^ 63 → int64 (pos n) ≡ pos n
unfolding int64
int64_small n h = ground arith

pub abs-negate : (n : ℕ) → abs (negate (pos n)) ≡ n
unfolding abs negate
abs-negate n = ground arith

pub abs-pos : (n : ℕ) → abs (pos n) ≡ n
unfolding abs
abs-pos n = omega arith
