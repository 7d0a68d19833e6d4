-- ===== src/Go/BigInt/Digits.antt =====
-- The digits of a number: their value, their count and their range.
use account_indexer.Common.{
  ℕ, zero, suc, ◌+◌, ◌*◌, ◌/◌, ◌%◌, ◌^◌, ◌≤◌, ◌<◌, [], ◌∷◌, ◌++◌, Bytes, All, length, ◌≡◌, refl, ap,
  ◌∙◌, inl, inr, Bool-cases, arith, ◌==◌,
}
use native.Mathlib.Nat.{
  mod-lt, pow-suc, div-lt_self, zero-div, pow-zero, le-div_iff_mul-le, div-lt_iff_lt-mul,
}
use account_indexer.Go.BigInt.{emit, horner}

emit-zero : (base f : ℕ) (out : Bytes) → emit base f 0 out ≡ out
unfolding emit
emit-zero base zero out = refl
emit-zero base (suc f) out = refl

pub horner-append :
    (base acc : ℕ) (xs ys : Bytes)
    → horner base acc (xs ++ ys) ≡ horner base (horner base acc xs) ys
horner-append base acc [] ys = refl
horner-append base acc (x ∷ xs) ys = horner-append base (acc * base + x) xs ys

quotient_le : (f n base : ℕ) → 2 ≤ base → n ≤ suc f → n / base ≤ f
quotient_le f zero base b h = rw zero-div (omega arith)
quotient_le f (suc n) base b h = omega (arith, div-lt_self {n = suc n} {k = base} (omega arith) b)

quotient_mod : (n base : ℕ) → n / base * base + n % base ≡ n
quotient_mod n base = omega arith

-- Reading the digits gives the number back.
pub horner-emit :
    (f n : ℕ) (base : ℕ) (out : Bytes)
    → 2 ≤ base
    → n ≤ f
    → horner base 0 (emit base f n out) ≡ horner base n out
unfolding emit
horner-emit zero n base out b h = let e : n ≡ 0 = omega arith in rw e
horner-emit (suc f) n base out b h = elim (Bool-cases (n == 0)) [
  | inl z ↦ let e : n ≡ 0 = ground arith in rw z (rw e)
  | inr p ↦ rw p (
      horner-emit f (n / base) base ((n % base) ∷ out) b (quotient_le f n base b h)
      ∙ ap (λ m. horner base m out) (quotient_mod n base))
]

quotient_lt_pow : (k n base : ℕ) → 0 < base → n < base ^ suc k → n / base < base ^ k
quotient_lt_pow k n base b h = (div-lt_iff_lt-mul b).1 (rw (← pow-suc base k) h)

-- A number below base ^ k has at most k digits.
pub length-emit-le :
    (k f n : ℕ) (base : ℕ) (out : Bytes)
    → 0 < base
    → n < base ^ k
    → length (emit base f n out) ≤ k + length out
unfolding emit
length-emit-le k zero n base out b h = omega arith
length-emit-le zero (suc f) n base out b h =
    let e : n ≡ 0 = omega (arith, pow-zero base) in rw e (omega arith)
length-emit-le (suc k) (suc f) n base out b h =
    ground (
      arith,
      length-emit-le k f (n / base) base ((n % base) ∷ out) b (quotient_lt_pow k n base b h),
    )

pow-pos : (n k : ℕ) → 0 < n → 0 < n ^ k
pow-pos n zero h = rw pow-zero (omega arith)
pow-pos n (suc k) h = let p : 0 < n ^ k = pow-pos n k h in rw pow-suc (grind arith)

length_le-emit : (f n : ℕ) (base : ℕ) (out : Bytes) → length out ≤ length (emit base f n out)
unfolding emit
length_le-emit zero n base out = omega arith
length_le-emit (suc f) n base out =
    ground (arith, length_le-emit f (n / base) base ((n % base) ∷ out))

pow_le_quotient : (k n base : ℕ) → 0 < base → base ^ suc k ≤ n → base ^ k ≤ n / base
pow_le_quotient k n base b h = (le-div_iff_mul-le b).1 (rw (← pow-suc base k) h)

-- A number from base ^ k on has more than k digits.
pub lt-length-emit :
    (k f n : ℕ) (base : ℕ) (out : Bytes)
    → 2 ≤ base
    → n ≤ f
    → base ^ k ≤ n
    → k + length out < length (emit base f n out)
unfolding emit
lt-length-emit k zero n base out b le h = absurd (omega (arith, pow-pos base k (omega arith)))
lt-length-emit zero (suc f) n base out b le h =
    ground (arith, pow-zero base, length_le-emit f (n / base) base ((n % base) ∷ out))
lt-length-emit (suc k) (suc f) n base out b le h = ground (
  arith,
  pow-pos base (suc k) (omega arith),
  lt-length-emit k f (n / base) base ((n % base) ∷ out) b (quotient_le f n base b le)
      (pow_le_quotient k n base (omega arith) h),
)

pub All-emit :
    (f n : ℕ) (base : ℕ) (out : Bytes)
    → 0 < base
    → All (λ d. d < base) out
    → All (λ d. d < base) (emit base f n out)
unfolding emit
All-emit zero n base out b h = h
All-emit (suc f) n base out b h =
    ground (arith, All-emit f (n / base) base ((n % base) ∷ out) b (mod-lt n b, h))
