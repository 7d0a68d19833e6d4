-- ===== src/Go/BigInt/RoundTrip.antt =====
-- SetBytes after Bytes, and SetString after String.
use account_indexer.Common.{
  ℕ, zero, suc, ◌+◌, ◌*◌, ◌/◌, ◌%◌, ◌^◌, ◌-◌, ◌≤◌, ◌<◌, [], ◌∷◌, ◌++◌, map, Bytes, All, length,
  replicate, ◌≡◌, ◌≢◌, refl, ap, ◌∙◌, inl, inr, Bool-cases, arith, ◌==◌, if◌then◌else◌, some,
  length-map,
}
use account_indexer.Common.Int.{ℤ, pos, negsuc, abs, negate}
use account_indexer.Go.BigInt.{
  emit, horner, set_bytes, nat_bytes, to_bytes, nat_string, string, scan, parse_nat, set_string,
  set_string_or,
}
use account_indexer.Go.BigInt.Digits.{horner-emit, length-emit-le, lt-length-emit, All-emit}

pub set_bytes-nat_bytes : (n : ℕ) → set_bytes (nat_bytes n) ≡ n
unfolding set_bytes nat_bytes
set_bytes-nat_bytes n = horner-emit n n 256 [] (omega arith) (omega arith)

-- Bytes keeps the absolute value, and only that.
pub set_bytes-to_bytes : (a : ℤ) → set_bytes (to_bytes a) ≡ abs a
unfolding to_bytes
set_bytes-to_bytes a = set_bytes-nat_bytes (abs a)

pub length-nat_bytes-le : (k n : ℕ) → n < 256 ^ k → length (nat_bytes n) ≤ k
unfolding nat_bytes
length-nat_bytes-le k n h = omega (arith, length-emit-le k n n 256 [] (omega arith) h)

pub All-nat_bytes : (n : ℕ) → All (λ d. d < 256) (nat_bytes n)
unfolding nat_bytes
All-nat_bytes n = All-emit n n 256 [] (omega arith) tt

-- The four big-endian bytes of a number.
abbrev pub be4 : ℕ → Bytes
be4 t = (t / 16777216) ∷ (t / 65536 % 256) ∷ (t / 256 % 256) ∷ (t % 256) ∷ []

emit_four :
    (f t : ℕ)
    → 16777216 ≤ t
    → t < 4294967296
    → emit 256 (suc (suc (suc (suc (suc f))))) t [] ≡ be4 t
unfolding emit
emit_four f t lo hi = ground arith

pub nat_bytes-be4 : (t : ℕ) → 16777216 ≤ t → t < 4294967296 → nat_bytes t ≡ be4 t
unfolding nat_bytes
nat_bytes-be4 t lo hi =
    let e : t ≡ suc (suc (suc (suc (suc (t - 5))))) = omega arith in
    ap (λ f. emit 256 f t []) e ∙ emit_four (t - 5) t lo hi

pub set_bytes-be4 : (t : ℕ) → set_bytes (be4 t) ≡ t
unfolding set_bytes
set_bytes-be4 t = omega arith

-- Digits, read as a decimal text.
abbrev text : Bytes → Bytes
text = map (λ d. d + b'0')

scan-text :
    (acc : ℕ) (ds : Bytes) → All (λ d. d < 10) ds → scan acc (text ds) ≡ some (horner 10 acc ds)
unfolding scan
scan-text acc [] h = refl
scan-text acc (d ∷ ds) (hd, h) = ground (arith, scan-text (acc * 10 + d) ds h)

digits_of : ℕ → Bytes
digits_of n = if n == 0 then 0 ∷ [] else emit 10 n n []

digits_of_lem :
    (n : ℕ)
    → (nat_string n ≡ text (digits_of n))
      × All (λ d. d < 10) (digits_of n)
      × (horner 10 0 (digits_of n) ≡ n)
      × (digits_of n ≢ [])
unfolding digits_of nat_string
digits_of_lem n = elim (Bool-cases (n == 0)) [
  | inl z ↦ let e : 0 ≡ n = ground arith in rw z (refl, (omega arith, tt), e, λ p. cc)
  | inr p ↦ rw p (
    refl,
    All-emit n n 10 [] (omega arith) tt,
    horner-emit n n 10 [] (omega arith) (omega arith),
    λ e. omega (
      arith,
      ap (λ (l : Bytes). length l) e,
      lt-length-emit 0 n n 10 [] (omega arith) (omega arith) (ground arith),
    ),
  )
]

parse_nat-ne-nil : (s : Bytes) → s ≢ [] → parse_nat s ≡ scan 0 s
unfolding parse_nat
parse_nat-ne-nil [] h = absurd (h refl)
parse_nat-ne-nil (c ∷ s) h = refl

text-ne-nil : (ds : Bytes) → ds ≢ [] → text ds ≢ []
text-ne-nil [] h = absurd (h refl)
text-ne-nil (d ∷ ds) h = λ e. cc

parse_nat-text :
    (ds : Bytes) → ds ≢ [] → All (λ d. d < 10) ds → parse_nat (text ds) ≡ some (horner 10 0 ds)
parse_nat-text ds h a = parse_nat-ne-nil (text ds) (text-ne-nil ds h) ∙ scan-text 0 ds a

-- A text of digits has no sign, so SetString reads it whole.
set_string-text :
    (ds : Bytes)
    → ds ≢ []
    → All (λ d. d < 10) ds
    → set_string (text ds) ≡ some (pos (horner 10 0 ds))
unfolding set_string
set_string-text [] h a = absurd (h refl)
set_string-text (d ∷ ds) h (hd, a) = ground (arith, parse_nat-text (d ∷ ds) h (hd, a))

zeros-text : (k : ℕ) (ds : Bytes) → replicate k b'0' ++ text ds ≡ text (replicate k 0 ++ ds)
zeros-text zero ds = refl
zeros-text (suc k) ds = ap (◌∷◌ b'0') (zeros-text k ds)

All-zeros : (k : ℕ) (ds : Bytes) → All (λ d. d < 10) ds → All (λ d. d < 10) (replicate k 0 ++ ds)
All-zeros zero ds h = h
All-zeros (suc k) ds h = (omega arith, All-zeros k ds h)

horner-zeros : (k : ℕ) (ds : Bytes) → horner 10 0 (replicate k 0 ++ ds) ≡ horner 10 0 ds
horner-zeros zero ds = refl
horner-zeros (suc k) ds = horner-zeros k ds

ne-nil-append : (k : ℕ) (ds : Bytes) → ds ≢ [] → replicate k 0 ++ ds ≢ []
ne-nil-append zero ds h = h
ne-nil-append (suc k) ds h = λ e. cc

-- A decimal numeral with zeros in front of it is read as the number.
pub set_string-padded : (k n : ℕ) → set_string (replicate k b'0' ++ nat_string n) ≡ some (pos n)
set_string-padded k n =
    let (e, digits, value, nonempty) = digits_of_lem n in
    rw (e, zeros-text k (digits_of n))
      (set_string-text (replicate k 0 ++ digits_of n) (ne-nil-append k _ nonempty)
          (All-zeros k _ digits)
        ∙ ap (λ m. some (pos m)) (horner-zeros k (digits_of n) ∙ value))

-- SetString reads back what String printed, whatever the sign.
pub set_string-string : (a : ℤ) → set_string (string a) ≡ some a
unfolding string
set_string-string (pos n) = set_string-padded 0 n
set_string-string (negsuc n) =
    let (e, digits, value, nonempty) = digits_of_lem (suc n) in
    rw e (
      unfold set_string negate in
      ground (arith, parse_nat-text (digits_of (suc n)) nonempty digits, value))

pub set_string_or-string : (a : ℤ) → set_string_or (string a) ≡ a
unfolding set_string_or
set_string_or-string a = rw (set_string-string a, set_string_or)

pub length-nat_string-le : (k n : ℕ) → n < 10 ^ suc k → length (nat_string n) ≤ suc k
unfolding nat_string
length-nat_string-le k n h = ground (
  arith,
  length-map (λ (d : ℕ). d + b'0') (emit 10 n n []),
  length-emit-le (suc k) n n 10 [] (omega arith) h,
)

pub lt-length-nat_string : (k n : ℕ) → 0 < n → 10 ^ k ≤ n → k < length (nat_string n)
unfolding nat_string
lt-length-nat_string k n p h = ground (
  arith,
  length-map (λ (d : ℕ). d + b'0') (emit 10 n n []),
  lt-length-emit k n n 10 [] (omega arith) (omega arith) h,
)
