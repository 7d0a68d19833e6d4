-- ===== src/Common/Outcome.antt =====
-- What a Go call can do: return, panic, or run for ever. An `error` result is a value, `Option Error`.
use Prim.Native.Nat.{ℕ, ◌+◌, ◌-◌}
use mathlib.Core.Path.{◌≡◌, refl}
use mathlib.Core.Bool.{◌&&◌}
use mathlib.Core.Option.{Option, none, some}
use mathlib.Core.List.{append_assoc, List, [], ◌∷◌, ◌++◌}
use native.Mathlib.Omega.{arith}
use account_indexer.Common.Tests.{leb, if◌then◌else◌}
use account_indexer.Common.Lists.{
  Bytes, length, take, drop, length-append, take-append, drop-append,
}

-- The text of an `error`.
abbrev pub Error : Type 0
Error = Bytes

pub data Outcome {ℓ} (A : Type ℓ) : Type ℓ where
  ok : A → Outcome A
  panic : Error → Outcome A
  diverges : Outcome A

infixl 5 ◌>>=◌
abbrev pub ◌>>=◌ {ℓ κ} : {A : Type ℓ} {B : Type κ} → Outcome A → (A → Outcome B) → Outcome B
ok a >>= f = f a
panic e >>= f = panic e
diverges >>= f = diverges

-- The runtime errors of the source language.
abbrev pub nil_dereference : Error
nil_dereference = []

abbrev pub out_of_range : Error
out_of_range = []

-- Use of a pointer that may be nil.
unfoldable pub deref {ℓ} : {A : Type ℓ} → Option A → Outcome A
deref none = panic nil_dereference
deref (some a) = ok a

-- b[from:to], b[from:] and b[i]. A bound past the length is a panic.
unfoldable pub slice : ℕ → ℕ → Bytes → Outcome Bytes
slice from to b =
    if leb from to && leb to (length b)
    then ok (take (to - from) (drop from b))
    else panic out_of_range

unfoldable pub slice_from : ℕ → Bytes → Outcome Bytes
slice_from from b = if leb from (length b) then ok (drop from b) else panic out_of_range

unfoldable pub index : ℕ → Bytes → Outcome ℕ
index i b = elim (drop i b) [ [] ↦ panic out_of_range | x ∷ r ↦ ok x ]

-- A loop that appends `f x` for each `x`.
unfoldable pub traverse {ℓ κ} :
    {A : Type ℓ} {B : Type κ} → (A → Outcome B) → List A → Outcome (List B)
traverse f [] = ok []
traverse f (x ∷ xs) = let rest = traverse f xs in do y ← f x; ys ← rest; ok (y ∷ ys)

pub slice-append :
    (n : ℕ) (xs ys zs : Bytes) {m : ℕ}
    → length xs ≡ n
    → n + length ys ≡ m
    → slice n m (xs ++ (ys ++ zs)) ≡ ok ys
unfolding slice
slice-append n xs ys zs {m} h k = ground (
  arith,
  length-append xs (ys ++ zs),
  length-append ys zs,
  drop-append n xs (ys ++ zs) h,
  take-append (m - n) ys zs (omega arith),
)

pub slice-prefix : (xs ys : Bytes) {n : ℕ} → length xs ≡ n → slice 0 n (xs ++ ys) ≡ ok xs
slice-prefix xs ys h = slice-append 0 [] xs ys refl (omega arith)

pub slice_from-append : (xs ys : Bytes) {n : ℕ} → length xs ≡ n → slice_from n (xs ++ ys) ≡ ok ys
unfolding slice_from
slice_from-append xs ys {n} h = ground (arith, length-append xs ys, drop-append n xs ys h)

-- The rest behind two parts of known length.
pub slice_from-append2 :
    (xs ys zs : Bytes) {n m : ℕ}
    → length xs ≡ n
    → length ys ≡ m
    → slice_from (n + m) (xs ++ (ys ++ zs)) ≡ ok zs
slice_from-append2 xs ys zs h k =
    rw (← append_assoc xs ys zs)
      (slice_from-append (xs ++ ys) zs (omega (arith, length-append xs ys)))

pub index-append :
    (xs ys zs : Bytes) (y : ℕ) {n : ℕ}
    → length xs + length ys ≡ n
    → index n (xs ++ (ys ++ (y ∷ zs))) ≡ ok y
unfolding index
index-append xs ys zs y {n} h = rw (
  ← append_assoc xs ys (y ∷ zs),
  drop-append n (xs ++ ys) (y ∷ zs) (omega (arith, length-append xs ys)),
  index,
)
