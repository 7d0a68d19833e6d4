-- ===== src/Common/Pairs.antt =====
-- What parts and images of a list keep of a relation between its elements.
use mathlib.Core.List.{List, [], ◌∷◌, map, reverse, reverse_aux}
use mathlib.Core.Bool.{Bool, true, false}
use Prim.Native.Nat.{ℕ, zero, suc}
use account_indexer.Common.Tests.{if◌then◌else◌}
use account_indexer.Common.Lists.{All, All-zip, take, drop}
use account_indexer.Common.Sublists.{filter, All-take, All-filter}
use account_indexer.Common.Perms.{Pairwise}

module _ {ℓ κ} {A : Type ℓ} (R : A → A → Type κ) where
  pub Pairwise-take : (n : ℕ) (xs : List A) → Pairwise R xs → Pairwise R (take n xs)
  Pairwise-take zero xs h = tt
  Pairwise-take (suc n) [] h = tt
  Pairwise-take (suc n) (x ∷ xs) (hx, h) = (All-take (R x) n xs hx, Pairwise-take n xs h)

  pub Pairwise-drop : (n : ℕ) (xs : List A) → Pairwise R xs → Pairwise R (drop n xs)
  Pairwise-drop zero xs h = h
  Pairwise-drop (suc n) [] h = tt
  Pairwise-drop (suc n) (x ∷ xs) (hx, h) = Pairwise-drop n xs h

  pub Pairwise-filter : (p : A → Bool) (xs : List A) → Pairwise R xs → Pairwise R (filter p xs)
  unfolding filter
  Pairwise-filter p [] h = tt
  Pairwise-filter p (x ∷ xs) (hx, h) =
      elim (p x) as (λ b. Pairwise R (if b then x ∷ filter p xs else filter p xs)) [
        | true ↦ (All-filter (R x) p xs hx, Pairwise-filter p xs h)
        | false ↦ Pairwise-filter p xs h
      ]

  -- Backwards, the relation is turned round.
  reverse_aux-pairs :
      (xs ys : List A)
      → Pairwise R xs
      → Pairwise (λ x y. R y x) ys
      → All (λ x. All (λ y. R y x) ys) xs
      → Pairwise (λ x y. R y x) (reverse_aux xs ys)
  reverse_aux-pairs [] ys h k a = k
  reverse_aux-pairs (x ∷ xs) ys (hx, h) k (ax, a) =
      reverse_aux-pairs xs (x ∷ ys) h (ax, k) (All-zip (R x) (λ z. All (λ y. R y z) ys) xs hx a)

  none_before : (xs : List A) → All (λ x. All (λ y. R y x) []) xs
  none_before [] = tt
  none_before (x ∷ xs) = (tt, none_before xs)

  pub Pairwise-reverse : (xs : List A) → Pairwise R xs → Pairwise (λ x y. R y x) (reverse xs)
  Pairwise-reverse xs h = reverse_aux-pairs xs [] h tt (none_before xs)

module _ {ℓ κ μ ν} {A : Type ℓ} (P : A → Type κ) (R : A → A → Type μ) (S : A → A → Type ν) where
  later_ones :
      (x : A) (xs : List A)
      → ((x y : A) → P x → P y → R x y → S x y)
      → P x
      → All P xs
      → All (R x) xs
      → All (S x) xs
  later_ones x [] f px h k = tt
  later_ones x (y ∷ ys) f px (py, h) (r, k) = (f x y px py r, later_ones x ys f px h k)

  -- A relation that follows where a property holds.
  pub Pairwise-imp :
      (xs : List A)
      → ((x y : A) → P x → P y → R x y → S x y)
      → All P xs
      → Pairwise R xs
      → Pairwise S xs
  Pairwise-imp [] f h k = tt
  Pairwise-imp (x ∷ xs) f (px, h) (kx, k) = (later_ones x xs f px h kx, Pairwise-imp xs f h k)

module _ {ℓ κ μ} {A : Type ℓ} {B : Type κ} (f : A → B) where
  mapped_all : (P : B → Type μ) (xs : List A) → All P (map f xs) → All (λ x. P (f x)) xs
  mapped_all P [] h = tt
  mapped_all P (x ∷ xs) (hx, h) = (hx, mapped_all P xs h)

  pub Pairwise-map :
      (R : B → B → Type μ) (xs : List A)
      → Pairwise R (map f xs)
      → Pairwise (λ x y. R (f x) (f y)) xs
  Pairwise-map R [] h = tt
  Pairwise-map R (x ∷ xs) (hx, h) = (mapped_all (R (f x)) xs hx, Pairwise-map R xs h)
