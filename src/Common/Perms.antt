-- ===== src/Common/Perms.antt =====
-- What a rearranged list keeps.
use mathlib.Core.Path.{◌≡◌, sym, ◌∙◌, subst}
use mathlib.Core.List.{List, [], ◌∷◌, Memᴰ, Permᴰ}
use account_indexer.Common.Lists.{All}

module _ {ℓ κ} {A : Type ℓ} (P : A → Type κ) where
  pub All-perm : {xs ys : List A} → Permᴰ xs ys → All P ys → All P xs
  All-perm Permᴰ.nil h = h
  All-perm (Permᴰ.cons e p) (hx, h) = (subst P (sym e) hx, All-perm p h)
  All-perm (Permᴰ.swap e f) (ha, (hb, h)) = (subst P (sym e) hb, (subst P (sym f) ha, h))
  All-perm (Permᴰ.trans p q) h = All-perm p (All-perm q h)

module _ {ℓ} {A : Type ℓ} where
  pub mem-perm : {a : A} {xs ys : List A} → Permᴰ xs ys → Memᴰ a ys → Memᴰ a xs
  mem-perm Permᴰ.nil m = m
  mem-perm (Permᴰ.cons e p) (Memᴰ.head f) = Memᴰ.head (f ∙ sym e)
  mem-perm (Permᴰ.cons e p) (Memᴰ.tail m) = Memᴰ.tail (mem-perm p m)
  mem-perm (Permᴰ.swap e f) (Memᴰ.head g) = Memᴰ.tail (Memᴰ.head (g ∙ sym f))
  mem-perm (Permᴰ.swap e f) (Memᴰ.tail (Memᴰ.head g)) = Memᴰ.head (g ∙ sym e)
  mem-perm (Permᴰ.swap e f) (Memᴰ.tail (Memᴰ.tail m)) = Memᴰ.tail (Memᴰ.tail m)
  mem-perm (Permᴰ.trans p q) m = mem-perm p (mem-perm q m)

module _ {ℓ κ} {A : Type ℓ} (R : A → A → Type κ) where
  -- Each two elements of a list, the earlier one first.
  abbrev pub Pairwise : List A → Type κ
  Pairwise [] = Unit {κ}
  Pairwise (x ∷ xs) = All (R x) xs × Pairwise xs

  related : (xs : List A) {x y : A} → x ≡ y → All (R y) xs → All (R x) xs
  related xs e h = subst (λ x. All (R x) xs) (sym e) h

  pub Pairwise-perm :
      {xs ys : List A} → ((x y : A) → R x y → R y x) → Permᴰ xs ys → Pairwise ys → Pairwise xs
  Pairwise-perm s Permᴰ.nil h = h
  Pairwise-perm s (Permᴰ.cons {l₂ = l} e p) (hx, h) =
      (All-perm (R _) p (related l e hx), Pairwise-perm s p h)
  Pairwise-perm s (Permᴰ.swap {l = l} e f) ((r, ha), (hb, h)) =
      ((rw (e, f) (s _ _ r), related l e hb), (related l f ha, h))
  Pairwise-perm s (Permᴰ.trans p q) h = Pairwise-perm s p (Pairwise-perm s q h)
