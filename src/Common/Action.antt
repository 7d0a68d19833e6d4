-- ===== src/Common/Action.antt =====
-- A call that changes a state: how it ends, and the state that it leaves, after a panic too.
use mathlib.Core.Path.{◌≡◌, refl, ap}
use account_indexer.Common.Outcome.{Outcome, ok, panic, diverges}

abbrev pub Action {ℓ} : Type ℓ → Type ℓ → Type ℓ
Action S A = S → Outcome A × S

module _ {ℓ} {S A : Type ℓ} where
  abbrev pub pure : A → Action S A
  pure a s = (ok a, s)

  abbrev pub lift : Outcome A → Action S A
  lift r s = (r, s)

  abbrev pub gets : (S → A) → Action S A
  gets f s = (ok (f s), s)

module _ {ℓ} {S A B : Type ℓ} where
  abbrev pub continue : Outcome A → (A → Action S B) → Action S B
  continue (ok a) f s = f a s
  continue (panic e) f s = (panic e, s)
  continue diverges f s = (diverges, s)

  infixl 5 ◌>>=◌
  abbrev pub ◌>>=◌ : Action S A → (A → Action S B) → Action S B
  ◌>>=◌ m f s = let (r, s') = m s in continue r f s'

module _ {ℓ} {S A B : Type ℓ} where
  -- A call that returns is followed by the rest, from the state that it leaves.
  pub bind-ok :
      (m : Action S A) (f : A → Action S B) (s : S) (a : A)
      → (m s).0 ≡ ok a
      → (m >>= f) s ≡ f a (m s).1
  bind-ok m f s a e = ap (λ r. continue r f (m s).1) e

  -- A result that is only looked at leaves the state as it is.
  pub continue-pure : (r : Outcome A) (h : A → B) (s : S) → (continue r (λ a. pure (h a)) s).1 ≡ s
  continue-pure (ok a) h s = refl
  continue-pure (panic e) h s = refl
  continue-pure diverges h s = refl
