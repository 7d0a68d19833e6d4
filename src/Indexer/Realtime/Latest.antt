-- ===== src/Indexer/Realtime/Latest.antt =====
-- The last versions of the blocks that have come.
use account_indexer.Common.{
  Bytes, Bool, false, List, [], ◌∷◌, Option, none, some, bytes_eq, bytes_eq→eq, Bool-cases, inl,
  inr, All, if◌then◌else◌, ◌≡◌, refl, sym, ap, ◌∙◌, arith,
}
use mathlib.Core.Option.{some-injective}
use account_indexer.Go.BigInt.{string}
use account_indexer.Types.{BlockDetail}

abbrev pub key : BlockDetail → Bytes
key b = string b.block_number

-- The blocks whose key is not `n`.
unfoldable pub others : Bytes → List BlockDetail → List BlockDetail
others n [] = []
others n (v ∷ vs) = let rest = others n vs in if bytes_eq (key v) n then rest else v ∷ rest

-- The first block with a key.
unfoldable pub current : Bytes → List BlockDetail → Option BlockDetail
current n [] = none
current n (v ∷ vs) = let rest = current n vs in if bytes_eq (key v) n then some v else rest

-- The last version of every block that comes, the one that came last first.
abbrev pub latest : List BlockDetail → List BlockDetail → List BlockDetail
latest vs [] = vs
latest vs (b ∷ bs) = latest (b ∷ others (key b) vs) bs

others_twice : (n : Bytes) (vs : List BlockDetail) → others n (others n vs) ≡ others n vs
unfolding others
others_twice n [] = refl
others_twice n (v ∷ vs) = elim (Bool-cases (bytes_eq (key v) n)) [
  | inl e ↦ rw (e, others) (others_twice n vs)
  | inr e ↦ rw (e, others) (rw (e, others) (ap (λ x. v ∷ x) (others_twice n vs)))
]

others_comm :
    (a b : Bytes) (vs : List BlockDetail) → others a (others b vs) ≡ others b (others a vs)
unfolding others
others_comm a b [] = refl
others_comm a b (v ∷ vs) =
    by_cases (bytes_eq (key v) a) (bytes_eq (key v) b) (others_comm a b vs) refl refl
  where
    by_cases :
        (p q : Bool)
        → others a (others b vs) ≡ others b (others a vs)
        → bytes_eq (key v) a ≡ p
        → bytes_eq (key v) b ≡ q
        → others a (others b (v ∷ vs)) ≡ others b (others a (v ∷ vs))
    by_cases p q h ea eb = ground (arith, h, ea, eb)

pub current-others :
    (n n' : Bytes) (vs : List BlockDetail)
    → bytes_eq n n' ≡ false
    → current n' (others n vs) ≡ current n' vs
unfolding others current
current-others n n' [] h = refl
current-others n n' (v ∷ vs) h = elim (Bool-cases (bytes_eq (key v) n)) [
  | inl e ↦
      let named : bytes_eq (key v) n' ≡ false =
        ap (λ k. bytes_eq k n') (bytes_eq→eq (key v) n e) ∙ h in
      rw (e, others) (rw (named, current) (current-others n n' vs h))
  | inr e ↦
      rw (e, others)
        (ap (λ o. if bytes_eq (key v) n' then some v else o) (current-others n n' vs h))
]

module _ {κ} (P : BlockDetail → Type κ) where
  pub All-others : (n : Bytes) (vs : List BlockDetail) → All P vs → All P (others n vs)
  unfolding others
  All-others n [] h = h
  All-others n (v ∷ vs) (hv, h) = elim (Bool-cases (bytes_eq (key v) n)) [
    | inl e ↦ rw (e, others) (All-others n vs h)
    | inr e ↦ rw (e, others) (hv, All-others n vs h)
  ]

pub All-others_differ :
    (n : Bytes) (vs : List BlockDetail) → All (λ v. bytes_eq (key v) n ≡ false) (others n vs)
unfolding others
All-others_differ n [] = tt
All-others_differ n (v ∷ vs) = elim (Bool-cases (bytes_eq (key v) n)) [
  | inl e ↦ rw (e, others) (All-others_differ n vs)
  | inr e ↦ rw (e, others) (e, All-others_differ n vs)
]

-- No two have the same key.
abbrev pub Unique : List BlockDetail → Type 0
Unique [] = Unit
Unique (v ∷ vs) = (others (key v) vs ≡ vs) × Unique vs

Unique-others : (n : Bytes) (vs : List BlockDetail) → Unique vs → Unique (others n vs)
unfolding others
Unique-others n [] h = tt
Unique-others n (v ∷ vs) (hv, h) = elim (Bool-cases (bytes_eq (key v) n)) [
  | inl e ↦ rw (e, others) (Unique-others n vs h)
  | inr e ↦ rw (e, others) (others_comm (key v) n vs ∙ ap (others n) hv, Unique-others n vs h)
]

pub Unique-latest :
    (b : BlockDetail) (vs : List BlockDetail) → Unique vs → Unique (b ∷ others (key b) vs)
Unique-latest b vs h = (others_twice (key b) vs, Unique-others (key b) vs h)

pub others-none : (n : Bytes) (vs : List BlockDetail) → current n vs ≡ none → others n vs ≡ vs
unfolding others current
others-none n [] h = refl
others-none n (v ∷ vs) h = elim (Bool-cases (bytes_eq (key v) n)) [
  | inl e ↦ cc (rw (e, current) at h)
  | inr e ↦ rw (e, others) (ap (λ x. v ∷ x) (others-none n vs (rw (e, current) at h)))
]

pub current-key :
    (n : Bytes) (vs : List BlockDetail) (b : BlockDetail) → current n vs ≡ some b → key b ≡ n
unfolding current
current-key n [] b h = cc
current-key n (v ∷ vs) b h = elim (Bool-cases (bytes_eq (key v) n)) [
  | inl e ↦ ap key (sym (some-injective v b (rw (e, current) at h))) ∙ bytes_eq→eq (key v) n e
  | inr e ↦ current-key n vs b (rw (e, current) at h)
]
