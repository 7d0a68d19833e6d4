-- ===== src/Repo/Query/Keys.antt =====
-- Which keys lie in the range of a search.
use account_indexer.Common.{
  true, ◌≤◌, sym, bytes_eq_refl, ℕ, ◌+◌, ◌*◌, ◌/◌, ◌%◌, ◌<◌, Bytes, Bool, false, [], ◌∷◌, ◌++◌,
  length, ltb, ◌==◌, bytes_eq, if◌then◌else◌, ◌≡◌, refl, ap, ◌∙◌, append-nil, arith,
}
use account_indexer.Dao.Order.{bytes_lt}
use account_indexer.Go.BigInt.RoundTrip.{be4}

bytes_lt-append :
    (p q x y : Bytes)
    → length p ≡ length q
    → bytes_lt (p ++ x) (q ++ y) ≡ (if bytes_eq p q then bytes_lt x y else bytes_lt p q)
unfolding bytes_lt bytes_eq
bytes_lt-append [] [] x y h = refl
bytes_lt-append [] (b ∷ q) x y h = absurd (omega (arith, h))
bytes_lt-append (a ∷ p) [] x y h = absurd (omega (arith, h))
bytes_lt-append (a ∷ p) (b ∷ q) x y h = ground (arith, bytes_lt-append p q x y (omega (arith, h)))

bytes_lt-nil : (x : Bytes) → bytes_lt x [] ≡ false
unfolding bytes_lt
bytes_lt-nil [] = refl
bytes_lt-nil (c ∷ x) = refl

-- A comparison by a high part and a byte is that of the numbers.
lex_byte :
    (h k l m u v : ℕ) (z : Bool)
    → l < 256
    → m < 256
    → u ≡ h * 256 + l
    → v ≡ k * 256 + m
    → (if h == k then (if l == m then z else ltb l m) else ltb h k)
      ≡ (if u == v then z else ltb u v)
lex_byte h k l m u v z hl hm hu hv = ground arith

bytes_lt-be4 :
    (a b : ℕ) (x y : Bytes)
    → a < 4294967296
    → b < 4294967296
    → bytes_lt (be4 a ++ x) (be4 b ++ y) ≡ (if a == b then bytes_lt x y else ltb a b)
unfolding bytes_lt
bytes_lt-be4 a b x y ha hb =
    lex_byte (a / 16777216) (b / 16777216) (a / 65536 % 256) (b / 65536 % 256) (a / 65536)
      (b / 65536) _ (omega arith) (omega arith) (omega arith) (omega arith)
    ∙ lex_byte (a / 65536) (b / 65536) (a / 256 % 256) (b / 256 % 256) (a / 256) (b / 256) _
        (omega arith) (omega arith) (omega arith) (omega arith)
    ∙ lex_byte (a / 256) (b / 256) (a % 256) (b % 256) a b (bytes_lt x y) (omega arith)
        (omega arith) (omega arith) (omega arith)

module _ (a a' : Bytes) (same : length a' ≡ length a) where
  -- A key against a bound that is the address alone.
  pub key_above_address :
      (x : Bytes) → bytes_lt (a' ++ x) a ≡ (if bytes_eq a' a then false else bytes_lt a' a)
  key_above_address x =
      rw (bytes_lt-nil x) at (rw (append-nil a) at (bytes_lt-append a' a x [] same))

  -- A key against a bound that is the address and a time.
  pub key_bound :
      (t u s : ℕ)
      → t < 4294967296
      → u < 4294967296
      → bytes_lt (a' ++ (be4 t ++ (s ∷ []))) (a ++ be4 u)
        ≡ (if bytes_eq a' a then ltb t u else bytes_lt a' a)
  key_bound t u s ht hu =
      rw (bytes_lt-append a' a (be4 t ++ (s ∷ [])) (be4 u) same)
        (ap (λ r. if bytes_eq a' a then r else bytes_lt a' a) later)
    where
      later : bytes_lt (be4 t ++ (s ∷ [])) (be4 u) ≡ ltb t u
      later = bytes_lt-be4 t u (s ∷ []) [] ht hu ∙ ground (arith, bytes_lt-nil (s ∷ []))

same_or_later :
    (e z b : Bool) (t u : ℕ)
    → e ≡ true
    → (if e then (if t == u then z else ltb t u) else b) ≡ true
    → t ≤ u
same_or_later e z b t u h k = ground (arith, h, k)

-- The order of keys with the same address is that of their times.
pub key_times :
    (a a' : Bytes) (t u s s' : ℕ)
    → a ≡ a'
    → t < 4294967296
    → u < 4294967296
    → bytes_lt (a ++ (be4 t ++ (s ∷ []))) (a' ++ (be4 u ++ (s' ∷ []))) ≡ true
    → t ≤ u
key_times a a' t u s s' e ht hu h =
    same_or_later (bytes_eq a a') (bytes_lt (s ∷ []) (s' ∷ [])) (bytes_lt a a') t u
      (ap (λ x. bytes_eq x a') e ∙ bytes_eq_refl a')
      (sym (
          bytes_lt-append a a' (be4 t ++ (s ∷ [])) (be4 u ++ (s' ∷ [])) (ap (λ x. length x) e)
          ∙ ap (λ r. if bytes_eq a a' then r else bytes_lt a a')
              (bytes_lt-be4 t u (s ∷ []) (s' ∷ []) ht hu))
        ∙ h)
