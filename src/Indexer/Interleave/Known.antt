-- ===== src/Indexer/Interleave/Known.antt =====
-- Under which keys a block is known after calls of ProcessBlock.
use mathlib.Core.List.{Permᴰ}
use account_indexer.Common.{
  Bytes, Bool, true, false, List, [], ◌∷◌, Option, none, some, bytes_eq, ◌≡◌, refl, ap, ◌∙◌,
}
use account_indexer.Go.BigInt.{string}
use account_indexer.Indexer.Interleave.{Job}

-- The value under a key, after a call on a block whose number is the key or not.
abbrev pub value_after : Bool → Bool → Bytes → Option Bytes → Option Bytes
value_after true q v x = x
value_after false true v x = some v
value_after false false v x = x

abbrev pub is_some : Option Bytes → Bool
is_some none = false
is_some (some v) = true

abbrev pub some_after : Bool → Bool → Bool → Bool
some_after true q x = x
some_after false true x = true
some_after false false x = x

pub some_after-eq :
    (p q : Bool) (v : Bytes) (x : Option Bytes)
    → is_some (value_after p q v x) ≡ some_after p q (is_some x)
some_after-eq true q v x = refl
some_after-eq false true v x = refl
some_after-eq false false v x = refl

some_after_comm :
    (p q p' q' x : Bool) → some_after p q (some_after p' q' x) ≡ some_after p' q' (some_after p q x)
some_after_comm true q p' q' x = refl
some_after_comm false q true q' x = refl
some_after_comm false true false true x = refl
some_after_comm false true false false x = refl
some_after_comm false false false true x = refl
some_after_comm false false false false x = refl

abbrev pub names_key : Bytes → Job → Bool
names_key k j = bytes_eq (string j.block.block_number) k

-- Whether a block is known under a key after the calls.
abbrev pub known_after : Bytes → List Job → Bool → Bool
known_after k [] x = x
known_after k (j ∷ js) x = known_after k js (some_after j.is_batch (names_key k j) x)

pub known_after-perm :
    (k : Bytes) (js js' : List Job) (x : Bool)
    → Permᴰ js js'
    → known_after k js x ≡ known_after k js' x
known_after-perm k js js' x Permᴰ.nil = refl
known_after-perm k js js' x (Permᴰ.cons {a} {b} {l₁} {l₂} e p) =
    ap (λ j. known_after k l₁ (some_after j.is_batch (names_key k j) x)) e
    ∙ known_after-perm k l₁ l₂ (some_after b.is_batch (names_key k b) x) p
known_after-perm k js js' x (Permᴰ.swap {a} {b} {a'} {b'} {l} e f) =
    rw (e, f)
      (ap (known_after k l)
        (some_after_comm a'.is_batch (names_key k a') b'.is_batch (names_key k b') x))
known_after-perm k js js' x (Permᴰ.trans {l₂ = mid} p q) =
    known_after-perm k js mid x p ∙ known_after-perm k mid js' x q
