-- ===== src/Go/Strings.antt =====
-- strings: Split by one byte, Join, ToUpper and ToLower of ASCII texts, and the search of a list.
use account_indexer.Common.{
  ℕ, ◌+◌, ◌-◌, Bytes, ◌&&◌, List, [], ◌∷◌, ◌++◌, map, ◌==◌, leb, codes, if◌then◌else◌, ◌≡◌, refl,
}

-- The text up to the first separator, with the rest, put before a list of texts.
abbrev pub grow : ℕ → List Bytes → List Bytes
grow c [] = (c ∷ []) ∷ []
grow c (w ∷ ws) = (c ∷ w) ∷ ws

-- strings.Split(s, sep). Of an empty text it is one empty text.
unfoldable pub split : ℕ → Bytes → List Bytes
split sep [] = [] ∷ []
split sep (c ∷ s) = let rest = split sep s in if c == sep then [] ∷ rest else grow c rest

-- strings.Join(ws, sep)
unfoldable pub join : ℕ → List Bytes → Bytes
join sep [] = []
join sep (w ∷ []) = w
join sep (w ∷ v ∷ ws) = w ++ (sep ∷ join sep (v ∷ ws))

upper : ℕ → ℕ
upper c = if leb b'a' c && leb c b'z' then c - 32 else c

lower : ℕ → ℕ
lower c = if leb b'A' c && leb c b'Z' then c + 32 else c

unfoldable pub to_upper : Bytes → Bytes
unfolding upper
to_upper s = map upper s

unfoldable pub to_lower : Bytes → Bytes
unfolding lower
to_lower s = map lower s

split_runs : split b',' (codes "a,,bc") ≡ codes "a" ∷ [] ∷ codes "bc" ∷ []
unfolding split
split_runs = refl

to_upper_runs : to_upper (codes "0xaF_") ≡ codes "0XAF_"
unfolding to_upper
to_upper_runs = refl
