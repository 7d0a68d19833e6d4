-- ===== src/Dao/Iterate/Pages.antt =====
-- What the loops over an iterator return.
use Prim.Native.Nat.{min}
use native.Mathlib.Nat.{zero-add}
use account_indexer.Common.{
  ℕ, zero, suc, ◌+◌, ◌-◌, Bool, true, false, List, [], ◌∷◌, ◌++◌, append_assoc, append-nil,
  if◌then◌else◌, take, drop, length, ◌≡◌, refl, sym, ap, ◌∙◌, arith,
}
use account_indexer.Common.Int.{ℤ, pos_part}
use account_indexer.Common.Outcome.{Outcome, ok, panic, diverges, ◌>>=◌}
use account_indexer.Dao.{KeyValue, Iterator, Predicate}
use account_indexer.Dao.Iterate.{
  num_max_transaction, collect, descend, find_by_key_prefix, first_records, get_n_first_records,
  last_records, get_n_last_records, while_predicate, get_n_first_predicate, all_records,
  get_all_records, count_records, count,
}

-- The entries that a search looks at.
unfoldable pub seen : List KeyValue → List KeyValue
seen = take (num_max_transaction + 1)

-- A page of them: `rows` entries from the one at `start` on. Negative numbers count as zero.
unfoldable pub page : ℤ → ℤ → List KeyValue → List KeyValue
unfolding seen
page rows start kvs = take (pos_part rows) (drop (pos_part start) (seen kvs))

take-nil : (r : ℕ) → take r (let e : List KeyValue = [] in e) ≡ []
take-nil zero = refl
take-nil (suc r) = refl

drop-nil : (d : ℕ) → drop d (let e : List KeyValue = [] in e) ≡ []
drop-nil zero = refl
drop-nil (suc d) = refl

module _ (rows start : ℤ) where
  -- `m`, `d` and `r` are the entries still to be looked at, to be skipped and to be returned.
  collect_lem :
      (kvs : List KeyValue) (m d r total count : ℕ) (result : List KeyValue)
      → total + suc m ≡ 10001
      → d ≡ pos_part start - total
      → r ≡ pos_part rows - count
      → collect rows start total count result kvs
        ≡ (total + min (length kvs) (suc m), result ++ take r (drop d (take (suc m) kvs)))
  unfolding collect
  collect_lem [] m zero r total count result h hd hr = ground (arith, append-nil result, take-nil r)
  collect_lem [] m (suc d) r total count result h hd hr =
      ground (arith, append-nil result, take-nil r)
  collect_lem (kv ∷ kvs) zero zero zero total count result h hd hr =
      ground (arith, append-nil result)
  collect_lem (kv ∷ kvs) zero zero (suc r) total count result h hd hr = ground (arith, take-nil r)
  collect_lem (kv ∷ kvs) zero (suc d) r total count result h hd hr =
      ground (arith, append-nil result, drop-nil d, take-nil r)
  collect_lem (kv ∷ kvs) (suc m) zero zero total count result h hd hr =
      ground (arith, collect_lem kvs m 0 0 (total + 1) count result)
  collect_lem (kv ∷ kvs) (suc m) zero (suc r) total count result h hd hr = ground (
    arith,
    append_assoc result (kv ∷ []) (take r (take (suc m) kvs)),
    collect_lem kvs m 0 r (total + 1) (count + 1) (result ++ (kv ∷ [])),
  )
  collect_lem (kv ∷ kvs) (suc m) (suc d) r total count result h hd hr =
      ground (arith, collect_lem kvs m d r (total + 1) count result)

  collect_from_start :
      (m : ℕ) (kvs : List KeyValue)
      → suc m ≡ 10001
      → collect rows start 0 0 [] kvs ≡ (
        min (length kvs) (suc m),
        take (pos_part rows) (drop (pos_part start) (take (suc m) kvs)),
      )
  collect_from_start m kvs h =
      collect_lem kvs m (pos_part start) (pos_part rows) 0 0 [] (omega arith) (omega arith)
        (omega arith)
      ∙ ap (λ n. (n, take (pos_part rows) (drop (pos_part start) (take (suc m) kvs)))) (zero-add _)

  collect-page :
      (kvs : List KeyValue)
      → collect rows start 0 0 [] kvs ≡ (min (length kvs) 10001, page rows start kvs)
  unfolding page
  collect-page kvs = collect_from_start 10000 kvs refl

  -- Backward, the first entry is looked at before the loop, with the same result.
  descend-collect : (kvs : List KeyValue) → descend rows start kvs ≡ collect rows start 0 0 [] kvs
  unfolding descend collect
  descend-collect [] = refl
  descend-collect (kv ∷ kvs) = ground arith

-- The search loop, in either direction: it counts at most 10001 entries, and returns `rows` of
-- these from the one at `start` on, where negative numbers count as zero.
pub find_by_key_prefix-page :
    (iter : Iterator) (asc : Bool) (rows start : ℤ)
    → let kvs = if asc then iter.forward else iter.backward in
      find_by_key_prefix iter asc rows start ≡ (min (length kvs) 10001, page rows start kvs)
unfolding find_by_key_prefix
find_by_key_prefix-page iter true rows start = collect-page rows start iter.forward
find_by_key_prefix-page iter false rows start =
    descend-collect rows start iter.backward ∙ collect-page rows start iter.backward

first_records-take :
    (kvs : List KeyValue) (r n c : ℕ) (result : List KeyValue)
    → r ≡ n - c
    → first_records n c result kvs ≡ result ++ take r kvs
unfolding first_records
first_records-take [] zero n c result h = ground (arith, append-nil result)
first_records-take [] (suc r) n c result h = ground (arith, append-nil result)
first_records-take (kv ∷ kvs) zero n c result h = ground (arith, append-nil result)
first_records-take (kv ∷ kvs) (suc r) n c result h = ground (
  arith,
  append_assoc result (kv ∷ []) (take r kvs),
  first_records-take kvs r n (c + 1) (result ++ (kv ∷ [])),
)

pub get_n_first_records-take :
    (iter : Iterator) (n : ℕ) → get_n_first_records iter n ≡ take n iter.forward
unfolding get_n_first_records
get_n_first_records-take iter n = first_records-take iter.forward n n 0 [] (omega arith)

-- The last record is read before they are counted.
abbrev pub at_least_one : ℕ → ℕ
at_least_one zero = 1
at_least_one (suc n) = suc n

last_records-take : (n : ℕ) (kvs : List KeyValue) → last_records n kvs ≡ take (at_least_one n) kvs
unfolding last_records
last_records-take zero [] = refl
last_records-take (suc n) [] = refl
last_records-take zero (kv ∷ kvs) = first_records-take kvs 0 (0 - 1) 0 (kv ∷ []) (omega arith)
last_records-take (suc n) (kv ∷ kvs) =
    first_records-take kvs n (suc n - 1) 0 (kv ∷ []) (omega arith)

pub get_n_last_records-take :
    (iter : Iterator) (n : ℕ) → get_n_last_records iter n ≡ take (at_least_one n) iter.backward
unfolding get_n_last_records
get_n_last_records-take iter n = last_records-take n iter.backward

-- The longest prefix whose records pass a test, which may panic.
unfoldable pub take_while : Predicate → List KeyValue → Outcome (List KeyValue)
take_while p [] = ok []
take_while p (kv ∷ kvs) =
    let rest = take_while p kvs in
    do pass ← p kv; if pass then (rest >>= λ kvs'. ok (kv ∷ kvs')) else ok []

while_predicate-take_while :
    (p : Predicate) (result kvs : List KeyValue)
    → while_predicate p result kvs ≡ (take_while p kvs >>= λ kvs'. ok (result ++ kvs'))
unfolding while_predicate take_while
while_predicate-take_while p result [] = ap ok (sym (append-nil result))
while_predicate-take_while p result (kv ∷ kvs) =
    step (p kv) (take_while p kvs) (while_predicate-take_while p (result ++ (kv ∷ [])) kvs)
  where
    step :
        (b : Outcome Bool) (r : Outcome (List KeyValue))
        → while_predicate p (result ++ (kv ∷ [])) kvs
          ≡ (r >>= λ kvs'. ok ((result ++ (kv ∷ [])) ++ kvs'))
        → (b >>= λ pass. if pass then while_predicate p (result ++ (kv ∷ [])) kvs else ok result)
          ≡ ((b >>= λ pass. if pass then (r >>= λ kvs'. ok (kv ∷ kvs')) else ok []) >>= λ kvs'.
              ok (result ++ kvs'))
    step (ok true) (ok kvs') e = e ∙ ap ok (append_assoc result (kv ∷ []) kvs')
    step (ok true) (panic x) e = e
    step (ok true) diverges e = e
    step (ok false) r e = ap ok (sym (append-nil result))
    step (panic x) r e = refl
    step diverges r e = refl

bind-ok : (r : Outcome (List KeyValue)) → (r >>= λ kvs. ok kvs) ≡ r
bind-ok (ok kvs) = refl
bind-ok (panic x) = refl
bind-ok diverges = refl

pub get_n_first_predicate-take_while :
    (iter : Iterator) (p : Predicate) → get_n_first_predicate iter p ≡ take_while p iter.forward
unfolding get_n_first_predicate
get_n_first_predicate-take_while iter p =
    while_predicate-take_while p [] iter.forward ∙ bind-ok (take_while p iter.forward)

all_records-append : (result kvs : List KeyValue) → all_records result kvs ≡ result ++ kvs
unfolding all_records
all_records-append result [] = sym (append-nil result)
all_records-append result (kv ∷ kvs) =
    all_records-append (result ++ (kv ∷ [])) kvs ∙ append_assoc result (kv ∷ []) kvs

pub get_all_records-forward : (iter : Iterator) → get_all_records iter ≡ iter.forward
unfolding get_all_records
get_all_records-forward iter = all_records-append [] iter.forward

count_records-length : (n : ℕ) (kvs : List KeyValue) → count_records n kvs ≡ n + length kvs
unfolding count_records
count_records-length n [] = omega arith
count_records-length n (kv ∷ kvs) = omega (arith, count_records-length (n + 1) kvs)

pub count-length : (iter : Iterator) → count iter ≡ length iter.forward
unfolding count
count-length iter = omega (arith, count_records-length 0 iter.forward)
