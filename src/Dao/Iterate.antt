-- ===== src/Dao/Iterate.antt =====
-- leveldb_dao.go: the loops over an iterator, which both stores share.
pub mod Pages
use account_indexer.Common.{
  ℕ, zero, suc, ◌+◌, ◌-◌, Bool, true, false, ◌&&◌, List, [], ◌∷◌, ◌++◌, ltb, if◌then◌else◌,
}
use account_indexer.Common.Int.{ℤ, pos, ltb_ℤ, leb_ℤ}
use account_indexer.Common.Outcome.{Outcome, ok, ◌>>=◌}
use account_indexer.Dao.{KeyValue, Iterator, Predicate}

-- common.NumMaxTransaction
abbrev pub num_max_transaction : ℕ
num_max_transaction = 10000

module _ (rows start : ℤ) where
  -- `addToResult`: the count and the result that it leaves.
  unfoldable pub add_to_result : ℕ → ℕ → List KeyValue → KeyValue → ℕ × List KeyValue
  add_to_result total count result kv =
      if leb_ℤ start (pos total) && ltb_ℤ (pos count) rows
      then (count + 1, result ++ (kv ∷ []))
      else (count, result)

  -- `for fn() { … }`, over the entries that `fn` still reaches.
  unfoldable pub collect : ℕ → ℕ → List KeyValue → List KeyValue → ℕ × List KeyValue
  unfolding add_to_result
  collect total count result [] = (total, result)
  collect total count result (kv ∷ kvs) =
      let (count', result') = add_to_result total count result kv in
      let rest = collect (total + 1) count' result' kvs in
      if ltb num_max_transaction (total + 1) then (total + 1, result') else rest

  descend : List KeyValue → ℕ × List KeyValue
  unfolding collect
  descend [] = (0, [])
  descend (kv ∷ kvs) = let (count, result) = add_to_result 0 0 [] kv in collect 1 count result kvs

unfoldable pub find_by_key_prefix : Iterator → Bool → ℤ → ℤ → ℕ × List KeyValue
unfolding descend
find_by_key_prefix iter asc rows start =
    if asc then collect rows start 0 0 [] iter.forward else descend rows start iter.backward

first_records : ℕ → ℕ → List KeyValue → List KeyValue → List KeyValue
first_records n count result [] = result
first_records n count result (kv ∷ kvs) =
    let rest = first_records n (count + 1) (result ++ (kv ∷ [])) kvs in
    if ltb count n then rest else result

unfoldable pub get_n_first_records : Iterator → ℕ → List KeyValue
unfolding first_records
get_n_first_records iter n = first_records n 0 [] iter.forward

last_records : ℕ → List KeyValue → List KeyValue
unfolding first_records
last_records n [] = []
last_records n (kv ∷ kvs) = first_records (n - 1) 0 (kv ∷ []) kvs

unfoldable pub get_n_last_records : Iterator → ℕ → List KeyValue
unfolding last_records
get_n_last_records iter n = last_records n iter.backward

while_predicate : Predicate → List KeyValue → List KeyValue → Outcome (List KeyValue)
while_predicate prep result [] = ok result
while_predicate prep result (kv ∷ kvs) =
    let rest = while_predicate prep (result ++ (kv ∷ [])) kvs in
    do pass ← prep kv; if pass then rest else ok result

unfoldable pub get_n_first_predicate : Iterator → Predicate → Outcome (List KeyValue)
unfolding while_predicate
get_n_first_predicate iter prep = while_predicate prep [] iter.forward

all_records : List KeyValue → List KeyValue → List KeyValue
all_records result [] = result
all_records result (kv ∷ kvs) = all_records (result ++ (kv ∷ [])) kvs

unfoldable pub get_all_records : Iterator → List KeyValue
unfolding all_records
get_all_records iter = all_records [] iter.forward

count_records : ℕ → List KeyValue → ℕ
count_records result [] = result
count_records result (kv ∷ kvs) = count_records (result + 1) kvs

unfoldable pub count : Iterator → ℕ
unfolding count_records
count iter = count_records 0 iter.forward
