-- ===== src/Dao/Reads.antt =====
-- What the shared loops read from an iterator over given records.
use mathlib.Core.List.{reverse}
use account_indexer.Common.{ℕ, Bool, true, false, List, ◌≡◌, ap, ◌∙◌, length, take}
use account_indexer.Common.Int.{ℤ}
use account_indexer.Dao.{KeyValue, Iterator, Predicate}
use account_indexer.Dao.Iterate
use account_indexer.Dao.Iterate.Pages.{
  take_while, at_least_one, find_by_key_prefix-page, count-length, get_n_first_records-take,
  get_n_last_records-take, get_n_first_predicate-take_while, get_all_records-forward,
}
use account_indexer.Dao.Contract.{directed, answer}

module _ (it : Iterator) (kvs : List KeyValue) (fwd : it.forward ≡ kvs)
    (back : it.backward ≡ reverse it.forward) where
  back_kvs : it.backward ≡ reverse kvs
  back_kvs = back ∙ ap reverse fwd

  pub reads_page :
      (asc : Bool) (rows start : ℤ)
      → Iterate.find_by_key_prefix it asc rows start ≡ answer (directed asc kvs) rows start
  reads_page true rows start =
      find_by_key_prefix-page it true rows start ∙ ap (λ l. answer l rows start) fwd
  reads_page false rows start =
      find_by_key_prefix-page it false rows start ∙ ap (λ l. answer l rows start) back_kvs

  pub reads_count : Iterate.count it ≡ length kvs
  reads_count = count-length it ∙ ap length fwd

  pub reads_first : (n : ℕ) → Iterate.get_n_first_records it n ≡ take n kvs
  reads_first n = get_n_first_records-take it n ∙ ap (take n) fwd

  pub reads_last : (n : ℕ) → Iterate.get_n_last_records it n ≡ take (at_least_one n) (reverse kvs)
  reads_last n = get_n_last_records-take it n ∙ ap (take (at_least_one n)) back_kvs

  pub reads_while : (p : Predicate) → Iterate.get_n_first_predicate it p ≡ take_while p kvs
  reads_while p = get_n_first_predicate-take_while it p ∙ ap (take_while p) fwd

  pub reads_all : Iterate.get_all_records it ≡ kvs
  reads_all = get_all_records-forward it ∙ fwd
