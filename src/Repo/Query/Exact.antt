-- ===== src/Repo/Query/Exact.antt =====
-- A search answers with the records of the address whose time lies between the bounds.
use Prim.Native.Nat.{min}
use mathlib.Core.List.{reverse_aux}
use mathlib.Core.List.Permᴰ
use mathlib.Mathlib.Data.List.Basic.{map-reverse_aux}
use account_indexer.Common.{
  ℕ, ◌+◌, ◌<◌, Bytes, Bool, true, false, List, [], ◌∷◌, map, Option, none, some, length, length-map,
  take, drop, ◌==◌, All, if◌then◌else◌, ◌≡◌, refl, sym, ap, ◌∙◌, arith,
}
use account_indexer.Common.Int.{ℤ, pos_part, abs-pos}
use account_indexer.Common.Sublists.{filter, All-filter, All-take, All-drop, take-map, drop-map}
use account_indexer.Common.Perms.{All-perm}
use account_indexer.Common.Perms.{Pairwise}
use account_indexer.Common.Outcome.{ok}
use account_indexer.Geth.{Geth, IsHex}
use account_indexer.Types.{AddressIndex}
use account_indexer.DateTime.{is_zero}
use account_indexer.Dao.{KeyValue, Range, KeyValueDao}
use account_indexer.Dao.Order.{in_range, filter_range}
use account_indexer.Dao.Iterate.Pages.{page, seen}
use account_indexer.Dao.Contract.{View, IsKeyValueDao, answer}
use account_indexer.Marshal.Address.{marshall_address_key, marshall_address_key_prefix}
use account_indexer.Marshal.Address.RoundTrip.{IsAddress}
use account_indexer.Repo.Store.{IndexRepo, address_record}
use account_indexer.Repo.Query.{get_total_transaction, get_transaction_by_address, to_indexes}
use account_indexer.Repo.Query.Within.{
  IsBytesPrefix, bound, Bounds, search_range, search_range_exact,
}
use account_indexer.Repo.Query.Chronology.{ordered, looked_at, page_of, InTime, listed-InTime}
use account_indexer.Repo.Query.Read.{IsStored, read_index, hits, is_hit, traverse_read}

module _ (r : AddressIndex → KeyValue) where
  looked_at-map : (xs : List AddressIndex) → seen (map r xs) ≡ map r (looked_at xs)
  unfolding seen looked_at
  looked_at-map xs = take-map r 10001 xs

  page-map :
      (rows start : ℤ) (xs : List AddressIndex)
      → page rows start (map r xs) ≡ map r (page_of rows start xs)
  unfolding page
  page-map rows start xs =
      ap (λ ys. take (pos_part rows) (drop (pos_part start) ys)) (looked_at-map xs)
      ∙ ap (take (pos_part rows)) (drop-map r (pos_part start) (looked_at xs))
      ∙ take-map r (pos_part rows) (drop (pos_part start) (looked_at xs))

  record_or_not :
      (b : Bool) (i : AddressIndex) (kvs : List KeyValue) (xs : List AddressIndex)
      → kvs ≡ map r xs
      → (if b then r i ∷ kvs else kvs) ≡ map r (if b then i ∷ xs else xs)
  record_or_not true i kvs xs e = ap (◌∷◌ (r i)) e
  record_or_not false i kvs xs e = e

module _ (g : Geth) (bytes_prefix : Bytes → Range) (hex : IsHex g)
    (laws : IsBytesPrefix bytes_prefix) (a : Bytes) (f u : Option ℕ) (ha : IsAddress g a)
    (hb : Bounds f u) where
  in_range-is_hit :
      (i : AddressIndex)
      → IsStored g i
      → in_range (search_range g bytes_prefix a f u) (marshall_address_key g i) ≡ is_hit g a f u i
  unfolding marshall_address_key
  in_range-is_hit i h =
      rw (h.timed, abs-pos h.seconds)
        (search_range_exact g bytes_prefix hex laws a i.address f u h.seconds i.sequence ha h.own hb
          h.in_range_time h.byte)

  found_records :
      (xs : List AddressIndex)
      → All (IsStored g) xs
      → filter_range (search_range g bytes_prefix a f u) (map (address_record g) xs)
        ≡ map (address_record g) (hits g a f u xs)
  unfolding filter_range filter address_record
  found_records [] h = refl
  found_records (i ∷ xs) (hi, h) =
      rw (in_range-is_hit i hi)
        (record_or_not (address_record g) (is_hit g a f u i) i _ _ (found_records xs h))

module _ (g : Geth) (ad bd : KeyValueDao) (va : View ad) (da : IsKeyValueDao ad va)
    (some_bytes : 0 < g.address_length) (a : Bytes) (ha : IsAddress g a) where
  prefix_not_empty : (length (marshall_address_key_prefix g a) == 0) ≡ false
  unfolding marshall_address_key_prefix
  prefix_not_empty = ground (arith, ha, some_bytes)

  -- The total counts the records in the range.
  counts :
      (f u : Option ℕ) (repo : IndexRepo g ad bd)
      → get_total_transaction g ad bd va.prefix_range a (bound f) (bound u) repo
        ≡ length (filter_range (search_range g va.prefix_range a f u) (va.contents repo.address_db))
  unfolding get_total_transaction is_zero
  counts none none repo = rw prefix_not_empty (da.count_by_key_prefix_lem _ repo.address_db)
  counts none (some u) repo = da.count_by_range_lem _ repo.address_db
  counts (some f) none repo = da.count_by_range_lem _ repo.address_db
  counts (some f) (some u) repo = da.count_by_range_lem _ repo.address_db

  -- The list is read from the page of the records in the range.
  lists :
      (f u : Option ℕ) (rows start : ℤ) (repo : IndexRepo g ad bd)
      → get_transaction_by_address g ad bd va.prefix_range a rows start (bound f) (bound u) repo
        ≡ to_indexes g ad bd va.prefix_range (
            answer
              (ordered f u
                (filter_range (search_range g va.prefix_range a f u) (va.contents repo.address_db)))
              rows
              start)
  unfolding get_transaction_by_address is_zero
  lists none none rows start repo = rw prefix_not_empty (
      ap (to_indexes g ad bd va.prefix_range)
        (da.find_by_key_prefix_lem _ false rows start repo.address_db))
  lists none (some u) rows start repo =
      ap (to_indexes g ad bd va.prefix_range)
        (da.find_by_range_lem _ true rows start repo.address_db)
  lists (some f) none rows start repo =
      ap (to_indexes g ad bd va.prefix_range)
        (da.find_by_range_lem _ true rows start repo.address_db)
  lists (some f) (some u) rows start repo =
      ap (to_indexes g ad bd va.prefix_range)
        (da.find_by_range_lem _ true rows start repo.address_db)

ordered-map :
    (r : AddressIndex → KeyValue) (f u : Option ℕ) (xs : List AddressIndex)
    → ordered f u (map r xs) ≡ map r (ordered f u xs)
ordered-map r none none xs = sym (map-reverse_aux r xs [])
ordered-map r (some f) u xs = refl
ordered-map r none (some u) xs = refl

length-reverse_aux :
    (xs ys : List AddressIndex) → length (reverse_aux xs ys) ≡ length xs + length ys
length-reverse_aux [] ys = omega arith
length-reverse_aux (x ∷ xs) ys = omega (arith, length-reverse_aux xs (x ∷ ys))

length-ordered : (f u : Option ℕ) (xs : List AddressIndex) → length (ordered f u xs) ≡ length xs
length-ordered none none xs = omega (arith, length-reverse_aux xs [])
length-ordered (some f) u xs = refl
length-ordered none (some u) xs = refl

module _ (P : AddressIndex → Type 0) where
  All-ordered : (f u : Option ℕ) (xs : List AddressIndex) → All P xs → All P (ordered f u xs)
  All-ordered none none xs h = All-perm P (Permᴰ.reverse xs) h
  All-ordered (some f) u xs h = h
  All-ordered none (some u) xs h = h

  All-page : (rows start : ℤ) (xs : List AddressIndex) → All P xs → All P (page_of rows start xs)
  unfolding looked_at
  All-page rows start xs h =
      All-take P (pos_part rows) _ (All-drop P (pos_part start) _ (All-take P 10001 xs h))

-- The records on the page of a search can be read.
pub page-IsStored :
    (g : Geth) (a : Bytes) (f u : Option ℕ) (rows start : ℤ) (xs : List AddressIndex)
    → All (IsStored g) xs
    → All (IsStored g) (page_of rows start (ordered f u (hits g a f u xs)))
page-IsStored g a f u rows start xs h =
    All-page (IsStored g) rows start _
      (All-ordered (IsStored g) f u _ (All-filter (IsStored g) (is_hit g a f u) xs h))

module _ (g : Geth) (hex : IsHex g) (ad bd : KeyValueDao) (va : View ad) (da : IsKeyValueDao ad va)
    (laws : IsBytesPrefix va.prefix_range) (some_bytes : 0 < g.address_length) where
  -- The total of a search by an address and bounds on the time, either of which may be missing, is
  -- the number of stored records of the address whose time lies between the bounds, both inclusive.
  -- It is assumed that the store keeps its promises, that hexutil and util.BytesPrefix are as
  -- documented, that the address has its length, which is not 0, that a lower bound and the second
  -- after an upper bound have four bytes, and that the address database holds records that can be
  -- read.
  pub get_total_transaction_exact :
      (a : Bytes) (f u : Option ℕ) (repo : IndexRepo g ad bd) (xs : List AddressIndex)
      → IsAddress g a
      → Bounds f u
      → va.contents repo.address_db ≡ map (address_record g) xs
      → All (IsStored g) xs
      → get_total_transaction g ad bd va.prefix_range a (bound f) (bound u) repo
        ≡ length (hits g a f u xs)
  get_total_transaction_exact a f u repo xs ha hb e h =
      counts g ad bd va da some_bytes a ha f u repo
      ∙ rw (e, found_records g va.prefix_range hex laws a f u ha hb xs h)
          (length-map (address_record g) (hits g a f u xs))

  -- A search by an address and bounds on the time, either of which may be missing, returns, beside
  -- their number up to 10001, the page of the stored records of the address whose time lies between
  -- the bounds, both inclusive, as they are read back. The page is in the order of the times: oldest
  -- first if a bound is given, newest first otherwise. It is assumed that the store keeps its
  -- promises, that hexutil and util.BytesPrefix are as documented, that the address has its length,
  -- which is not 0, that a lower bound and the second after an upper bound have four bytes, and that
  -- the address database holds records that can be read.
  pub get_transaction_by_address_exact :
      (a : Bytes) (f u : Option ℕ) (rows start : ℤ) (repo : IndexRepo g ad bd)
      (xs : List AddressIndex)
      → IsAddress g a
      → Bounds f u
      → va.contents repo.address_db ≡ map (address_record g) xs
      → All (IsStored g) xs
      → let listed = page_of rows start (ordered f u (hits g a f u xs)) in
        (get_transaction_by_address g ad bd va.prefix_range a rows start (bound f) (bound u) repo
          ≡ ok (min (length (hits g a f u xs)) 10001, map (read_index g) listed))
        × Pairwise (InTime g f u) listed
  unfolding to_indexes
  get_transaction_by_address_exact a f u rows start repo xs ha hb e h =
      let found = hits g a f u xs in
      let order = rw e at (da.order_lem repo.address_db) in
      (
        lists g ad bd va da some_bytes a ha f u rows start repo
            ∙ rw
                (
                  e,
                  found_records g va.prefix_range hex laws a f u ha hb xs h,
                  ordered-map (address_record g) f u found,
                )
                (rw
                  (
                    page-map (address_record g) rows start (ordered f u found),
                    length-map (address_record g) (ordered f u found),
                    length-ordered f u found,
                    traverse_read g (page_of rows start (ordered f u found))
                        (page-IsStored g a f u rows start xs h),
                  )
                  refl),
        listed-InTime g a f u rows start xs order h,
      )
