-- ===== src/Http/Accounts/Search.antt =====
-- What a search for the transactions of an account is answered with.
use Prim.Native.Nat.{min}
use account_indexer.Common.{
  ℕ, ◌<◌, true, false, List, [], ◌∷◌, ◌++◌, map, Option, none, some, length, ◌==◌, ltb, All, ◌≡◌,
  refl, ap, arith, Bool-cases, inl, inr, codes,
}
use account_indexer.Common.Int.{ℤ, pos, abs, abs-pos}
use account_indexer.Common.Outcome.{ok, deref, traverse}
use account_indexer.Geth.{Geth, IsHex}
use account_indexer.Types.{AddressIndex}
use account_indexer.DateTime.{unmarshall_int_to_time}
use account_indexer.DateTime.Format.{format_rfc3339}
use account_indexer.Dao.{KeyValueDao}
use account_indexer.Dao.Contract.{View, IsKeyValueDao}
use account_indexer.Marshal.Address.RoundTrip.{IsAddress, canonical}
use account_indexer.Repo.Store.{IndexRepo, address_record}
use account_indexer.Repo.Query.Within.{IsBytesPrefix, bound, Bounds}
use account_indexer.Repo.Query.Read.{IsStored, read_index, seconds_of, hits}
use account_indexer.Common.Perms.{Pairwise}
use account_indexer.Repo.Query.Chronology.{ordered, page_of, InTime}
use account_indexer.Repo.Query.Exact.{page-IsStored, get_transaction_by_address_exact}
use account_indexer.Fetcher.{EthClient}
use account_indexer.Http.Types.{EiAddress, address_to_ei_address}
use account_indexer.Http.Extra.{Needs, needs_of, to_address}
use account_indexer.Http.{Request, Written, json, Body.transactions}
use account_indexer.Http.Params.{bound_of, get_paging_query_params}
use account_indexer.Http.Params.Reads.{account_of, from_of, to_of, get_account_param_read}
use account_indexer.Http.Accounts.{
  total_text, answer_transactions, transactions_answer, get_transactions_by_account,
}

abbrev pub nothing_needed : Needs
nothing_needed = record { tx_data = false; tx_gas = false; tx_gas_price = false }

module _ (g : Geth) (local : ℤ → ℤ) (client : Option EthClient) where
  -- A stored record as it is shown.
  abbrev pub shown : AddressIndex → EiAddress
  shown i = record {
    address = canonical g i.address;
    tx_hash = canonical g i.tx_hash;
    value = pos (abs i.value);
    time = format_rfc3339 local (unmarshall_int_to_time (pos (seconds_of g i.time)));
    couple_address = canonical g i.couple_address;
    data_bytes = none;
    gas = 0;
    gas_price = none;
  }

  to_address-shown :
      (i : AddressIndex)
      → IsStored g i
      → to_address g local client nothing_needed (read_index g i) ≡ ok (shown i)
  unfolding to_address address_to_ei_address deref
  to_address-shown i h = rw (h.timed, abs-pos h.seconds) refl

  traverse-shown :
      (xs : List AddressIndex)
      → All (IsStored g) xs
      → traverse (to_address g local client nothing_needed) (map (read_index g) xs)
        ≡ ok (map shown xs)
  unfolding traverse
  traverse-shown [] h = refl
  traverse-shown (i ∷ xs) (hi, h) = rw (to_address-shown i hi, traverse-shown xs h) refl

more_than : (n : ℕ) → ltb 10000 n ≡ true → ltb 10000 (min n 10001) ≡ true
more_than n h = ground (arith, h)

not_more : (n : ℕ) → ltb 10000 n ≡ false → min n 10001 ≡ n
not_more n h = ground (arith, h)

-- The total is counted up to 10001, which is enough.
total_text-min : (n : ℕ) → total_text (min n 10001) ≡ total_text n
unfolding total_text
total_text-min n = elim (Bool-cases (ltb 10000 n)) [
  | inl h ↦ rw (h, more_than n h) refl
  | inr h ↦ ap total_text (not_more n h)
]

nonempty : (n m : ℕ) → n ≡ m → 0 < m → (n == 0) ≡ false
nonempty n m e h = ground (arith, e, h)

module _ (g : Geth) (hex : IsHex g) (ad bd : KeyValueDao) (va : View ad) (da : IsKeyValueDao ad va)
    (laws : IsBytesPrefix va.prefix_range) (some_bytes : 0 < g.address_length) where
  -- A request for the transactions of an account, with bounds on the time that are missing or times
  -- and without additional fields, is answered once, with status 200: with the number of stored
  -- records of the address whose time lies between the bounds, both inclusive, which is shown as
  -- +10000 above 10000, and the page of them that `rows` and `start` of the query ask for. The page
  -- is in the order of the times: oldest first if a bound is given, newest first otherwise. It is
  -- assumed that the store keeps its promises, that hexutil and util.BytesPrefix are as documented,
  -- that the account is hex of an address, whose length is not 0, that a lower bound and the second
  -- after an upper bound have four bytes, and that the address database holds records that can be
  -- read.
  pub get_transactions_by_account_exact :
      (local : ℤ → ℤ) (client : Option EthClient) (c : Request) (f u : Option ℕ)
      (repo : IndexRepo g ad bd) (xs : List AddressIndex) (written : Written)
      → IsAddress g (account_of g c)
      → (g.decode (account_of g c)).1 ≡ none
      → bound_of (from_of g c) ≡ some (bound f)
      → bound_of (to_of g c) ≡ some (bound u)
      → needs_of (c.query (codes "fl")) ≡ nothing_needed
      → Bounds f u
      → va.contents repo.address_db ≡ map (address_record g) xs
      → All (IsStored g) xs
      → let (rows, start) = get_paging_query_params c in
        let found = hits g (account_of g c) f u xs in
        let listed = page_of rows start (ordered f u found) in
        (get_transactions_by_account g local client ad bd va.prefix_range c repo written ≡ (
          ok tt,
          written
              ++ (record {
                status = 200;
                body = transactions (record {
                  total = total_text (length found);
                  start = start;
                  indexes = map (shown g local client) listed;
                });
              }
                  ∷ []),
        ))
        × Pairwise (InTime g f u) listed
  unfolding get_transactions_by_account transactions_answer answer_transactions json
  get_transactions_by_account_exact local client c f u repo xs written ha valid kf ku needs hb e h =
      let (rows, start) = get_paging_query_params c in
      let account = account_of g c in
      let (searched, order) =
        get_transaction_by_address_exact g hex ad bd va da laws some_bytes account f u rows start
          repo xs ha hb e h in
      let shows = traverse-shown g local client _ (page-IsStored g account f u rows start xs h) in
      (
        rw
            (
              get_account_param_read g c (bound f) (bound u) written valid
                  (nonempty _ _ ha some_bytes) kf ku,
              searched,
            )
            (rw (needs, shows, total_text-min (length (hits g account f u xs))) refl),
        order,
      )
