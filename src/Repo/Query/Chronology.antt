-- ===== src/Repo/Query/Chronology.antt =====
-- The order in which a search lists what it finds.
use mathlib.Core.List.{reverse}
use account_indexer.Common.{
  ℕ, ◌≤◌, Bytes, Bool, true, ◌&&◌, List, [], ◌∷◌, ◌++◌, map, Option, none, some, take, drop,
  bytes_eq→eq, All, All-imp, All-zip, ◌≡◌, sym, ◌∙◌, arith,
}
use account_indexer.Common.Int.{ℤ, pos_part, abs-pos}
use account_indexer.Common.Sublists.{All-filter, All-filter_passed}
use account_indexer.Common.Perms.{Pairwise}
use account_indexer.Common.Pairs.{
  Pairwise-take, Pairwise-drop, Pairwise-filter, Pairwise-reverse, Pairwise-imp, Pairwise-map,
}
use account_indexer.Go.BigInt.RoundTrip.{be4}
use account_indexer.Geth.{Geth}
use account_indexer.Types.{AddressIndex}
use account_indexer.Dao.Sorted.{Before, InOrder}
use account_indexer.Marshal.Address.{marshall_address_key}
use account_indexer.Marshal.Address.RoundTrip.{key_layout}
use account_indexer.Repo.Store.{address_record}
use account_indexer.Repo.Query.Keys.{key_times}
use account_indexer.Repo.Query.Within.{within}
use account_indexer.Repo.Query.Read.{IsStored, seconds_of, is_hit, hits}

module _ {ℓ} {A : Type ℓ} where
  -- The order of the store where a bound is given, its reverse otherwise.
  abbrev pub ordered : Option ℕ → Option ℕ → List A → List A
  ordered none none xs = reverse xs
  ordered (some f) u xs = xs
  ordered none (some u) xs = xs

  -- The entries that a search looks at: goleveldb's loop stops after 10001.
  unfoldable pub looked_at : List A → List A
  looked_at = take 10001

  -- The page of them that is returned.
  abbrev pub page_of : ℤ → ℤ → List A → List A
  page_of rows start xs = take (pos_part rows) (drop (pos_part start) (looked_at xs))

module _ (g : Geth) where
  abbrev Earlier : AddressIndex → AddressIndex → Type 0
  Earlier i j = seconds_of g i.time ≤ seconds_of g j.time

  -- A record is listed before another: oldest first where a bound is given, newest first otherwise.
  abbrev pub InTime : Option ℕ → Option ℕ → AddressIndex → AddressIndex → Type 0
  InTime none none i j = Earlier j i
  InTime (some f) u i j = Earlier i j
  InTime none (some u) i j = Earlier i j

  module _ (a : Bytes) (f u : Option ℕ) where
    abbrev Hit : AddressIndex → Type 0
    Hit i = IsStored g i × ((g.decode i.address).0 ≡ (g.decode a).0)

    own : (x y : Bool) → (x && y) ≡ true → x ≡ true
    own x y h = ground (arith, h)

    hits-Hit : (xs : List AddressIndex) → All (IsStored g) xs → All Hit (hits g a f u xs)
    hits-Hit xs h =
        All-imp (λ i. IsStored g i × (is_hit g a f u i ≡ true)) Hit (hits g a f u xs)
          (λ i p. (
            p.0,
            bytes_eq→eq (g.decode i.address).0 (g.decode a).0
                (own _ (within f u (seconds_of g i.time)) p.1),
          ))
          (All-zip (IsStored g) _ _ (All-filter (IsStored g) (is_hit g a f u) xs h)
            (All-filter_passed (is_hit g a f u) xs))

    key_of :
        (i : AddressIndex) (h : IsStored g i)
        → (address_record g i).key ≡ (g.decode i.address).0 ++ (be4 h.seconds ++ (i.sequence ∷ []))
    unfolding address_record marshall_address_key
    key_of i h = rw h.timed (key_layout g i.address h.seconds i.sequence h.in_range_time)

    earlier :
        (i j : AddressIndex)
        → Hit i
        → Hit j
        → Before (address_record g i) (address_record g j)
        → Earlier i j
    earlier i j (hi, ei) (hj, ej) b =
        let times =
          key_times (g.decode i.address).0 (g.decode j.address).0 hi.seconds hj.seconds i.sequence
            j.sequence (ei ∙ sym ej) hi.in_range_time.below hj.in_range_time.below
            (rw (key_of i hi, key_of j hj) at b) in
        rw (hi.timed, hj.timed, abs-pos hi.seconds, abs-pos hj.seconds) times

    hits-Earlier :
        (xs : List AddressIndex)
        → InOrder (map (address_record g) xs)
        → All (IsStored g) xs
        → Pairwise Earlier (hits g a f u xs)
    hits-Earlier xs o h =
        Pairwise-imp Hit (λ i j. Before (address_record g i) (address_record g j)) Earlier
          (hits g a f u xs) earlier (hits-Hit xs h)
          (Pairwise-filter _ (is_hit g a f u) xs (Pairwise-map (address_record g) Before xs o))

  ordered-InTime :
      (f u : Option ℕ) (xs : List AddressIndex)
      → Pairwise Earlier xs
      → Pairwise (InTime f u) (ordered f u xs)
  ordered-InTime none none xs h = Pairwise-reverse Earlier xs h
  ordered-InTime (some f) u xs h = h
  ordered-InTime none (some u) xs h = h

  -- What a search lists of a database in the order of its keys is in the order of the times.
  pub listed-InTime :
      (a : Bytes) (f u : Option ℕ) (rows start : ℤ) (xs : List AddressIndex)
      → InOrder (map (address_record g) xs)
      → All (IsStored g) xs
      → Pairwise (InTime f u) (page_of rows start (ordered f u (hits g a f u xs)))
  unfolding looked_at
  listed-InTime a f u rows start xs o h = Pairwise-take (InTime f u) (pos_part rows) _ (
      Pairwise-drop (InTime f u) (pos_part start) _
        (Pairwise-take (InTime f u) 10001 _ (ordered-InTime f u _ (hits-Earlier a f u xs o h))))
