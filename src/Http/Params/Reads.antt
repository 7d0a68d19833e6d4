-- ===== src/Http/Params/Reads.antt =====
-- What getAccountParam reads of a request, and what it has written by then.
use account_indexer.Common.{
  Bytes, true, false, ◌==◌, [], ◌∷◌, ◌++◌, append-nil, length, Option, none, some, codes,
  Bool-cases, Option-cases, ◌⊎◌, inl, inr, ◌≡◌, refl, sym, ap,
}
use account_indexer.Common.Outcome.{Error, Outcome, ok}
use account_indexer.Geth.{Geth}
use account_indexer.DateTime.{Time, zero_time}
use account_indexer.Http.{Request, Response, Written, json, Body.message}
use account_indexer.Http.Params.{
  AccountParam, bound_of, get_account_param, from_param, to_param, invalid_time, is_some,
}

abbrev pub bad : Bytes → Response
bad msg = record { status = 400; body = message msg }

module _ (g : Geth) (c : Request) where
  abbrev pub account_of : Bytes
  account_of = c.param (codes "accountNumber")

  abbrev pub from_of : Bytes
  from_of = c.query (codes "from")

  abbrev pub to_of : Bytes
  to_of = c.query (codes "to")

  -- An account that Decode refuses, or a bound that is no time.
  abbrev pub IsInvalid : Type 0
  IsInvalid =
      ((e : Error) × ((g.decode account_of).1 ≡ some e))
      ⊎ ((bound_of from_of ≡ none) ⊎ (bound_of to_of ≡ none))

  -- The last case is the one in which a response is written and no error returned.
  pub data Reads : AccountParam → Written → Type 0 where
    refused :
        (p : AccountParam) (e : Error) (msg : Bytes)
        → IsInvalid
        → p.err ≡ some e
        → Reads p (bad msg ∷ [])
    read :
        (from_time to_time : Time)
        → (g.decode account_of).1 ≡ none
        → (length (g.decode account_of).0 == 0) ≡ false
        → bound_of from_of ≡ some from_time
        → bound_of to_of ≡ some to_time
        → Reads
            (record { account = account_of; from_time = from_time; to_time = to_time; err = none })
            []
    empty :
        (msg : Bytes)
        → (g.decode account_of).1 ≡ none
        → (length (g.decode account_of).0 == 0) ≡ true
        → Reads
            (record {
              account = account_of;
              from_time = zero_time;
              to_time = zero_time;
              err = none;
            })
            (bad msg ∷ [])

  abbrev pub Read : Outcome AccountParam × Written → Written → Type 0
  Read r written =
      (p : AccountParam) × (added : Written) × Reads p added × (r ≡ (ok p, written ++ added))

  module _ (valid : (g.decode account_of).1 ≡ none)
      (some_bytes : (length (g.decode account_of).0 == 0) ≡ false) (written : Written) where
    reads_to :
        (from_time : Time)
        → bound_of from_of ≡ some from_time
        → Read (to_param account_of to_of from_time written) written
    unfolding to_param json
    reads_to from_time h = elim (Option-cases (bound_of to_of)) [
      | inl e ↦ rw (e, to_param) (_, _, refused _ invalid_time _ (inr (inr e)) refl, refl)
      | inr (to_time, e) ↦
          rw (e, to_param)
            (
              _,
              [],
              read from_time to_time valid some_bytes h e,
              ap (λ w. (ok _, w)) (sym (append-nil written)),
            )
    ]

    reads_from : Read (from_param account_of from_of to_of written) written
    unfolding from_param json
    reads_from = elim (Option-cases (bound_of from_of)) [
      | inl e ↦ rw (e, from_param) (_, _, refused _ invalid_time _ (inr (inl e)) refl, refl)
      | inr (from_time, e) ↦ rw (e, from_param) (reads_to from_time e)
    ]

  -- The result where the account is refused.
  abbrev refused_with : Option Error → AccountParam
  refused_with err = record {
    account = account_of;
    from_time = zero_time;
    to_time = zero_time;
    err = err;
  }

  abbrev refusal : Bytes
  refusal = codes "invalid account " ++ account_of

  pub get_account_param-Reads : (written : Written) → Read (get_account_param g c written) written
  unfolding get_account_param is_some json
  get_account_param-Reads written = elim (Option-cases (g.decode account_of).1) [
    | inr (e, k) ↦
        rw (k, get_account_param)
          (refused_with (g.decode account_of).1, _, refused _ e _ (inl (e, k)) k, refl)
    | inl k ↦ elim (Bool-cases (length (g.decode account_of).0 == 0)) [
      | inl z ↦
          rw (k, z, get_account_param)
            (
              _,
              _,
              empty refusal k z,
              ap (λ err. (ok (refused_with err), written ++ (bad refusal ∷ []))) k,
            )
      | inr z ↦ rw (k, z, get_account_param) (reads_from k z written)
    ]
  ]

  -- An account with bytes, and bounds that are times or missing.
  pub get_account_param_read :
      (from_time to_time : Time) (written : Written)
      → (g.decode account_of).1 ≡ none
      → (length (g.decode account_of).0 == 0) ≡ false
      → bound_of from_of ≡ some from_time
      → bound_of to_of ≡ some to_time
      → get_account_param g c written ≡ (
        ok (record { account = account_of; from_time = from_time; to_time = to_time; err = none }),
        written,
      )
  unfolding get_account_param is_some from_param to_param
  get_account_param_read from_time to_time written valid some_bytes kf kt =
      rw (valid, some_bytes, get_account_param, kf, from_param, kt, to_param) refl
