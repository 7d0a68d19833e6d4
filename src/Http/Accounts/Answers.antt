-- ===== src/Http/Accounts/Answers.antt =====
-- How often the total of an account is answered, and with what.
use account_indexer.Common.{
  Bytes, [], ◌∷◌, ◌++◌, append_assoc, append-nil, length, ◌==◌, true, false, none, some, ◌≡◌, refl,
  ap,
}
use account_indexer.Common.Outcome.{ok}
use account_indexer.Geth.{Geth}
use account_indexer.DateTime.{Time, zero_time}
use account_indexer.Dao.{Range, KeyValueDao}
use account_indexer.Repo.Store.{IndexRepo}
use account_indexer.Repo.Query.{get_total_transaction}
use account_indexer.Http.{Request, Response, Written, json, Body.total}
use account_indexer.Http.Params.{AccountParam, bound_of}
use account_indexer.Http.Params.Reads.{
  bad, account_of, from_of, to_of, IsInvalid, Reads, Reads.refused, Reads.read, Reads.empty,
  get_account_param-Reads,
}
use account_indexer.Http.Accounts.{get_total_by_account, total_answer}

module _ (g : Geth) (ad bd : KeyValueDao) (bytes_prefix : Bytes → Range) (repo : IndexRepo g ad bd)
    (c : Request) where
  -- The answer with the total of the account between two bounds.
  abbrev pub total_of : Time → Time → Response
  total_of from_time to_time = record {
    status = 200;
    body = total (record {
      total = get_total_transaction g ad bd bytes_prefix (account_of g c) from_time to_time repo;
    });
  }

  -- The responses to a request.
  pub data Answers : Written → Type 0 where
    answer_bad : (msg : Bytes) → IsInvalid g c → Answers (bad msg ∷ [])
    answer_total :
        (from_time to_time : Time)
        → (g.decode (account_of g c)).1 ≡ none
        → (length (g.decode (account_of g c)).0 == 0) ≡ false
        → bound_of (from_of g c) ≡ some from_time
        → bound_of (to_of g c) ≡ some to_time
        → Answers (total_of from_time to_time ∷ [])
    answer_both :
        (msg : Bytes)
        → (g.decode (account_of g c)).1 ≡ none
        → (length (g.decode (account_of g c)).0 == 0) ≡ true
        → Answers (bad msg ∷ total_of zero_time zero_time ∷ [])

  Reads-Answers :
      (p : AccountParam) (added : Written) (written : Written)
      → Reads g c p added
      → (more : Written) × Answers more
        × (total_answer g ad bd bytes_prefix repo p (written ++ added) ≡ (ok tt, written ++ more))
  unfolding total_answer json
  Reads-Answers p added written (refused _ e msg invalid k) =
      (bad msg ∷ [], answer_bad msg invalid, rw (k, total_answer) refl)
  Reads-Answers p added written (read f t valid bytes kf kt) = (
    total_of f t ∷ [],
    answer_total f t valid bytes kf kt,
    ap (λ w. (ok tt, w ++ (total_of f t ∷ []))) (append-nil written),
  )
  Reads-Answers p added written (empty msg valid bytes) = (
    _,
    answer_both msg valid bytes,
    ap (λ w. (ok tt, w)) (append_assoc written (bad msg ∷ []) (total_of zero_time zero_time ∷ [])),
  )

  -- The responses of getTotalByAccount to a request are one of three: a refusal alone, with status 400,
  -- and then the account is no hex text or a bound is no time; the total alone, with status 200, and
  -- then the account has bytes and the bounds are times or missing; or, where the account is hex of no
  -- bytes, a refusal and after it the total without bounds. It always returns.
  pub get_total_by_account-Answers :
      (written : Written)
      → (more : Written) × Answers more
        × (get_total_by_account g ad bd bytes_prefix c repo written ≡ (ok tt, written ++ more))
  unfolding get_total_by_account
  get_total_by_account-Answers written =
      let (p, added, reads, e) = get_account_param-Reads g c written in
      let (more, answers, k) = Reads-Answers p added written reads in
      (more, answers, rw (e, get_total_by_account) k)
