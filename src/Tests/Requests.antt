-- ===== src/Tests/Requests.antt =====
-- Requests for the account of alice, and for one that is hex of no bytes.
use account_indexer.Common.{
  ◌+◌, Bytes, [], ◌∷◌, ◌++◌, map, length, bytes_eq, none, some, codes, replicate, if◌then◌else◌,
  ◌≡◌, refl, arith, ap,
}
use account_indexer.Common.Int.{pos}
use account_indexer.Common.Outcome.{ok}
use account_indexer.Go.BigInt.{set_string}
use account_indexer.Go.Strings.{split}
use account_indexer.DateTime.{parse_int}
use account_indexer.DateTime.Text.{str_to_time}
use account_indexer.Dao.Leveldb.Refines.{leveldb_dao-IsKeyValueDao, view}
use account_indexer.Repo.Query.Within.{bound}
use account_indexer.Repo.Query.Read.{hits}
use account_indexer.Common.Perms.{Pairwise}
use account_indexer.Repo.Query.Chronology.{ordered, page_of, InTime}
use account_indexer.Http.{Request, Written, Body.transactions}
use account_indexer.Http.Params.{bound_of, get_paging_query_params}
use account_indexer.Http.Extra.{contains, needs_of}
use account_indexer.Http.Accounts.{total_text, get_transactions_by_account, get_total_by_account}
use account_indexer.Http.Accounts.Search.{shown, nothing_needed, get_transactions_by_account_exact}
use account_indexer.Http.Accounts.Answers.{Answers, get_total_by_account-Answers}
use account_indexer.Tests.Hex.{hex, hex-IsHex}
use account_indexer.Tests.Stores as Stores
use account_indexer.Tests.Stores.{disk, disk-IsLeveldb}
use account_indexer.Tests.Blocks.{alice, time, seen, alice-IsAddress, soon-InRange}
use account_indexer.Tests.Queries.{entries, entries-IsStored, stored, laws}

-- A request with an upper bound on the time.
abbrev request : Bytes → Request
request account = record {
  param = λ name. account;
  query = λ name. if bytes_eq name (codes "to") then codes "1546522345" else [];
}

get_total_by_account-Answers_example :
    (more : Written) × Answers hex Stores.store Stores.store seen.prefix_range stored
      (request (codes "0x"))
      more
    × (get_total_by_account hex Stores.store Stores.store seen.prefix_range
          (request (codes "0x"))
          stored
          []
        ≡ (ok tt, [] ++ more))
get_total_by_account-Answers_example =
    get_total_by_account-Answers hex Stores.store Stores.store seen.prefix_range stored
      (request (codes "0x")) []

upper : bound_of (codes "1546522345") ≡ some (bound (some (time + 5)))
unfolding bound_of str_to_time parse_int set_string
upper = refl

nothing : needs_of [] ≡ nothing_needed
unfolding needs_of split contains bytes_eq
nothing = refl

alice_decodes : (hex.decode alice).1 ≡ none
alice_decodes = ap (λ r. r.1) (hex-IsHex.decode-encode (replicate 20 17) (omega arith))

get_transactions_by_account_exact_example :
    let c = request alice in
    let (rows, start) = get_paging_query_params c in
    let found = hits hex alice none (some (time + 5)) entries in
    let listed = page_of rows start (ordered none (some (time + 5)) found) in
    (get_transactions_by_account hex
        (λ t. pos 0)
        none
        Stores.store
        Stores.store
        seen.prefix_range
        c
        stored
        []
      ≡ (
        ok tt,
        []
            ++ (record {
              status = 200;
              body = transactions (record {
                total = total_text (length found);
                start = start;
                indexes = map (shown hex (λ t. pos 0) none) listed;
              });
            }
                ∷ []),
      ))
    × Pairwise (InTime hex none (some (time + 5))) listed
unfolding view bound_of bytes_eq disk-IsLeveldb
get_transactions_by_account_exact_example =
    get_transactions_by_account_exact hex hex-IsHex Stores.store Stores.store seen
      (leveldb_dao-IsKeyValueDao disk disk-IsLeveldb) laws (omega arith) (λ t. pos 0) none
      (request alice) none (some (time + 5)) stored entries [] alice-IsAddress alice_decodes refl
      upper nothing (soon-InRange 6 (omega arith)) refl entries-IsStored
