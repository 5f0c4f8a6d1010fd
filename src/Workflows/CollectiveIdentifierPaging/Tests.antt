-- ===== src/Workflows/CollectiveIdentifierPaging/Tests.antt =====
-- Examples of workflows/collective-identifier-paging.ts: three pages of numbers.
use ksef_client_ts.Base.{
  ℕ, ◌+◌, ◌≤◌, ◌≡◌, refl, arith, Option, none, some, List, [], ◌∷◌, String, str_eq, if◌then◌else◌,
  inr,
}
use ksef_client_ts.Base.Number.{Number, thousandths, positive_integer?}
use ksef_client_ts.Workflows.CollectiveIdentifierPaging.{
  CollectiveIdentifierPage, CollectiveIdentifierPagingOptions, done, exceeded, stalled, walk_pages,
  default_identifiers_page_size, Client, IdentifiersResponse, collect_all_collective_identifiers,
  read_pages,
}
use ksef_client_ts.Workflows.CollectiveIdentifierPaging.Chains.{
  never, walk_pages_whole, walk_pages_resumes,
}
use ksef_client_ts.Workflows.CollectiveIdentifierPaging.Walking.{IsWalk, walk_pages-IsWalk}

abbrev page : ℕ → Option String → CollectiveIdentifierPage ℕ
page n token = record { items = n ∷ []; continuation_token = token }

abbrev answer : ℕ → Option String → Option (CollectiveIdentifierPage ℕ)
answer size none = some (page 1 (some "a"))
answer size (some t) =
    if str_eq t "a"
    then some (page 2 (some "b"))
    else if str_eq t "b"
    then some (page 3 (some ""))
    else none

abbrev up_to : Number → CollectiveIdentifierPagingOptions
up_to n = record { page_size = none; continuation_token = some ""; max_pages = some n }

abbrev pages : List (CollectiveIdentifierPage ℕ)
pages = page 1 (some "a") ∷ page 2 (some "b") ∷ page 3 (some "") ∷ []

walk_pages_whole_example :
    walk_pages never (λ n. answer) default_identifiers_page_size (up_to (thousandths 3000))
    ≡ (page 1 (some "a") ∷ page 2 (some "b") ∷ page 3 none ∷ [], done)
walk_pages_whole_example =
    walk_pages_whole answer default_identifiers_page_size (up_to (thousandths 3000)) 200 3 pages
      refl refl (refl, "a", refl, refl, (refl, "b", refl, refl, (refl, refl))) (omega arith)

walk_pages_resumes_example :
    (s : String) × (walk_pages never
        (λ n. answer)
        default_identifiers_page_size
        (up_to (thousandths 2000))
      ≡ (page 1 (some "a") ∷ page 2 (some "b") ∷ [], exceeded (some s)))
    × ((more : Number) (enough : ℕ)
        → positive_integer? more ≡ some enough
        → 3 ≤ 2 + enough
        → walk_pages never
            (λ n. answer)
            default_identifiers_page_size
            (record { page_size = none; continuation_token = some s; max_pages = some more })
          ≡ (page 3 none ∷ [], done))
walk_pages_resumes_example =
    walk_pages_resumes answer default_identifiers_page_size (up_to (thousandths 2000)) 200 2 pages
      refl refl (refl, "a", refl, refl, (refl, "b", refl, refl, (refl, refl))) (omega arith)

-- A server that hands out the same token again and again.
abbrev stuck : ℕ → ℕ → Option String → Option (CollectiveIdentifierPage ℕ)
stuck sent size token = some (page sent (some "a"))

stuck_stalls :
    walk_pages never stuck default_identifiers_page_size (up_to (thousandths 2000))
    ≡ (page 0 (some "a") ∷ page 1 (some "a") ∷ [], stalled "a")
unfolding walk_pages read_pages
stuck_stalls = refl

walk_pages-IsWalk_example :
    IsWalk 2 none []
      (walk_pages never stuck default_identifiers_page_size (up_to (thousandths 2000)))
walk_pages-IsWalk_example =
    walk_pages-IsWalk never stuck default_identifiers_page_size (up_to (thousandths 2000)) 200 2
      refl refl

-- The three methods of a client whose pages are the same for each.
abbrev identifiers : Option (CollectiveIdentifierPage ℕ) → Option (IdentifiersResponse ℕ)
identifiers none = none
identifiers (some p) =
    some (record { collective_identifiers = p.items; continuation_token = p.continuation_token })

abbrev client : Client {0, 0} Unit Unit ℕ ℕ ℕ
client = record {
  query = λ sent request size token. identifiers (answer size token);
  get_by_ksef_number = λ sent number size token. identifiers (answer size token);
  query_invoices = λ sent request size token. none;
}

collect_all :
    collect_all_collective_identifiers client never tt (up_to (thousandths 5000))
    ≡ inr (1 ∷ 2 ∷ 3 ∷ [])
unfolding walk_pages read_pages
collect_all = refl
