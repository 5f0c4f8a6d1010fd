-- ===== src/Workflows/CollectiveIdentifierPaging.antt =====
-- workflows/collective-identifier-paging.ts. The generator's `yield`s are a list. A server is a
-- function of the number of requests before, so that it may answer differently each time, and the
-- signal is a function of the same number.
pub mod Walking
pub mod Chains
mod Tests
use ksef_client_ts.Base.{
  ℕ, zero, suc, Bool, true, false, Option, none, some, List, [], ◌∷◌, ◌++◌, String, any, str_eq,
  if◌then◌else◌, or_default, ◌⊎◌, inl, inr,
}
use ksef_client_ts.Base.Number.{Number, thousandths, positive_integer?}

pub record CollectiveIdentifierPagingOptions : Type 0 where
  pub page_size : Option Number
  pub continuation_token : Option String
  pub max_pages : Option Number

abbrev pub default_identifiers_page_size : Number
default_identifiers_page_size = thousandths 200000

abbrev pub default_invoices_page_size : Number
default_invoices_page_size = thousandths 500000

abbrev pub default_max_pages : Number
default_max_pages = thousandths 1000000

-- A page that was fetched, and a page that is yielded: `none` for a token that is null or undefined.
pub record CollectiveIdentifierPage {ℓ} (A : Type ℓ) : Type ℓ where
  pub items : List A
  pub continuation_token : Option String

-- fetchPage: the requests before, the page size and the token; `none` is a throw.
abbrev pub FetchPage {ℓ} : Type ℓ → Type ℓ
FetchPage A = ℕ → ℕ → Option String → Option (CollectiveIdentifierPage A)

-- How the walk ends. `stalled` and `exceeded` are KSeFPaginationError with its token.
pub data End : Type 0 where
  done server_error aborted bad_page_size bad_max_pages : End
  stalled : String → End
  exceeded : Option String → End

-- value ? value : undefined
abbrev pub token_of : Option String → Option String
token_of none = none
token_of (some t) = if str_eq t "" then none else some t

abbrev pub seen_token : String → List String → Bool
seen_token t seen = any (str_eq t) seen

abbrev pub first_seen : Option String → List String
first_seen none = []
first_seen (some t) = t ∷ []

module _ {ℓ} {A : Type ℓ} where
  -- What the generator does after a page: yield it, then the rest of the walk for a new token.
  abbrev pub go_on :
      CollectiveIdentifierPage A
      → List (CollectiveIdentifierPage A) × End
      → List (CollectiveIdentifierPage A) × End
  go_on page (pages, end) = (page ∷ pages, end)

  -- `{ items: page.items, continuationToken: next }`
  abbrev pub yielded : CollectiveIdentifierPage A → Option String → CollectiveIdentifierPage A
  yielded page next = record { items = page.items; continuation_token = next }

  module _ (signal : ℕ → Bool) (fetch : FetchPage A) (page_size : ℕ) where
    -- The loop, by the pages that are left: `maxPages - pages`.
    unfoldable pub read_pages :
        ℕ → ℕ → Option String → List String → List (CollectiveIdentifierPage A) × End
    read_pages zero pages token seen = if signal pages then ([], aborted) else ([], exceeded token)
    read_pages (suc left) pages token seen = elim (signal pages) [
      | true ↦ ([], aborted)
      | false ↦ elim (fetch pages page_size token) [
        | none ↦ ([], server_error)
        | some page ↦ elim (token_of page.continuation_token) [
          | none ↦ (yielded page none ∷ [], done)
          | some t ↦ elim (seen_token t seen) [
            | true ↦ (yielded page (some t) ∷ [], stalled t)
            | false ↦
                go_on (yielded page (some t)) (read_pages left (suc pages) (some t) (t ∷ seen))
          ]
        ]
      ]
    ]

  unfoldable pub walk_pages :
      (ℕ → Bool)
      → FetchPage A
      → Number
      → CollectiveIdentifierPagingOptions
      → List (CollectiveIdentifierPage A) × End
  walk_pages signal fetch default_page_size options =
      elim (positive_integer? (or_default options.page_size default_page_size)) [
        | none ↦ ([], bad_page_size)
        | some page_size ↦
            elim (positive_integer? (or_default options.max_pages default_max_pages)) [
              | none ↦ ([], bad_max_pages)
              | some max_pages ↦
                  let token = token_of options.continuation_token in
                  read_pages signal fetch page_size max_pages 0 token (first_seen token)
            ]
      ]

  abbrev pub all_items : List (CollectiveIdentifierPage A) → List A
  all_items [] = []
  all_items (page ∷ pages) = page.items ++ all_items pages

  -- The array, or how the generator threw.
  abbrev pub collect_items : List (CollectiveIdentifierPage A) × End → End ⊎ List A
  collect_items (pages, done) = inr (all_items pages)
  collect_items (pages, end) = inl end

-- The responses of client.collectiveIdentifiers
pub record IdentifiersResponse {ℓ} (A : Type ℓ) : Type ℓ where
  pub collective_identifiers : List A
  pub continuation_token : Option String

pub record InvoicesResponse {ℓ} (A : Type ℓ) : Type ℓ where
  pub invoices : List A
  pub continuation_token : Option String

-- client.collectiveIdentifiers, by the number of requests before; the page size and the token come last.
pub record Client {ℓ κ} (Query InvoicesQuery : Type κ) (Identifier ByNumber Invoice : Type ℓ)
    : Type (ℓ ⊔ κ) where
  pub query : ℕ → Query → ℕ → Option String → Option (IdentifiersResponse Identifier)
  pub get_by_ksef_number : ℕ → String → ℕ → Option String → Option (IdentifiersResponse ByNumber)
  pub query_invoices : ℕ → InvoicesQuery → ℕ → Option String → Option (InvoicesResponse Invoice)

abbrev pub identifiers_page {ℓ} :
    {A : Type ℓ} → Option (IdentifiersResponse A) → Option (CollectiveIdentifierPage A)
identifiers_page none = none
identifiers_page (some r) =
    some (record { items = r.collective_identifiers; continuation_token = r.continuation_token })

abbrev pub invoices_page {ℓ} :
    {A : Type ℓ} → Option (InvoicesResponse A) → Option (CollectiveIdentifierPage A)
invoices_page none = none
invoices_page (some r) =
    some (record { items = r.invoices; continuation_token = r.continuation_token })

module _ {ℓ κ} {Query InvoicesQuery : Type κ} {Identifier ByNumber Invoice : Type ℓ}
    (client : Client Query InvoicesQuery Identifier ByNumber Invoice) (signal : ℕ → Bool) where
  abbrev pub query_collective_identifier_pages :
      Query → CollectiveIdentifierPagingOptions → List (CollectiveIdentifierPage Identifier) × End
  query_collective_identifier_pages request options =
      walk_pages signal
        (λ pages size token. identifiers_page (client.query pages request size token))
        default_identifiers_page_size options

  abbrev pub get_collective_identifier_pages_by_ksef_number :
      String → CollectiveIdentifierPagingOptions → List (CollectiveIdentifierPage ByNumber) × End
  get_collective_identifier_pages_by_ksef_number number options =
      walk_pages signal
        (λ pages size token. identifiers_page (client.get_by_ksef_number pages number size token))
        default_identifiers_page_size options

  abbrev pub query_collective_identifier_invoice_pages :
      InvoicesQuery
      → CollectiveIdentifierPagingOptions
      → List (CollectiveIdentifierPage Invoice) × End
  query_collective_identifier_invoice_pages request options =
      walk_pages signal
        (λ pages size token. invoices_page (client.query_invoices pages request size token))
        default_invoices_page_size options

  abbrev pub collect_all_collective_identifiers :
      Query → CollectiveIdentifierPagingOptions → End ⊎ List Identifier
  collect_all_collective_identifiers request options =
      collect_items (query_collective_identifier_pages request options)

  abbrev pub collect_all_collective_identifiers_by_ksef_number :
      String → CollectiveIdentifierPagingOptions → End ⊎ List ByNumber
  collect_all_collective_identifiers_by_ksef_number number options =
      collect_items (get_collective_identifier_pages_by_ksef_number number options)

  abbrev pub collect_all_collective_identifier_invoices :
      InvoicesQuery → CollectiveIdentifierPagingOptions → End ⊎ List Invoice
  collect_all_collective_identifier_invoices request options =
      collect_items (query_collective_identifier_invoice_pages request options)
