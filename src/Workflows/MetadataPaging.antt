-- ===== src/Workflows/MetadataPaging.antt =====
-- workflows/metadata-query-paging.ts. The generator's `yield`s are a list; the server is a function
-- of the number of requests before, so that it may answer differently each time. Texts of dates
-- are only compared for equality, as in the source.
pub mod Scanning
pub mod Windows
pub mod Delivery
pub mod Complete
pub mod Sorted
pub mod Finished
pub mod Query
pub mod SameValue
mod Tests
use ksef_client_ts.Base.{
  ℕ, zero, suc, ◌+◌, Bool, true, false, ◌&&◌, ◌||◌, not, Option, none, some, List, [], ◌∷◌, ◌++◌,
  String, map, any, str_eq, if◌then◌else◌, or_default,
}
use ksef_client_ts.Base.Number.{Number, thousandths, positive_integer?, natural?}
use ksef_client_ts.Base.Text.{codes, same_text, to_lower}

pub data DateType : Type 0 where
  issue invoicing permanent_storage : DateType

pub data SortOrder : Type 0 where
  asc desc : SortOrder

-- The parts of InvoiceMetadata that the iterator reads.
pub record InvoiceMetadata : Type 0 where
  pub ksef_number : String
  pub issue_date : String
  pub invoicing_date : String
  pub permanent_storage_date : String

-- filters.dateRange; the other filters are passed through.
pub record DateRange : Type 0 where
  pub date_type : DateType
  pub from : String
  pub to : Option String

pub record QueryAllMetadataOptions : Type 0 where
  pub sort_order : Option SortOrder
  pub page_size : Option Number
  pub max_boundary_crossings : Option Number

pub record PageResponse : Type 0 where
  pub invoices : List InvoiceMetadata
  pub has_more : Bool
  pub is_truncated : Bool

-- `client.invoices.queryInvoiceMetadata`: `none` is a throw.
pub record Request : Type 0 where
  pub range : DateRange
  pub page_index : ℕ
  pub page_size : ℕ
  pub sort_order : SortOrder

abbrev pub Server : Type 0
Server = ℕ → Request → Option PageResponse

-- How the iteration ends. `out_of_fuel` is a window with more pages than the fuel.
pub data End : Type 0 where
  done server_error out_of_fuel : End
  bad_page_size bad_max_boundary_crossings : End
  stalled exceeded : String → End

-- boundaryFieldFor, applied to an invoice
unfoldable pub boundary_of : DateType → InvoiceMetadata → String
boundary_of issue i = i.issue_date
boundary_of invoicing i = i.invoicing_date
boundary_of permanent_storage i = i.permanent_storage_date

abbrev pub Key : Type 0
Key = List ℕ

-- invoice.ksefNumber.toLowerCase()
abbrev pub key_of : InvoiceMetadata → Key
key_of i = map to_lower (codes i.ksef_number)

abbrev pub has_key : Key → List Key → Bool
has_key k ks = any (same_text k) ks

-- carryKeys and carryValue
pub record Carry : Type 0 where
  pub keys : List Key
  pub value : Option String

abbrev pub same_value : Option String → String → Bool
same_value none v = false
same_value (some w) v = str_eq w v

-- The invoices that are skipped: those carried over from the window before.
abbrev pub is_carried : Carry → DateType → InvoiceMetadata → Bool
is_carried c t i = same_value c.value (boundary_of t i) && has_key (key_of i) c.keys

-- lastBoundaryValue and boundaryKeys
pub record Boundary : Type 0 where
  pub last : Option String
  pub keys : List Key

abbrev pub no_boundary : Boundary
no_boundary = record { last = none; keys = [] }

abbrev pub advance : Boundary → String → Key → Boundary
advance b v k =
    if same_value b.last v
    then record b { keys = k ∷ b.keys }
    else record { last = some v; keys = k ∷ [] }

-- The loop over `response.invoices`: the boundary after it, and what it yields.
unfoldable pub scan :
    Carry → DateType → Boundary → List InvoiceMetadata → Boundary × List InvoiceMetadata
scan c t b [] = (b, [])
scan c t b (i ∷ is) =
    let skipped = is_carried c t i in
    let (b', yields) =
      scan c t (if skipped then b else advance b (boundary_of t i) (key_of i)) is in
    (b', if skipped then yields else i ∷ yields)

-- The end of one window: what it yielded, the boundary, the truncation flag and the requests made.
pub record WindowRead : Type 0 where
  pub yields : List InvoiceMetadata
  pub boundary : Boundary
  pub is_truncated : Bool
  pub requests : ℕ
  pub failed : Option End

-- The inner loop, on fuel for the pages of a window.
unfoldable pub read_window :
    Server → ℕ → SortOrder → Carry → DateRange → ℕ → ℕ → ℕ → Boundary → WindowRead
read_window server size order c range zero page sent b = record {
  yields = [];
  boundary = b;
  is_truncated = false;
  requests = sent;
  failed = some out_of_fuel;
}
read_window server size order c range (suc fuel) page sent b =
    elim (server sent
      (record { range = range; page_index = page; page_size = size; sort_order = order })) [
        | none ↦ record {
          yields = [];
          boundary = b;
          is_truncated = false;
          requests = sent + 1;
          failed = some server_error;
        }
        | some response ↦
            let (b', yields) = scan c range.date_type b response.invoices in
            let more = read_window server size order c range fuel (page + 1) (sent + 1) b' in
            if response.has_more then record more { yields = yields ++ more.yields } else record {
              yields = yields;
              boundary = b';
              is_truncated = response.is_truncated;
              requests = sent + 1;
              failed = none;
            }
      ]

-- previousBoundary
abbrev pub previous_boundary : SortOrder → DateRange → Option String
previous_boundary asc range = some range.from
previous_boundary desc range = range.to

-- The date range re-narrowed to a boundary value.
abbrev pub narrow : SortOrder → DateRange → String → DateRange
narrow asc range v = record range { from = v }
narrow desc range v = record range { to = some v }

pub record Collected : Type 0 where
  pub yields : List InvoiceMetadata
  pub windows : ℕ
  pub ended : End

abbrev pub ends : List InvoiceMetadata → End → Collected
ends yields e = record { yields = yields; windows = 1; ended = e }

abbrev pub goes_on : List InvoiceMetadata → Collected → Collected
goes_on yields rest = record rest { yields = yields ++ rest.yields; windows = rest.windows + 1 }

-- What follows a window that was read to its end. `rest` is the outer loop from the next window,
-- `none` where no boundary crossing is left.
unfoldable pub after_window :
    SortOrder → DateRange → WindowRead → (Carry → DateRange → Option Collected) → Collected
after_window order range w rest =
    if not w.is_truncated then ends w.yields done else elim w.boundary.last [
      | none ↦ ends w.yields done
      | some v ↦
          if same_value (previous_boundary order range) v
          then ends w.yields (stalled v)
          else elim (rest (record { keys = w.boundary.keys; value = some v })
              (narrow order range v)) [
                | none ↦ ends w.yields (exceeded v)
                | some more ↦ goes_on w.yields more
              ]
    ]

abbrev pub window_ended : Option End → WindowRead → Collected → Collected
window_ended none w next = next
window_ended (some e) w next = ends w.yields e

-- The outer loop, with the boundary crossings that are left.
unfoldable pub read_windows : Server → ℕ → SortOrder → ℕ → ℕ → ℕ → Carry → DateRange → Collected
read_windows server size order fuel zero sent c range =
    let w = read_window server size order c range fuel 0 sent no_boundary in
    window_ended w.failed w (after_window order range w (λ c' range'. none))
read_windows server size order fuel (suc crossings) sent c range =
    let w = read_window server size order c range fuel 0 sent no_boundary in
    window_ended w.failed w (
      after_window order range w
        (λ c' range'. some (read_windows server size order fuel crossings w.requests c' range')))

-- queryAllInvoiceMetadata(client, filters, options)
unfoldable pub query_all_invoice_metadata :
    Server → ℕ → DateRange → QueryAllMetadataOptions → Collected
query_all_invoice_metadata server fuel range options =
    elim (positive_integer? (or_default options.page_size (thousandths 100_000))) [
      | none ↦ record { yields = []; windows = 0; ended = bad_page_size }
      | some size ↦
          elim (natural? (or_default options.max_boundary_crossings (thousandths 1_000_000))) [
            | none ↦ record { yields = []; windows = 0; ended = bad_max_boundary_crossings }
            | some crossings ↦
                read_windows server size (or_default options.sort_order asc) fuel crossings 0
                  (record { keys = []; value = none }) range
          ]
    ]
