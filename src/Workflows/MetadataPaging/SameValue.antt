-- ===== src/Workflows/MetadataPaging/SameValue.antt =====
-- workflows/metadata-query-paging.ts: more invoices at one value than a window holds.
use mathlib.Core.List.{append-nil}
use ksef_client_ts.Base.{
  ℕ, zero, suc, ◌<◌, ◌≡◌, ◌≢◌, refl, sym, ap, ◌∙◌, true, Option, none, some, List, [], ◌∷◌, ◌++◌,
  String, arith, All, All-take, length, take, length-take, ltb, lt→ltb,
}
use ksef_client_ts.Workflows.MetadataPaging.{
  DateType, asc, InvoiceMetadata, DateRange, Server, done, key_of, has_key, Carry, Boundary,
  no_boundary, WindowRead, read_window, Collected, ends, after_window, window_ended, read_windows,
  narrow, QueryAllMetadataOptions, query_all_invoice_metadata,
}
use ksef_client_ts.Workflows.MetadataPaging.Scanning.{At, NotEndsAt, Describes, scan-carried}
use ksef_client_ts.Workflows.MetadataPaging.Windows.{Pages, Reads, read_window-Reads}
use ksef_client_ts.Workflows.MetadataPaging.Delivery.{Carried, scan-window}
use ksef_client_ts.Workflows.MetadataPaging.Delivery.{take_busy, All-left, All-after}
use ksef_client_ts.Workflows.MetadataPaging.Complete.{none_carried, All-Carried, Serves}
use ksef_client_ts.Workflows.MetadataPaging.Finished.{not_str_eq}
use ksef_client_ts.Base.Number.{thousandths, positive_integer?, natural?}
use ksef_client_ts.Base.{or_default}

front_empty :
    (t : DateType) (v : String) (front : List InvoiceMetadata)
    → All (At t v) front
    → NotEndsAt t v front
    → front ≡ []
front_empty t v [] at ends_apart = refl
front_empty t v (i ∷ []) (here, at) ends_apart = absurd (ends_apart here)
front_empty t v (i ∷ j ∷ is) (here, at) ends_apart =
    absurd (rest_empty (front_empty t v (j ∷ is) at ends_apart))
  where
    rest_empty : j ∷ is ≢ []
    rest_empty e = cc

one_value :
    (t : DateType) (v w : String) (block : List InvoiceMetadata)
    → block ≢ []
    → All (At t v) block
    → All (At t w) block
    → v ≡ w
one_value t v w [] busy h k = absurd (busy refl)
one_value t v w (i ∷ block) busy (h, _) (k, _) = sym h ∙ k

-- A window that is cut off and whose boundary is unset ends the iteration.
idle_window :
    (range : DateRange) (c : Carry) (t : DateType) (is : List InvoiceMetadata) (w : WindowRead)
    (rest : Carry → DateRange → Option Collected)
    → Carried c t is
    → Reads c t no_boundary is true w
    → window_ended w.failed w (after_window asc range w rest) ≡ ends [] done
unfolding after_window
idle_window range c t is w rest carried (yields, boundary, truncated, failed) =
    let nothing = scan-carried t c no_boundary is carried in
    let at = boundary ∙ ap (λ (p : Boundary × List InvoiceMetadata). p.0) nothing in
    let given = yields ∙ ap (λ (p : Boundary × List InvoiceMetadata). p.1) nothing in
    rw (failed, truncated, at, given) refl

module _ (server : Server) (size fuel cap : ℕ) (range : DateRange) (invoices : List InvoiceMetadata)
    (serves : Serves server size fuel cap range invoices) (v : String)
    (level : All (At range.date_type v) invoices) (later_value : v ≢ range.from) (room : 0 < cap)
    (more : cap < length invoices) where
  abbrev first : List InvoiceMetadata
  first = take cap invoices

  first_busy : first ≢ []
  first_busy = take_busy cap invoices room (omega arith)

  truncated : ltb cap (length invoices) ≡ true
  truncated = lt→ltb cap (length invoices) more

  whole-Pages : (sent : ℕ) → Pages server size range true fuel 0 sent first
  whole-Pages sent = rw (sym truncated) (serves.whole sent)

  later-Pages : (sent : ℕ) → Pages server size (narrow asc range v) true fuel 0 sent first
  later-Pages sent =
      let whole = append-nil invoices in
      let p = serves.from_value v [] invoices [] (sym whole) busy level tt sent in
      rw (sym truncated, sym whole) p
    where
      busy : invoices ≢ []
      busy e = let h : length invoices ≡ 0 = rw e refl in omega arith

  -- A window of which every invoice is carried over ends the iteration.
  no_progress_lem :
      (crossings sent : ℕ) (c : Carry)
      → Carried c range.date_type first
      → read_windows server size asc fuel crossings sent c (narrow asc range v) ≡ ends [] done
  unfolding read_windows
  no_progress_lem zero sent c carried =
      idle_window (narrow asc range v) c range.date_type first _ _ carried
        (read_window-Reads server size (narrow asc range v) true c no_boundary (later-Pages sent))
  no_progress_lem (suc n) sent c carried =
      idle_window (narrow asc range v) c range.date_type first _ _ carried
        (read_window-Reads server size (narrow asc range v) true c no_boundary (later-Pages sent))

  abbrev start : Carry
  start = record { keys = []; value = none }

  -- The boundary after the first window knows every invoice of it.
  boundary-Carried :
      (b : Boundary)
      → Describes range.date_type first b
      → (b.last ≡ some v) × Carried (record { keys = b.keys; value = some v }) range.date_type first
  boundary-Carried b d =
      let t = range.date_type in
      let level_first = All-take _ cap invoices level in
      let all : All (At t v) (d.front ++ d.block) = rw (sym d.split) level_first in
      let same : d.value ≡ v =
        one_value t d.value v d.block d.busy d.at (All-after _ d.front d.block all) in
      let maximal : NotEndsAt t v d.front = rw (sym same) d.maximal in
      let front = front_empty t v d.front (All-left _ d.front d.block all) maximal in
      let block : first ≡ d.block = d.split ∙ ap (λ xs. xs ++ d.block) front in
      let known : All (λ i. has_key (key_of i) b.keys ≡ true) first = rw block d.known in
      (d.last ∙ ap (λ x. some x) same, All-Carried t v b.keys first level_first known)

  abbrev Stops : Collected → Type 0
  Stops r = (r.ended ≡ done) × (r.yields ≡ first)

  first_window-Stops :
      (w : WindowRead) (rest : Carry → DateRange → Option Collected)
      → Reads start range.date_type no_boundary first true w
      → ((c : Carry)
          → Carried c range.date_type first
          → rest c (narrow asc range v) ≡ some (ends [] done))
      → Stops (window_ended w.failed w (after_window asc range w rest))
  unfolding after_window
  first_window-Stops w rest (yields, boundary, cut, failed) next =
      let (given, d) =
        scan-window start range.date_type first (none_carried range.date_type first) first_busy in
      let at : Describes range.date_type first w.boundary = rw boundary d in
      let (last, carried) = boundary-Carried w.boundary at in
      let other = not_str_eq range.from v later_value in
      let goes = next (record { keys = w.boundary.keys; value = some v }) carried in
      rw (failed, cut, last, other, goes) (refl, append-nil w.yields ∙ yields ∙ given)

  pub read_windows-Stops : (n : ℕ) → Stops (read_windows server size asc fuel (suc n) 0 start range)
  unfolding read_windows
  read_windows-Stops n =
      let w = read_window server size asc start range fuel 0 0 no_boundary in
      first_window-Stops w _
        (read_window-Reads server size range true start no_boundary (whole-Pages 0))
        (λ c carried. ap (λ r. some r) (no_progress_lem n w.requests c carried))

-- Where the server's invoices, more than a window holds, all have one value of the boundary field,
-- other than the beginning of the range: with a boundary crossing allowed, the iterator yields the
-- first window only and ends as if that were all, without an error.
pub query_all_invoice_metadata_stops_short :
    (server : Server) (size fuel cap : ℕ) (range : DateRange) (invoices : List InvoiceMetadata)
    (options : QueryAllMetadataOptions) (v : String) (crossings : ℕ)
    → Serves server size fuel cap range invoices
    → All (At range.date_type v) invoices
    → v ≢ range.from
    → 0 < cap
    → cap < length invoices
    → or_default options.sort_order asc ≡ asc
    → positive_integer? (or_default options.page_size (thousandths 100_000)) ≡ some size
    → natural? (or_default options.max_boundary_crossings (thousandths 1_000_000))
      ≡ some (suc crossings)
    → ((query_all_invoice_metadata server fuel range options).ended ≡ done)
      × ((query_all_invoice_metadata server fuel range options).yields ≡ take cap invoices)
      × (take cap invoices ≢ invoices)
unfolding query_all_invoice_metadata
query_all_invoice_metadata_stops_short server size fuel cap range invoices options v crossings
      serves level later_value room more ascending paged allowed =
    let stops =
      read_windows-Stops server size fuel cap range invoices serves v level later_value room more
        crossings in
    let shorter : take cap invoices ≢ invoices = λ e.
      let filled = length-take cap invoices (omega arith) in
      let same : length (take cap invoices) ≡ length invoices = rw e refl in omega arith in
    rw (query_all_invoice_metadata, paged, allowed, ascending) (stops.0, stops.1, shorter)
