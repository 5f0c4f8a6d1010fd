-- ===== src/Workflows/MetadataPaging/Query.antt =====
-- workflows/metadata-query-paging.ts: queryAllInvoiceMetadata as a whole.
use mathlib.Core.List.{append-nil}
use ksef_client_ts.Base.{
  ℕ, zero, suc, ◌+◌, ◌≤◌, ◌<◌, ◌≡◌, refl, sym, ap, ◌∙◌, Option, some, List, ◌++◌, String, arith,
  Bool-cases, Option-cases, inl, inr, length,
}
use ksef_client_ts.Workflows.MetadataPaging.{
  SortOrder, asc, InvoiceMetadata, DateRange, Server, done, Carry, same_value, no_boundary,
  WindowRead, read_window, Collected, after_window, window_ended, read_windows, narrow,
  previous_boundary, QueryAllMetadataOptions, query_all_invoice_metadata,
}
use ksef_client_ts.Workflows.MetadataPaging.Delivery.{Distinct}
use ksef_client_ts.Workflows.MetadataPaging.Complete.{
  Delivers, read_windows-Delivers, Serves, ShortBlocks, start-Ready,
}
use ksef_client_ts.Workflows.MetadataPaging.Sorted.{AllFrom, Sorted}
use ksef_client_ts.Workflows.MetadataPaging.Finished.{read_windows-done}
use ksef_client_ts.Base.Number.{thousandths, positive_integer?, natural?}
use ksef_client_ts.Base.{or_default}

-- The window that the iterator begins with, of any listing of the server.
module _ (server : Server) (size fuel cap : ℕ) (range : DateRange) (invoices : List InvoiceMetadata)
    (options : QueryAllMetadataOptions) (serves : Serves server size fuel cap range invoices)
    (distinct : Distinct invoices) (blocks : ShortBlocks server size fuel cap range invoices)
    (room : 0 < cap) (ascending : or_default options.sort_order asc ≡ asc)
    (paged : positive_integer? (or_default options.page_size (thousandths 100_000))
      ≡ some size) where
  -- A server that sorts its invoices by the boundary field and cuts a window off at a cap, whose
  -- numbers are distinct and whose invoices at one value never fill a window: what the iterator
  -- yields is a first part of the invoices, in their order and each once, and all of them when it
  -- ends without an error.
  pub query_all_invoice_metadata-Delivers :
      Delivers invoices (query_all_invoice_metadata server fuel range options)
  unfolding query_all_invoice_metadata
  query_all_invoice_metadata-Delivers =
      elim (Option-cases
        (natural? (or_default options.max_boundary_crossings (thousandths 1_000_000)))) [
          | inl bad ↦
              rw (query_all_invoice_metadata, paged, bad)
                (record { rest = invoices; in_order = refl; complete = λ e. cc })
          | inr (crossings, good) ↦
              rw (query_all_invoice_metadata, paged, good, ascending)
                (read_windows-Delivers server size fuel cap range invoices serves distinct blocks
                  crossings 0 _ range.from invoices
                  (start-Ready server size fuel cap range invoices serves distinct blocks room))
        ]

  -- The same server, its invoices sorted by an order on the values and none before the range, and at
  -- least as many boundary crossings allowed as there are invoices: the iterator yields every
  -- invoice, once and in order, and ends without an error.
  pub query_all_invoice_metadata_complete :
      (le : String → String → Type 0)
      → ((v w : String) → le v w → le w v → v ≡ w)
      → AllFrom le range.date_type range.from invoices
      → Sorted le range.date_type invoices
      → (crossings : ℕ)
      → natural? (or_default options.max_boundary_crossings (thousandths 1_000_000))
        ≡ some crossings
      → length invoices ≤ crossings
      → ((query_all_invoice_metadata server fuel range options).ended ≡ done)
        × ((query_all_invoice_metadata server fuel range options).yields ≡ invoices)
  unfolding query_all_invoice_metadata
  query_all_invoice_metadata_complete le antisymm above sorted crossings allowed enough =
      let ready = start-Ready server size fuel cap range invoices serves distinct blocks room in
      let finished : (query_all_invoice_metadata server fuel range options).ended ≡ done =
        rw (query_all_invoice_metadata, paged, allowed, ascending)
          (read_windows-done server size fuel cap range invoices serves distinct blocks le antisymm
            crossings 0 _ range.from invoices ready (above, sorted) enough) in
      let d = query_all_invoice_metadata-Delivers in
      (
        finished,
        sym (append-nil _)
            ∙ ap (λ xs. (query_all_invoice_metadata server fuel range options).yields ++ xs)
                (sym (d.complete finished))
            ∙ d.in_order,
      )

module _ (server : Server) (size : ℕ) (order : SortOrder) (fuel : ℕ) where
  after_window_windows :
      (range : DateRange) (w : WindowRead) (rest : Carry → DateRange → Option Collected) (n : ℕ)
      → ((c : Carry) (range' : DateRange) (more : Collected)
          → rest c range' ≡ some more
          → more.windows ≤ n)
      → (window_ended w.failed w (after_window order range w rest)).windows ≤ n + 1
  unfolding after_window
  after_window_windows range w rest n h = elim (Option-cases w.failed) [
    | inr (e, failed) ↦ rw failed (omega arith)
    | inl ok ↦ elim (Bool-cases w.is_truncated) [
      | inr whole ↦ rw (ok, whole) (omega arith)
      | inl cut ↦ elim (Option-cases w.boundary.last) [
        | inl empty ↦ rw (ok, cut, empty) (omega arith)
        | inr (v, last) ↦ elim (Bool-cases (same_value (previous_boundary order range) v)) [
          | inl same ↦ rw (ok, cut, last, same) (omega arith)
          | inr other ↦
              let c' : Carry = record { keys = w.boundary.keys; value = some v } in
              elim (Option-cases (rest c' (narrow order range v))) [
                | inl none_left ↦ rw (ok, cut, last, other, none_left) (omega arith)
                | inr (more, goes) ↦
                    let k = h c' (narrow order range v) more goes in
                    rw (ok, cut, last, other, goes) (omega arith)
              ]
        ]
      ]
    ]
  ]

  read_windows_windows :
      (crossings sent : ℕ) (c : Carry) (range : DateRange)
      → (read_windows server size order fuel crossings sent c range).windows ≤ crossings + 1
  unfolding read_windows
  read_windows_windows zero sent c range =
      after_window_windows range (read_window server size order c range fuel 0 sent no_boundary) _ 0
        (λ c' range' more e. cc)
  read_windows_windows (suc crossings) sent c range =
      let w = read_window server size order c range fuel 0 sent no_boundary in
      after_window_windows range w _ (suc crossings) (λ c' range' more e.
        let same : more ≡ read_windows server size order fuel crossings w.requests c' range' = cc in
        let k = read_windows_windows crossings w.requests c' range' in rw same (omega arith))

-- Whatever the server answers, the iterator reads at most one window more than the boundary crossings
-- that are allowed.
pub query_all_invoice_metadata_windows :
    (server : Server) (fuel : ℕ) (range : DateRange) (options : QueryAllMetadataOptions)
    (crossings : ℕ)
    → natural? (or_default options.max_boundary_crossings (thousandths 1_000_000)) ≡ some crossings
    → (query_all_invoice_metadata server fuel range options).windows ≤ crossings + 1
unfolding query_all_invoice_metadata
query_all_invoice_metadata_windows server fuel range options crossings allowed =
    elim (Option-cases (positive_integer? (or_default options.page_size (thousandths 100_000)))) [
      | inl bad ↦ rw (query_all_invoice_metadata, bad) (omega arith)
      | inr (size, good) ↦
          rw (query_all_invoice_metadata, good, allowed)
            (read_windows_windows server size (or_default options.sort_order asc) fuel crossings 0 _
              range)
    ]
