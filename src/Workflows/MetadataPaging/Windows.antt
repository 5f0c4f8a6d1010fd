-- ===== src/Workflows/MetadataPaging/Windows.antt =====
-- workflows/metadata-query-paging.ts: what the iterator promises of a server that sorts by the
-- boundary field and cuts every window off at a cap.
use ksef_client_ts.Base.{ℕ, suc, ◌+◌, ◌≡◌, refl, Bool, true, false, none, some, List, ◌++◌}
use ksef_client_ts.Workflows.MetadataPaging.{
  DateType, asc, InvoiceMetadata, DateRange, Server, Carry, Boundary, scan, WindowRead, read_window,
}
use ksef_client_ts.Workflows.MetadataPaging.Scanning.{scan-append}

-- The pages of one window, from a page on: the invoices that they hold together.
pub data Pages (server : Server) (size : ℕ) (range : DateRange) (truncated : Bool)
    : ℕ → ℕ → ℕ → List InvoiceMetadata → Type 0 where
  last_page :
      {fuel page sent : ℕ} {xs : List InvoiceMetadata}
      → server sent
          (record { range = range; page_index = page; page_size = size; sort_order = asc })
        ≡ some (record { invoices = xs; has_more = false; is_truncated = truncated })
      → Pages server size range truncated (suc fuel) page sent xs
  next_page :
      {fuel page sent : ℕ} {xs ys zs : List InvoiceMetadata} (flag : Bool)
      → server sent
          (record { range = range; page_index = page; page_size = size; sort_order = asc })
        ≡ some (record { invoices = xs; has_more = true; is_truncated = flag })
      → Pages server size range truncated fuel (page + 1) (sent + 1) ys
      → zs ≡ xs ++ ys
      → Pages server size range truncated (suc fuel) page sent zs

-- What reading a window gives, for the invoices that its pages hold.
abbrev pub Reads : Carry → DateType → Boundary → List InvoiceMetadata → Bool → WindowRead → Type 0
Reads c t b xs truncated w =
    (w.yields ≡ (scan c t b xs).1)
    × (w.boundary ≡ (scan c t b xs).0)
    × (w.is_truncated ≡ truncated)
    × (w.failed ≡ none)

pub read_window-Reads :
    (server : Server) (size : ℕ) (range : DateRange) (truncated : Bool) (c : Carry)
    {fuel page sent : ℕ} {xs : List InvoiceMetadata} (b : Boundary)
    → Pages server size range truncated fuel page sent xs
    → Reads c range.date_type b xs truncated (read_window server size asc c range fuel page sent b)
unfolding read_window
read_window-Reads server size range truncated c b (last_page answered) =
    rw (answered, read_window) (refl, refl, refl, refl)
read_window-Reads server size range truncated c b (next_page {xs} {ys} flag answered rest same) =
    let next =
      read_window-Reads server size range truncated c (scan c range.date_type b xs).0 rest in
    rw (answered, read_window, same, scan-append range.date_type c b xs ys)
      (rw next.0 refl, next.1, next.2, next.3)
