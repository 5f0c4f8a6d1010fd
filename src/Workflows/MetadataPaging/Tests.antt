-- ===== src/Workflows/MetadataPaging/Tests.antt =====
-- Examples of workflows/metadata-query-paging.ts: a server with three invoices and windows of two.
use ksef_client_ts.Base.{
  ℕ, ◌≤◌, ◌<◌, ◌≡◌, ◌≢◌, refl, sym, ap, ◌∙◌, true, false, none, some, List, [], ◌∷◌, ◌++◌, ◌⊎◌,
  String, arith, str_eq, eq_iff, if◌then◌else◌, All, inl, inr, length, take, drop, ltb,
}
use ksef_client_ts.Workflows.MetadataPaging.{
  asc, InvoiceMetadata, DateRange, PageResponse, Server, done, boundary_of, scan, read_window,
  after_window, read_windows, narrow, QueryAllMetadataOptions, query_all_invoice_metadata,
}
use ksef_client_ts.Workflows.MetadataPaging.Scanning.{At, NotEndsAt}
use ksef_client_ts.Workflows.MetadataPaging.Windows.{Pages}
use ksef_client_ts.Workflows.MetadataPaging.Delivery.{Distinct}
use ksef_client_ts.Workflows.MetadataPaging.Complete.{Delivers, Serves, ShortBlocks}
use ksef_client_ts.Workflows.MetadataPaging.Sorted.{AllFrom, Sorted}
use ksef_client_ts.Workflows.MetadataPaging.Windows.{last_page}
use ksef_client_ts.Workflows.MetadataPaging.Query.{
  query_all_invoice_metadata-Delivers, query_all_invoice_metadata_complete,
  query_all_invoice_metadata_windows,
}
use ksef_client_ts.Workflows.MetadataPaging.SameValue.{query_all_invoice_metadata_stops_short}
use ksef_client_ts.Workflows.MetadataPaging.{permanent_storage}
use ksef_client_ts.Base.Number.{thousandths}

abbrev invoice : String → String → InvoiceMetadata
invoice number date = record {
  ksef_number = number;
  issue_date = "2026-01-15";
  invoicing_date = "2026-01-15";
  permanent_storage_date = date;
}

abbrev january : DateRange
january = record { date_type = permanent_storage; from = "2026-01-01"; to = none }

abbrev three_days : List InvoiceMetadata
three_days =
    invoice "A-1" "2026-01-02" ∷ invoice "B-2" "2026-01-03" ∷ invoice "C-3" "2026-01-04" ∷ []

abbrev one_day : List InvoiceMetadata
one_day = invoice "A-1" "2026-01-02" ∷ invoice "B-2" "2026-01-02" ∷ invoice "C-3" "2026-01-02" ∷ []

abbrev options : QueryAllMetadataOptions
options = record {
  sort_order = none;
  page_size = some (thousandths 10_000);
  max_boundary_crossings = some (thousandths 5_000);
}

abbrev drop_until : String → List InvoiceMetadata → List InvoiceMetadata
drop_until v [] = []
drop_until v (i ∷ is) =
    if str_eq (boundary_of permanent_storage i) v then i ∷ is else drop_until v is

abbrev capped : List InvoiceMetadata → PageResponse
capped is = record { invoices = take 2 is; has_more = false; is_truncated = ltb 2 (length is) }

-- A server with the invoices, with windows of two.
abbrev listing : List InvoiceMetadata → Server
listing all sent r =
    if str_eq r.range.from "2026-01-01"
    then some (capped all)
    else some (capped (drop_until r.range.from all))

three_days_run :
    (query_all_invoice_metadata (listing three_days) 1 january options).yields ≡ three_days
unfolding query_all_invoice_metadata read_windows read_window scan after_window boundary_of
three_days_run = refl

one_day_run :
    (query_all_invoice_metadata (listing one_day) 1 january options).yields ≡ take 2 one_day
unfolding query_all_invoice_metadata read_windows read_window scan after_window boundary_of
one_day_run = refl

split-drop :
    (xs before ys : List InvoiceMetadata) → xs ≡ before ++ ys → drop (length before) xs ≡ ys
split-drop xs [] ys e = e
split-drop xs (b ∷ before) ys e = rw e (split-drop (before ++ ys) before ys refl)

abbrev date_at : List InvoiceMetadata → String
date_at [] = ""
date_at (i ∷ is) = i.permanent_storage_date

date_at-At :
    (v : String) (xs block after : List InvoiceMetadata)
    → xs ≡ block ++ after
    → block ≢ []
    → All (At permanent_storage v) block
    → date_at xs ≡ v
unfolding boundary_of
date_at-At v xs [] after e busy at = absurd (busy refl)
date_at-At v xs (i ∷ block) after e busy (here, at) = rw e here

nothing_left : (block after : List InvoiceMetadata) → [] ≡ block ++ after → block ≡ []
nothing_left [] after e = refl
nothing_left (i ∷ block) after e = cc

listing-Pages :
    (all ys : List InvoiceMetadata) (v : String)
    → str_eq v "2026-01-01" ≡ false
    → drop_until v all ≡ ys
    → (sent : ℕ)
    → Pages (listing all) 10 (narrow asc january v) (ltb 2 (length ys)) 1 0 sent (take 2 ys)
listing-Pages all ys v other e sent = last_page (rw (other, e) refl)

three_days-Serves : Serves (listing three_days) 10 1 2 january three_days
unfolding boundary_of
three_days-Serves = record {
  whole = λ sent. last_page refl;
  from_value = λ v before block after e busy at apart sent.
      three v before block after (split-drop three_days before (block ++ after) e) busy at sent;
}
  where
    three :
        (v : String) (before block after : List InvoiceMetadata)
        → drop (length before) three_days ≡ block ++ after
        → block ≢ []
        → All (At permanent_storage v) block
        → (sent : ℕ)
        → Pages
            (listing three_days)
            10
            (narrow asc january v)
            (ltb 2 (length (block ++ after)))
            1
            0
            sent
            (take 2 (block ++ after))
    three v [] block after e busy at sent =
        let d = date_at-At v _ block after e busy at in
        listing-Pages three_days (block ++ after) v (rw (sym d) refl) (rw (sym d) e) sent
    three v (x ∷ []) block after e busy at sent =
        let d = date_at-At v _ block after e busy at in
        listing-Pages three_days (block ++ after) v (rw (sym d) refl) (rw (sym d) e) sent
    three v (x ∷ y ∷ []) block after e busy at sent =
        let d = date_at-At v _ block after e busy at in
        listing-Pages three_days (block ++ after) v (rw (sym d) refl) (rw (sym d) e) sent
    three v (x ∷ y ∷ z ∷ []) block after e busy at sent = absurd (busy (nothing_left block after e))
    three v (x ∷ y ∷ z ∷ w ∷ before) block after e busy at sent =
        absurd (busy (nothing_left block after e))

three_days-Distinct : Distinct three_days
three_days-Distinct = ((refl, (refl, tt)), ((refl, tt), (tt, tt)))

abbrev rank : String → ℕ
rank v =
    if str_eq v "2026-01-01"
    then 1
    else if str_eq v "2026-01-02"
    then 2
    else if str_eq v "2026-01-03"
    then 3
    else 4

abbrev Before : String → String → Type 0
Before v w = (v ≡ w) ⊎ (rank v < rank w)

Before-antisymm : (v w : String) → Before v w → Before w v → v ≡ w
Before-antisymm v w (inl e) _ = e
Before-antisymm v w (inr h) (inl e) = sym e
Before-antisymm v w (inr h) (inr k) = absurd (omega arith)

nothing_before : (before ys : List InvoiceMetadata) → [] ≡ before ++ ys → [] ≡ ys
nothing_before [] ys e = e
nothing_before (x ∷ before) ys e = cc

not_equal : (s t : String) → str_eq s t ≡ false → s ≢ t
not_equal s t h e = let k : str_eq s t ≡ true = (eq_iff s t).1 e in cc

same_dates :
    (v : String) (xs : List InvoiceMetadata) (i j : InvoiceMetadata)
    (block after : List InvoiceMetadata)
    → xs ≡ (i ∷ j ∷ block) ++ after
    → All (At permanent_storage v) (i ∷ j ∷ block)
    → date_at xs ≡ date_at (drop 1 xs)
unfolding boundary_of
same_dates v xs i j block after e (here, (next, at)) = rw e (here ∙ sym next)

three_days-ShortBlocks : ShortBlocks (listing three_days) 10 1 2 january three_days
three_days-ShortBlocks v before [] after e at = omega arith
three_days-ShortBlocks v before (i ∷ []) after e at = omega arith
three_days-ShortBlocks v [] (i ∷ j ∷ block) after e at =
    let d = same_dates v _ i j block after (split-drop three_days [] _ e) at in
    absurd (not_equal "2026-01-02" "2026-01-03" refl d)
three_days-ShortBlocks v (x ∷ []) (i ∷ j ∷ block) after e at =
    let d = same_dates v _ i j block after (split-drop three_days (x ∷ []) _ e) at in
    absurd (not_equal "2026-01-03" "2026-01-04" refl d)
three_days-ShortBlocks v (x ∷ y ∷ []) (i ∷ j ∷ block) after e at =
    let d = same_dates v _ i j block after (split-drop three_days (x ∷ y ∷ []) _ e) at in
    absurd (not_equal "2026-01-04" "" refl d)
three_days-ShortBlocks v (x ∷ y ∷ z ∷ before) (i ∷ j ∷ block) after e at =
    let n = split-drop three_days (x ∷ y ∷ z ∷ []) _ e in
    absurd (not_nothing (nothing_left (i ∷ j ∷ block) after (nothing_before before _ n)))
  where
    not_nothing : i ∷ j ∷ block ≢ []
    not_nothing h = cc

one_day-At : All (At permanent_storage "2026-01-02") one_day
unfolding boundary_of
one_day-At = (refl, (refl, (refl, tt)))

three_days-above : AllFrom Before permanent_storage "2026-01-01" three_days
unfolding boundary_of
three_days-above = (inr (omega arith), (inr (omega arith), (inr (omega arith), tt)))

three_days-Sorted : Sorted Before permanent_storage three_days
unfolding boundary_of
three_days-Sorted =
    ((inr (omega arith), (inr (omega arith), tt)), ((inr (omega arith), tt), (tt, tt)))

one_day-Serves : Serves (listing one_day) 10 1 2 january one_day
unfolding boundary_of
one_day-Serves = record {
  whole = λ sent. last_page refl;
  from_value =
      λ v before block after e busy at apart sent. from v before block after e busy at apart sent;
}
  where
    from :
        (v : String) (before block after : List InvoiceMetadata)
        → one_day ≡ before ++ (block ++ after)
        → block ≢ []
        → All (At permanent_storage v) block
        → NotEndsAt permanent_storage v before
        → (sent : ℕ)
        → Pages
            (listing one_day)
            10
            (narrow asc january v)
            (ltb 2 (length (block ++ after)))
            1
            0
            sent
            (take 2 (block ++ after))
    from v [] block after e busy at apart sent =
        let d = date_at-At v _ block after e busy at in
        listing-Pages one_day (block ++ after) v (rw (sym d) refl) (rw (sym d) e) sent
    from v (x ∷ []) block after e busy at apart sent =
        let d = date_at-At v _ block after (split-drop one_day (x ∷ []) _ e) busy at in
        absurd (apart (ap date_at (sym e) ∙ d))
    from v (x ∷ y ∷ []) block after e busy at apart sent =
        let d = date_at-At v _ block after (split-drop one_day (x ∷ y ∷ []) _ e) busy at in
        absurd (apart (ap (λ xs. date_at (drop 1 xs)) (sym e) ∙ d))
    from v (x ∷ y ∷ z ∷ before) block after e busy at apart sent =
        let n = split-drop one_day (x ∷ y ∷ z ∷ []) _ e in
        absurd (busy (nothing_left block after (nothing_before before (block ++ after) n)))

query_all_invoice_metadata_stops_short_example :
    ((query_all_invoice_metadata (listing one_day) 1 january options).ended ≡ done)
    × ((query_all_invoice_metadata (listing one_day) 1 january options).yields ≡ take 2 one_day)
    × (take 2 one_day ≢ one_day)
query_all_invoice_metadata_stops_short_example =
    query_all_invoice_metadata_stops_short (listing one_day) 10 1 2 january one_day options
      "2026-01-02" 4 one_day-Serves one_day-At (not_equal "2026-01-02" "2026-01-01" refl)
      (omega arith) (omega arith) refl refl refl

query_all_invoice_metadata-Delivers_example :
    Delivers three_days (query_all_invoice_metadata (listing three_days) 1 january options)
query_all_invoice_metadata-Delivers_example =
    query_all_invoice_metadata-Delivers (listing three_days) 10 1 2 january three_days options
      three_days-Serves three_days-Distinct three_days-ShortBlocks (omega arith) refl refl

query_all_invoice_metadata_complete_example :
    ((query_all_invoice_metadata (listing three_days) 1 january options).ended ≡ done)
    × ((query_all_invoice_metadata (listing three_days) 1 january options).yields ≡ three_days)
query_all_invoice_metadata_complete_example =
    query_all_invoice_metadata_complete (listing three_days) 10 1 2 january three_days options
      three_days-Serves three_days-Distinct three_days-ShortBlocks (omega arith) refl refl Before
      Before-antisymm three_days-above three_days-Sorted 5 refl (omega arith)

query_all_invoice_metadata_windows_example :
    (query_all_invoice_metadata (listing one_day) 1 january options).windows ≤ 6
query_all_invoice_metadata_windows_example =
    query_all_invoice_metadata_windows (listing one_day) 1 january options 5 refl
