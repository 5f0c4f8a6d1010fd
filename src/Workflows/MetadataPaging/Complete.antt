-- ===== src/Workflows/MetadataPaging/Complete.antt =====
-- workflows/metadata-query-paging.ts: every invoice of the server once and in its order.
use mathlib.Core.List.{append_assoc, append-nil}
use ksef_client_ts.Base.{
  ℕ, zero, suc, ◌-◌, ◌≤◌, ◌<◌, ◌≡◌, ◌≢◌, refl, sym, ap, ◌∙◌, true, false, Option, none, some, List,
  [], ◌∷◌, ◌++◌, String, arith, map, ltb, ltb→lt, lt→ltb, str_eq, eq_iff, eq_refl, All, All-take,
  Bool-cases, Option-cases, inl, inr, length, take, drop, take-append-drop, take_all, length-append,
}
use ksef_client_ts.Workflows.MetadataPaging.{
  DateType, asc, InvoiceMetadata, DateRange, Server, done, key_of, has_key, Carry, is_carried,
  Boundary, no_boundary, WindowRead, read_window, Collected, after_window, window_ended,
  read_windows, narrow,
}
use ksef_client_ts.Workflows.MetadataPaging.Scanning.{At, NotEndsAt, NotEndsAt-block, Describes}
use ksef_client_ts.Workflows.MetadataPaging.Windows.{Pages, Reads, read_window-Reads}
use ksef_client_ts.Workflows.MetadataPaging.Delivery.{
  Distinct, Unlike, Distinct-block, take_busy, NotEndsAt-join, Fresh, Carried, scan-window,
  scan-yields, scan-capped,
}

-- What the iterator gave of the invoices that were still to come.
pub record Delivers (invoices : List InvoiceMetadata) (r : Collected) : Type 0 where
  pub rest : List InvoiceMetadata
  pub in_order : r.yields ++ rest ≡ invoices
  pub complete : r.ended ≡ done → rest ≡ []

regroup :
    (xs ys fs bs later kept after : List InvoiceMetadata)
    → after ≡ kept ++ later
    → kept ≡ fs ++ bs
    → xs ++ (ys ++ after) ≡ ((xs ++ ys) ++ fs) ++ (bs ++ later)
regroup xs ys fs bs later kept after e g =
    rw
      (
        e,
        g,
        append_assoc (xs ++ ys) fs (bs ++ later),
        append_assoc xs ys (fs ++ (bs ++ later)),
        append_assoc fs bs later,
      )
      refl

-- The invoices of a block that the boundary knows are carried over, and no others.
pub All-Carried :
    (t : DateType) (v : String) (ks : List (List ℕ)) (block : List InvoiceMetadata)
    → All (At t v) block
    → All (λ i. has_key (key_of i) ks ≡ true) block
    → All (λ i. is_carried (record { keys = ks; value = some v }) t i ≡ true) block
All-Carried t v ks [] at known = tt
All-Carried t v ks (i ∷ block) (here, at) (key, known) =
    let same = eq_refl v in (rw (here, same) key, All-Carried t v ks block at known)

All-Fresh :
    (t : DateType) (v : String) (ks : List (List ℕ)) (block is : List InvoiceMetadata)
    → ((k : List ℕ) → has_key k (map key_of block) ≡ false → has_key k ks ≡ false)
    → All (Unlike block) is
    → All (λ i. is_carried (record { keys = ks; value = some v }) t i ≡ false) is
All-Fresh t v ks block [] only h = tt
All-Fresh t v ks block (i ∷ is) only (here, h) =
    (ground (arith, only (key_of i) here), All-Fresh t v ks block is only h)

pub none_carried :
    (t : DateType) (is : List InvoiceMetadata)
    → All (λ i. is_carried (record { keys = []; value = none }) t i ≡ false) is
none_carried t [] = tt
none_carried t (i ∷ is) = (refl, none_carried t is)

module _ (server : Server) (size fuel cap : ℕ) (range : DateRange)
    (invoices : List InvoiceMetadata) where
  abbrev from : String → DateRange
  from v = narrow asc range v

  -- The server sorts by the boundary field, and cuts a window off at the cap: a window from a value
  -- holds the invoices from the first one at that value on.
  pub record Serves : Type 0 where
    pub whole :
        (sent : ℕ)
        → Pages server size range (ltb cap (length invoices)) fuel 0 sent (take cap invoices)
    pub from_value :
        (v : String) (before block after : List InvoiceMetadata)
        → invoices ≡ before ++ (block ++ after)
        → block ≢ []
        → All (At range.date_type v) block
        → NotEndsAt range.date_type v before
        → (sent : ℕ)
        → Pages server size
            (from v)
            (ltb cap (length (block ++ after)))
            fuel
            0
            sent
            (take cap (block ++ after))

  -- The invoices at one value do not fill a window.
  abbrev pub ShortBlocks : Type 0
  ShortBlocks =
      (v : String) (before block after : List InvoiceMetadata)
      → invoices ≡ before ++ (block ++ after)
      → All (At range.date_type v) block
      → length block < cap

  -- The outer loop before a window from `v`.
  pub record Ready (c : Carry) (v : String) (after : List InvoiceMetadata) : Type 0 where
    pub before : List InvoiceMetadata
    pub block : List InvoiceMetadata
    pub split : invoices ≡ before ++ (block ++ after)
    pub pages :
        (sent : ℕ)
        → Pages server size
            (from v)
            (ltb cap (length (block ++ after)))
            fuel
            0
            sent
            (take cap (block ++ after))
    pub at : All (At range.date_type v) block
    pub carried : Carried c range.date_type block
    pub fresh : Fresh c range.date_type after
    pub short : length block < cap
    pub apart : (w : String) → w ≢ v → NotEndsAt range.date_type w (before ++ block)

  module _ (serves : Serves) (distinct : Distinct invoices) (blocks : ShortBlocks) where
    -- From a window that was cut off to the next one.
    pub cross :
        (c : Carry) (v : String) (after : List InvoiceMetadata) (r : Ready c v after) (b : Boundary)
        (d : Describes range.date_type (take (cap - length r.block) after) b)
        → d.value ≢ v
        → Ready
            (record { keys = b.keys; value = some d.value })
            d.value
            (drop (cap - length r.block) after)
    cross c v after r b d ne =
        let t = range.date_type in
        let later = drop (cap - length r.block) after in
        let before' = (r.before ++ r.block) ++ d.front in
        let split' : invoices ≡ before' ++ (d.block ++ later) =
          r.split
          ∙ regroup r.before r.block d.front d.block later (take (cap - length r.block) after) after
              (sym (take-append-drop (cap - length r.block) after)) d.split in
        let maximal : NotEndsAt t d.value before' =
          NotEndsAt-join t d.value (r.before ++ r.block) d.front (r.apart d.value ne) d.maximal in
        record {
          before = before';
          block = d.block;
          split = split';
          pages = serves.from_value d.value before' d.block later split' d.busy d.at maximal;
          at = d.at;
          carried = All-Carried t d.value b.keys d.block d.at d.known;
          fresh =
              All-Fresh t d.value b.keys d.block later d.only
                (Distinct-block before' d.block later (rw (sym split') distinct));
          short = blocks d.value before' d.block later split' d.at;
          apart = λ w other.
              NotEndsAt-block t d.value w before' d.block d.busy d.at (λ e. other (sym e));
        }

    module _ (c : Carry) (v : String) (after : List InvoiceMetadata) (r : Ready c v after) where
      abbrev pub kept : List InvoiceMetadata
      kept = take (cap - length r.block) after

      pub whole_window : ltb cap (length (r.block ++ after)) ≡ false → kept ≡ after
      whole_window e =
          let h : length (r.block ++ after) ≤ cap =
            ground (arith, e, lt→ltb cap (length (r.block ++ after))) in
          let g = length-append r.block after in take_all (cap - length r.block) after (omega arith)

      pub cut_off :
          ltb cap (length (r.block ++ after)) ≡ true → (kept ≢ []) × (0 < cap - length r.block)
      cut_off e =
          let h = ltb→lt cap (length (r.block ++ after)) e in
          let g = length-append r.block after in
          let room : 0 < cap - length r.block = omega (arith, r.short) in
          (take_busy (cap - length r.block) after room (omega (arith, r.short)), room)

      abbrev pub later : List InvoiceMetadata
      later = drop (cap - length r.block) after

      crosses :
          (w : WindowRead) (d : Describes range.date_type kept w.boundary)
          (rest : Carry → DateRange → Option Collected)
          → w.yields ≡ kept
          → w.is_truncated ≡ true
          → ((c' : Carry) (v' : String)
              → Ready c' v' later
              → (more : Collected) → rest c' (from v') ≡ some more
              → Delivers later more)
          → Delivers after (after_window asc (from v) w rest)
      unfolding after_window
      crosses w d rest yields truncated next = elim (Bool-cases (str_eq v d.value)) [
        | inl same ↦
            rw (truncated, d.last, same)
              (record {
                rest = later;
                in_order = rw yields (take-append-drop (cap - length r.block) after);
                complete = λ e. cc;
              })
        | inr other ↦
            let c' : Carry = record { keys = w.boundary.keys; value = some d.value } in
            let ne : d.value ≢ v = λ e. ground (arith, eq_iff v d.value, sym e) in
            let ready = cross c v after r w.boundary d ne in
            elim (Option-cases (rest c' (from d.value))) [
              | inl last ↦
                  rw (truncated, d.last, other, last)
                    (record {
                      rest = later;
                      in_order = rw yields (take-append-drop (cap - length r.block) after);
                      complete = λ e. cc;
                    })
              | inr (more, goes) ↦
                  let m = next c' d.value ready more goes in
                  rw (truncated, d.last, other, goes)
                    (record {
                      rest = m.rest;
                      in_order =
                          rw (yields, append_assoc kept more.yields m.rest, m.in_order)
                            (take-append-drop (cap - length r.block) after);
                      complete = m.complete;
                    })
            ]
      ]

      -- One window and what follows it.
      window-Delivers :
          (w : WindowRead) (rest : Carry → DateRange → Option Collected)
          → Reads c range.date_type no_boundary
              (take cap (r.block ++ after))
              (ltb cap (length (r.block ++ after)))
              w
          → ((c' : Carry) (v' : String)
              → Ready c' v' later
              → (more : Collected) → rest c' (from v') ≡ some more
              → Delivers later more)
          → Delivers after (window_ended w.failed w (after_window asc (from v) w rest))
      unfolding after_window
      window-Delivers w rest (yields, boundary, truncated, failed) next =
          let short : length r.block ≤ cap = omega (arith, r.short) in
          let capped = scan-capped c range.date_type cap r.block after r.carried short in
          let fresh = All-take _ (cap - length r.block) after r.fresh in
          let given : w.yields ≡ kept =
            yields
            ∙ ap (λ (p : Boundary × List InvoiceMetadata). p.1) capped
            ∙ scan-yields c range.date_type kept fresh in
          elim (Bool-cases (ltb cap (length (r.block ++ after)))) [
            | inl more ↦
                let (busy, room) = cut_off more in
                let d = (scan-window c range.date_type kept fresh busy).1 in
                let at = boundary ∙ ap (λ (p : Boundary × List InvoiceMetadata). p.0) capped in
                rw failed (crosses w (rw at d) rest given (truncated ∙ more) next)
            | inr all ↦
                rw (failed, truncated, all)
                  (record {
                    rest = [];
                    in_order = rw (given, whole_window all) (append-nil after);
                    complete = λ e. refl;
                  })
          ]

    pub read_windows-Delivers :
        (crossings sent : ℕ) (c : Carry) (v : String) (after : List InvoiceMetadata)
        → Ready c v after
        → Delivers after (read_windows server size asc fuel crossings sent c (from v))
    unfolding read_windows
    read_windows-Delivers zero sent c v after r =
        window-Delivers c v after r (read_window server size asc c (from v) fuel 0 sent no_boundary)
          _ (read_window-Reads server size (from v) _ c no_boundary (r.pages sent))
          (λ c' v' r' more e. cc)
    read_windows-Delivers (suc crossings) sent c v after r =
        let w = read_window server size asc c (from v) fuel 0 sent no_boundary in
        window-Delivers c v after r w _
          (read_window-Reads server size (from v) _ c no_boundary (r.pages sent))
          (λ c' v' r' more e.
            let same : more ≡ read_windows server size asc fuel crossings w.requests c' (from v') =
              cc in
            rw same (read_windows-Delivers crossings w.requests c' v' _ r'))

    pub start-Ready : 0 < cap → Ready (record { keys = []; value = none }) range.from invoices
    start-Ready room = record {
      before = [];
      block = [];
      split = refl;
      pages = serves.whole;
      at = tt;
      carried = tt;
      fresh = none_carried range.date_type invoices;
      short = room;
      apart = λ w other. tt;
    }
