-- ===== src/Workflows/MetadataPaging/Finished.antt =====
-- workflows/metadata-query-paging.ts: the iterator comes to its end.
use mathlib.Core.List.{append_assoc}
use ksef_client_ts.Base.{
  ℕ, zero, suc, ◌-◌, ◌≤◌, ◌≡◌, ◌≢◌, refl, sym, ap, ◌∙◌, true, false, Option, some, List, ◌++◌,
  String, arith, ltb, ltb→lt, str_eq, eq_iff, All, All-append, All-take, Bool-cases, inl, inr,
  length, take, drop, take-append-drop, length-append, length-take, length-drop,
}
use ksef_client_ts.Workflows.MetadataPaging.{
  asc, InvoiceMetadata, DateRange, Server, done, Carry, Boundary, no_boundary, WindowRead,
  read_window, Collected, after_window, window_ended, read_windows, narrow,
}
use ksef_client_ts.Workflows.MetadataPaging.Scanning.{At, Describes}
use ksef_client_ts.Workflows.MetadataPaging.Windows.{Reads, read_window-Reads}
use ksef_client_ts.Workflows.MetadataPaging.Delivery.{Distinct, scan-window, scan-capped}
use ksef_client_ts.Workflows.MetadataPaging.Complete.{Serves, ShortBlocks, Ready, cross, cut_off}
use ksef_client_ts.Workflows.MetadataPaging.Sorted.{
  AllFrom, Sorted, Sorted-drop, Sorted-left, Sorted-after, Sorted-At,
}

pub not_str_eq : (v w : String) → w ≢ v → str_eq v w ≡ false
not_str_eq v w ne = elim (Bool-cases (str_eq v w)) [
  | inl same ↦ absurd (ne (sym ((eq_iff v w).0 same)))
  | inr other ↦ other
]

module _ (server : Server) (size fuel cap : ℕ) (range : DateRange) (invoices : List InvoiceMetadata)
    (serves : Serves server size fuel cap range invoices) (distinct : Distinct invoices)
    (blocks : ShortBlocks server size fuel cap range invoices) (le : String → String → Type 0)
    (antisymm : (v w : String) → le v w → le w v → v ≡ w) where
  abbrev ReadyAt : Carry → String → List InvoiceMetadata → Type 0
  ReadyAt = Ready server size fuel cap range invoices

  -- What is still to come from `v` is sorted.
  abbrev Steady : String → List InvoiceMetadata → Type 0
  Steady v after = AllFrom le range.date_type v after × Sorted le range.date_type after

  module _ (c : Carry) (v : String) (after : List InvoiceMetadata) (r : ReadyAt c v after)
      (steady : Steady v after) where
    abbrev room : ℕ
    room = cap - length r.block

    -- A window that is cut off ends at another value than it begins with.
    never_stalls :
        ltb cap (length (r.block ++ after)) ≡ true
        → (b : Boundary) (d : Describes range.date_type (take room after) b) → d.value ≢ v
    never_stalls more b d same =
        let t = range.date_type in
        let h = ltb→lt cap (length (r.block ++ after)) more in
        let g = length-append r.block after in
        let filled = length-take room after (omega (arith, r.short)) in
        let at : All (At t v) d.block = rw (sym same) d.at in
        let above = All-take _ room after steady.0 in
        let sorted =
          Sorted-left le t (take room after) (drop room after)
            (rw (take-append-drop room after) steady.1) in
        let all =
          Sorted-At le t antisymm v d.front d.block d.busy at (rw (sym d.split) above)
            (rw (sym d.split) sorted) in
        let whole : All (At t v) (take room after) = rw d.split all in
        let split : invoices ≡ r.before ++ ((r.block ++ take room after) ++ drop room after) =
          r.split
          ∙ ap (λ xs. r.before ++ xs)
              (sym (
                append_assoc r.block (take room after) (drop room after)
                ∙ ap (λ xs. r.block ++ xs) (take-append-drop room after))) in
        let short =
          blocks v r.before (r.block ++ take room after) (drop room after) split
            (All-append _ r.block (take room after) r.at whole) in
        let l = length-append r.block (take room after) in omega (arith, r.short)

    later-Steady :
        (b : Boundary) (d : Describes range.date_type (take room after) b)
        → Steady d.value (drop room after)
    later-Steady b d =
        let t = range.date_type in
        let split : after ≡ d.front ++ (d.block ++ drop room after) =
          sym (take-append-drop room after)
          ∙ ap (λ xs. xs ++ drop room after) d.split
          ∙ append_assoc d.front d.block (drop room after) in
        (
          Sorted-after le t d.value d.front d.block (drop room after) d.busy d.at
              (rw (sym split) steady.1),
          Sorted-drop le t room after steady.1,
        )

    -- The next window, where there is one, comes to the end of the invoices.
    abbrev Next : (Carry → DateRange → Option Collected) → Type 0
    Next rest =
        length after ≢ 0
        → (c' : Carry) (v' : String) → ReadyAt c' v' (drop room after)
        → Steady v' (drop room after)
        → (more : Collected) × (rest c' (narrow asc range v') ≡ some more) × (more.ended ≡ done)

    crosses-done :
        (w : WindowRead) (rest : Carry → DateRange → Option Collected)
        (d : Describes range.date_type (take room after) w.boundary)
        → w.is_truncated ≡ true
        → ltb cap (length (r.block ++ after)) ≡ true
        → length after ≢ 0
        → Next rest
        → (after_window asc (narrow asc range v) w rest).ended ≡ done
    unfolding after_window
    crosses-done w rest d truncated more busy next =
        let ne = never_stalls more w.boundary d in
        let apart = not_str_eq v d.value ne in
        let ready =
          cross server size fuel cap range invoices serves distinct blocks c v after r w.boundary d
            ne in
        let (_, goes, finished) =
          next busy (record { keys = w.boundary.keys; value = some d.value }) d.value ready
            (later-Steady w.boundary d) in
        rw (truncated, d.last, apart, goes) finished

    window-done :
        (w : WindowRead) (rest : Carry → DateRange → Option Collected)
        → Reads c range.date_type no_boundary
            (take cap (r.block ++ after))
            (ltb cap (length (r.block ++ after)))
            w
        → Next rest
        → (window_ended w.failed w (after_window asc (narrow asc range v) w rest)).ended ≡ done
    unfolding after_window
    window-done w rest (yields, boundary, truncated, failed) next =
        let t = range.date_type in
        let short : length r.block ≤ cap = omega (arith, r.short) in
        let capped = scan-capped c t cap r.block after r.carried short in
        let at = boundary ∙ ap (λ (p : Boundary × List InvoiceMetadata). p.0) capped in
        elim (Bool-cases (ltb cap (length (r.block ++ after)))) [
          | inl more ↦
              let h = ltb→lt cap (length (r.block ++ after)) more in
              let g = length-append r.block after in
              let (busy, _) =
                cut_off server size fuel cap range invoices serves distinct blocks c v after r
                  more in
              let d = (scan-window c t (take room after) (All-take _ room after r.fresh) busy).1 in
              let some_left : length after ≢ 0 = λ e. omega (arith, r.short) in
              rw failed (crosses-done w rest (rw at d) (truncated ∙ more) more some_left next)
          | inr all ↦ rw (failed, truncated, all) refl
        ]

  -- As many crossings as there are invoices are enough.
  pub read_windows-done :
      (crossings sent : ℕ) (c : Carry) (v : String) (after : List InvoiceMetadata)
      → ReadyAt c v after
      → Steady v after
      → length after ≤ crossings
      → (read_windows server size asc fuel crossings sent c (narrow asc range v)).ended ≡ done
  unfolding read_windows
  read_windows-done zero sent c v after r steady enough =
      window-done c v after r steady
        (read_window server size asc c (narrow asc range v) fuel 0 sent no_boundary) _
        (read_window-Reads server size (narrow asc range v) _ c no_boundary (r.pages sent))
        (λ busy c' v' r' steady'. absurd (busy (omega arith)))
  read_windows-done (suc crossings) sent c v after r steady enough =
      let w = read_window server size asc c (narrow asc range v) fuel 0 sent no_boundary in
      window-done c v after r steady w _
        (read_window-Reads server size (narrow asc range v) _ c no_boundary (r.pages sent))
        (λ busy c' v' r' steady'.
          let fewer = length-drop (room c v after r steady) after in
          (
            _,
            refl,
            read_windows-done crossings w.requests c' v' (drop (room c v after r steady) after) r'
                steady' (omega (arith, r.short)),
          ))
