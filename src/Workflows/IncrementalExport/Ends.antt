-- ===== src/Workflows/IncrementalExport/Ends.antt =====
-- workflows/incremental-export-workflow.ts: how a run ends, and a run that is taken up again.
use ksef_client_ts.Base.{
  ℕ, zero, suc, ◌+◌, ◌≤◌, ◌≡◌, refl, ap, ◌∙◌, subst, arith, none, some, [], ◌∷◌, length,
  length-append, or_default, Bool-cases, Option-cases, inl, inr, String,
}
use ksef_client_ts.Workflows.HwmCoordinator.{get_effective_start_date}
use ksef_client_ts.Workflows.IncrementalExport.{
  World, IncrementalExportOptions, Package, Progress, Exported, same_from, export_package,
  record_package, iterate, started, incremental_export_and_download,
}
use ksef_client_ts.Workflows.IncrementalExport.Points.{record_package-cases}

-- The calls of doExport are at most so many. A run that returns counts them all, and has a reference
-- number of each; where one of them throws it has those of the calls before.
abbrev pub Counted : ℕ → Exported → Type 0
Counted most exported = elim exported.iteration_count [
  | none ↦
      (suc (length exported.progress.reference_numbers) ≡ exported.exports)
      × (exported.exports ≤ most)
  | some n ↦ (length exported.progress.reference_numbers ≡ n) × (exported.exports ≡ n) × (n ≤ most)
]

module _ (world : World) (options : IncrementalExportOptions) where
  length-record_package :
      (progress : Progress) (from : String) (downloaded : Package) (next : Progress)
      → record_package world options progress from downloaded ≡ some next
      → length next.reference_numbers ≡ suc (length progress.reference_numbers)
  length-record_package progress from downloaded next advanced =
      let (points, moved, e) =
        record_package-cases world options progress from downloaded next advanced in
      let one =
        length-append progress.reference_numbers (downloaded.outcome.reference_number ∷ []) in
      ap (λ p. length p.reference_numbers) e ∙ omega (arith, one)

  iterate-Counted :
      (left iteration : ℕ) (progress : Progress)
      → length progress.reference_numbers ≡ iteration
      → Counted (iteration + left) (iterate world options left iteration progress)
  unfolding iterate
  iterate-Counted zero iteration progress h = (h, refl, omega arith)
  iterate-Counted (suc left) iteration progress h =
      let from =
        get_effective_start_date progress.points options.subject_type options.window_from in
      elim (Bool-cases (same_from progress.previous_from from)) [
        | inl stalled ↦ rw (iterate, stalled) (h, refl, omega arith)
        | inr moved ↦ elim (Option-cases (export_package world options iteration from)) [
          | inl failed ↦ rw (iterate, moved, failed) (ap suc h, omega arith)
          | inr (downloaded, exported) ↦
              elim (Option-cases (record_package world options progress from downloaded)) [
                | inl failed ↦ rw (iterate, moved, exported, failed) (ap suc h, omega arith)
                | inr (next, advanced) ↦
                    let one : length next.reference_numbers ≡ suc iteration =
                      length-record_package progress from downloaded next advanced ∙ ap suc h in
                    elim (Bool-cases downloaded.outcome.package_end.is_truncated) [
                      | inl cut ↦
                          let e : suc iteration + left ≡ iteration + suc left = omega arith in
                          rw (iterate, moved, exported, advanced, cut)
                            (subst
                              (λ most.
                                Counted most (iterate world options left (suc iteration) next))
                              e (iterate-Counted left (suc iteration) next one))
                      | inr whole ↦
                          rw (iterate, moved, exported, advanced, whole) (one, refl, omega arith)
                    ]
              ]
        ]
      ]

  -- A run calls doExport at most maxIterations times, also a run that throws, the call of the iteration
  -- that throws included. A run that returns counts all its calls and has a reference number of each.
  pub incremental_export_and_download-Counted :
      Counted (or_default options.max_iterations 20) (incremental_export_and_download world options)
  unfolding incremental_export_and_download
  incremental_export_and_download-Counted =
      let most = or_default options.max_iterations 20 in
      let e : 0 + most ≡ most = omega arith in
      subst (λ m. Counted m (iterate world options most 0 (started world options))) e
        (iterate-Counted most 0 (started world options) refl)
