-- ===== src/Workflows/IncrementalExport/Points.antt =====
-- workflows/incremental-export-workflow.ts: what a run leaves in the points and in the store.
use ksef_client_ts.Base.{
  ℕ, zero, suc, ◌≡◌, refl, sym, ap, ◌∙◌, subst, false, Option, none, some, List, [], ◌∷◌, ◌++◌,
  String, str_eq, or_default, Bool-cases, Option-cases, inl, inr, ◌⊎◌,
}
use ksef_client_ts.Base.Dict.{get, put, get-put, get-remove}
use ksef_client_ts.Workflows.HwmCoordinator.{
  ContinuationPoints, ContinuationPackageRecord, PackageEnd, InMemoryHwmStore, non_empty,
  resume_from, update_continuation_point, get_effective_start_date,
}
use ksef_client_ts.Workflows.IncrementalExport.{
  World, IncrementalExportOptions, Package, Progress, same_from, saved, export_package,
  record_package, iterate, started, loaded_points, incremental_export_and_download,
}

some_inj {ℓ} : {A : Type ℓ} {a b : A} → some a ≡ some b → a ≡ b
some_inj h = cc

-- The points of other subjects stay.
get-update_continuation_point :
    (parse : String → Option ℕ) (points : ContinuationPoints) (subject_type : String)
    (pkg : PackageEnd) (records : Option (List ContinuationPackageRecord))
    (next : ContinuationPoints) (other : String)
    → update_continuation_point parse points subject_type pkg records ≡ some next
    → str_eq subject_type other ≡ false
    → get other next ≡ get other points
unfolding update_continuation_point
get-update_continuation_point parse points subject_type pkg records next other h apart =
    let put_apart : (date : String)
        → some (put subject_type date points) ≡ some next
        → get other next ≡ get other points =
      λ date e.
        ap (get other) (sym (some_inj e))
        ∙ get-put subject_type other date points
        ∙ rw apart refl in
    elim (Bool-cases pkg.is_truncated) [
      | inl cut ↦ elim (Option-cases (resume_from parse pkg records)) [
        | inl nothing ↦
            (let c : none ≡ some next =
                sym (rw (update_continuation_point, cut, nothing) refl) ∙ h in
              cc)
        | inr (date, found) ↦
            put_apart date (sym (rw (update_continuation_point, cut, found) refl) ∙ h)
      ]
      | inr whole ↦ elim (Option-cases (non_empty pkg.permanent_storage_hwm_date)) [
        | inl nothing ↦
            ap (get other)
              (sym (some_inj (sym (rw (update_continuation_point, whole, nothing) refl) ∙ h)))
            ∙ get-remove subject_type other points
            ∙ rw apart refl
        | inr (date, found) ↦
            put_apart date (sym (rw (update_continuation_point, whole, found) refl) ∙ h)
      ]
    ]

module _ (world : World) (options : IncrementalExportOptions) where
  pub record_package-cases :
      (progress : Progress) (from : String) (downloaded : Package) (next : Progress)
      → record_package world options progress from downloaded ≡ some next
      → (points : ContinuationPoints) × (update_continuation_point world.parse_date progress.points
            options.subject_type downloaded.outcome.package_end downloaded.records
          ≡ some points)
        × (next ≡ record {
          points = points;
          reference_numbers =
              progress.reference_numbers ++ downloaded.outcome.reference_number ∷ [];
          decrypted_parts = progress.decrypted_parts ++ downloaded.decrypted;
          previous_from = some from;
          store = saved points progress.store;
        })
  unfolding record_package
  record_package-cases progress from downloaded next h =
      elim (Option-cases (
        update_continuation_point world.parse_date progress.points options.subject_type
          downloaded.outcome.package_end downloaded.records)) [
            | inl failed ↦
                (let c : none ≡ some next = sym (rw (record_package, failed) refl) ∙ h in cc)
            | inr (points, moved) ↦
                (points, moved, some_inj (sym h ∙ rw (record_package, moved) refl))
          ]

  -- What each package keeps, the loop keeps, however it ends.
  iterate_keeps {ℓ} :
      (P : Progress → Type ℓ)
      (step : (progress : Progress) (from : String) (downloaded : Package) (next : Progress)
        → record_package world options progress from downloaded ≡ some next
        → P progress
        → P next)
      (blind : (progress : Progress) (from : String)
        → P progress
        → P (record progress { previous_from = some from }))
      (left iteration : ℕ) (progress : Progress)
      → P progress
      → P (iterate world options left iteration progress).progress
  unfolding iterate
  iterate_keeps P step blind zero iteration progress h = h
  iterate_keeps P step blind (suc left) iteration progress h =
      let from =
        get_effective_start_date progress.points options.subject_type options.window_from in
      elim (Bool-cases (same_from progress.previous_from from)) [
        | inl stalled ↦ rw (iterate, stalled) h
        | inr moved ↦ elim (Option-cases (export_package world options iteration from)) [
          | inl failed ↦ rw (iterate, moved, failed) (blind progress from h)
          | inr (downloaded, exported) ↦
              elim (Option-cases (record_package world options progress from downloaded)) [
                | inl failed ↦ rw (iterate, moved, exported, failed) (blind progress from h)
                | inr (next, advanced) ↦
                    let kept = step progress from downloaded next advanced h in
                    elim (Bool-cases downloaded.outcome.package_end.is_truncated) [
                      | inl cut ↦
                          rw (iterate, moved, exported, advanced, cut)
                            (iterate_keeps P step blind left (suc iteration) next kept)
                      | inr whole ↦ rw (iterate, moved, exported, advanced, whole) kept
                    ]
              ]
        ]
      ]

  -- A run, also one that throws, leaves the points of the other subjects as they were after the store
  -- was read.
  pub incremental_export_and_download-get :
      (other : String)
      → str_eq options.subject_type other ≡ false
      → get other (incremental_export_and_download world options).progress.points
        ≡ get other (loaded_points world options)
  unfolding incremental_export_and_download
  incremental_export_and_download-get other apart =
      iterate_keeps
        (λ progress. get other progress.points ≡ get other (loaded_points world options))
        (λ progress from downloaded next advanced h.
          let (points, moved, e) = record_package-cases progress from downloaded next advanced in
          ap (λ p. get other p.points) e
          ∙ get-update_continuation_point world.parse_date progress.points options.subject_type
              downloaded.outcome.package_end downloaded.records points other moved apart
          ∙ h)
        (λ progress from h. h) (or_default options.max_iterations 20) 0 (started world options) refl

  -- The store after a run: the run's points, or untouched where no package was finished.
  abbrev pub IsStored : Progress → Type 0
  IsStored progress =
      (progress.store ≡ saved progress.points options.store)
      ⊎ ((progress.store ≡ options.store)
          × (progress.points ≡ loaded_points world options)
          × (progress.reference_numbers ≡ []))

  saved-saved :
      (points before : ContinuationPoints) (store : Option InMemoryHwmStore)
      → saved points (saved before store) ≡ saved points store
  saved-saved points before none = refl
  saved-saved points before (some store) = refl

  -- A run, also one that throws, leaves the store with the points that it has reached, unless it
  -- finished no package, and then store and points are as they were when it had read the store.
  pub incremental_export_and_download-IsStored :
      IsStored (incremental_export_and_download world options).progress
  unfolding incremental_export_and_download
  incremental_export_and_download-IsStored =
      iterate_keeps IsStored
        (λ progress from downloaded next advanced h.
          let (points, moved, e) = record_package-cases progress from downloaded next advanced in
          subst IsStored (sym e) (elim h [
            | inl held ↦
                inl (ap (saved points) held ∙ saved-saved points progress.points options.store)
            | inr (held, same, empty) ↦ inl (ap (saved points) held)
          ]))
        (λ progress from h. h) (or_default options.max_iterations 20) 0 (started world options)
        (inr (refl, refl, refl))
