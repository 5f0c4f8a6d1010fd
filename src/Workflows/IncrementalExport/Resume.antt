-- ===== src/Workflows/IncrementalExport/Resume.antt =====
-- workflows/incremental-export-workflow.ts: a run that was cut short and is taken up again.
use mathlib.Core.List.{append_assoc, append-nil}
use ksef_client_ts.Base.{
  ℕ, zero, suc, ◌+◌, ◌≡◌, refl, sym, ap, ◌∙◌, arith, true, false, Option, none, some, List, [], ◌∷◌,
  ◌++◌, Bool-cases, Option-cases, inl, inr, String,
}
use ksef_client_ts.Workflows.HwmCoordinator.{get_effective_start_date, update_continuation_point}
use ksef_client_ts.Workflows.IncrementalExport.{
  Bytes, World, IncrementalExportOptions, Package, Progress, Exported, same_from, export_package,
  record_package, iterate, returned_after,
}

-- The same progress after what an earlier run brought.
abbrev pub after : List String → List Bytes → Progress → Progress
after references parts progress = record {
  points = progress.points;
  reference_numbers = references ++ progress.reference_numbers;
  decrypted_parts = parts ++ progress.decrypted_parts;
  previous_from = progress.previous_from;
  store = progress.store;
}

abbrev after_option : List String → List Bytes → Option Progress → Option Progress
after_option references parts none = none
after_option references parts (some progress) = some (after references parts progress)

abbrev plus_option : ℕ → Option ℕ → Option ℕ
plus_option n none = none
plus_option n (some m) = some (n + m)

-- The outcome of a run after an earlier run of n iterations.
abbrev pub joined : ℕ → Progress → Exported → Exported
joined n before exported = record {
  progress = after before.reference_numbers before.decrypted_parts exported.progress;
  iteration_count = plus_option n exported.iteration_count;
  exports = n + exported.exports;
}

-- What a new run knows of an earlier one: the points and the store.
abbrev pub restarted : Progress → Progress
restarted progress = record progress {
  reference_numbers = [];
  decrypted_parts = [];
  previous_from = none;
}

module _ (world : World) (options : IncrementalExportOptions) where
  -- So many iterations of the loop that all end with a truncated package.
  abbrev pub GoesOn : ℕ → ℕ → Progress → Progress → Type 0
  GoesOn zero iteration progress end = progress ≡ end
  GoesOn (suc n) iteration progress end =
      let from =
        get_effective_start_date progress.points options.subject_type options.window_from in
      (downloaded : Package) × (next : Progress) × (same_from progress.previous_from from ≡ false)
      × (export_package world options iteration from ≡ some downloaded)
      × (record_package world options progress from downloaded ≡ some next)
      × (downloaded.outcome.package_end.is_truncated ≡ true)
      × GoesOn n (suc iteration) next end

  iterate-GoesOn :
      (n m iteration : ℕ) (progress end : Progress)
      → GoesOn n iteration progress end
      → iterate world options (n + m) iteration progress
        ≡ iterate world options m (n + iteration) end
  unfolding iterate
  iterate-GoesOn zero m iteration progress end h =
      let e : 0 + iteration ≡ iteration = omega arith in
      let z : 0 + m ≡ m = omega arith in rw (e, z, h) refl
  iterate-GoesOn (suc n) m iteration progress end
        (downloaded, next, moved, exported, advanced, cut, rest) =
      let e : suc n + iteration ≡ n + suc iteration = omega arith in
      let s : suc n + m ≡ suc (n + m) = omega arith in
      rw (s, e, iterate, moved, exported, advanced, cut)
        (iterate-GoesOn n m (suc iteration) next end rest)

  record_package-after :
      (references : List String) (parts : List Bytes) (progress : Progress) (from : String)
      (downloaded : Package)
      → record_package world options (after references parts progress) from downloaded
        ≡ after_option references parts (record_package world options progress from downloaded)
  unfolding record_package
  record_package-after references parts progress from downloaded =
      elim (Option-cases (
        update_continuation_point world.parse_date progress.points options.subject_type
          downloaded.outcome.package_end downloaded.records)) [
            | inl failed ↦ rw (record_package, failed) refl
            | inr (points, moved) ↦
                rw
                  (
                    record_package,
                    moved,
                    append_assoc references progress.reference_numbers
                        (downloaded.outcome.reference_number ∷ []),
                    append_assoc parts progress.decrypted_parts downloaded.decrypted,
                  )
                  refl
          ]

  -- The answers from outside do not depend on the iteration.
  abbrev pub Timeless : Type 0
  Timeless =
      (i j : ℕ) (from : String)
      → export_package world options i from ≡ export_package world options j from

  module _ (timeless : Timeless) where
    iterate-after :
        (references : List String) (parts : List Bytes) (n left iteration : ℕ) (progress : Progress)
        → iterate world options left (n + iteration) (after references parts progress) ≡ record {
          progress =
              after references parts (iterate world options left iteration progress).progress;
          iteration_count =
              plus_option n (iterate world options left iteration progress).iteration_count;
          exports = n + (iterate world options left iteration progress).exports;
        }
    unfolding iterate
    iterate-after references parts n zero iteration progress = refl
    iterate-after references parts n (suc left) iteration progress =
        let from =
          get_effective_start_date progress.points options.subject_type options.window_from in
        let e : n + suc iteration ≡ suc (n + iteration) = omega arith in
        let threw : Progress → ℕ → Exported = λ p calls. record {
          progress = after references parts p;
          iteration_count = none;
          exports = calls;
        } in
        let same = timeless (n + iteration) iteration from in
        elim (Bool-cases (same_from progress.previous_from from)) [
          | inl stalled ↦ rw (iterate, stalled) refl
          | inr moved ↦ elim (Option-cases (export_package world options iteration from)) [
            | inl failed ↦
                rw (iterate, moved, same, failed)
                  (ap (threw (record progress { previous_from = some from })) (sym e))
            | inr (downloaded, exported) ↦
                let appended = record_package-after references parts progress from downloaded in
                elim (Option-cases (record_package world options progress from downloaded)) [
                  | inl failed ↦
                      rw (iterate, moved, same, exported, appended, failed)
                        (ap (threw (record progress { previous_from = some from })) (sym e))
                  | inr (next, advanced) ↦
                      elim (Bool-cases downloaded.outcome.package_end.is_truncated) [
                        | inl cut ↦
                            rw (iterate, moved, same, exported, appended, advanced, cut)
                              (ap (λ i. iterate world options left i (after references parts next))
                                  (sym e)
                                ∙ iterate-after references parts n left (suc iteration) next)
                        | inr whole ↦
                            rw (iterate, moved, same, exported, appended, advanced, whole)
                              (ap (λ i. returned_after i (after references parts next)) (sym e))
                      ]
                ]
          ]
        ]

    -- The previous start only matters where the next start is the same.
    iterate-moved :
        (left iteration : ℕ) (progress : Progress)
        → same_from progress.previous_from
            (get_effective_start_date progress.points options.subject_type options.window_from)
          ≡ false
        → iterate world options (suc left) iteration progress
          ≡ iterate world options (suc left) iteration (record progress { previous_from = none })
    unfolding iterate record_package
    iterate-moved left iteration progress moved =
        let from =
          get_effective_start_date progress.points options.subject_type options.window_from in
        elim (Option-cases (export_package world options iteration from)) [
          | inl failed ↦ rw (iterate, moved, failed) refl
          | inr (downloaded, exported) ↦
              elim (Option-cases (record_package world options progress from downloaded)) [
                | inl failed ↦ rw (iterate, moved, exported, failed) refl
                | inr (next, advanced) ↦
                    elim (Bool-cases downloaded.outcome.package_end.is_truncated) [
                      | inl cut ↦ rw (iterate, moved, exported, advanced, cut) refl
                      | inr whole ↦ rw (iterate, moved, exported, advanced, whole) refl
                    ]
              ]
        ]

    -- With answers that do not depend on the iteration: a run whose first n packages are truncated,
    -- and whose start has moved then, has the outcome of two runs, one of n iterations and one that
    -- starts with the points and the store of the first, the lists appended and the counts added.
    pub iterate-joined :
        (n left : ℕ) (progress middle : Progress)
        → GoesOn n 0 progress middle
        → same_from middle.previous_from
            (get_effective_start_date middle.points options.subject_type options.window_from)
          ≡ false
        → iterate world options (n + suc left) 0 progress
          ≡ joined n middle (iterate world options (suc left) 0 (restarted middle))
    iterate-joined n left progress middle h moved =
        let whole : after middle.reference_numbers middle.decrypted_parts (restarted middle)
            ≡ record middle { previous_from = none } =
          rw (append-nil middle.reference_numbers, append-nil middle.decrypted_parts) refl in
        iterate-GoesOn n (suc left) 0 progress middle h
        ∙ iterate-moved left (n + 0) middle moved
        ∙ ap (iterate world options (suc left) (n + 0)) (sym whole)
        ∙ iterate-after middle.reference_numbers middle.decrypted_parts n (suc left) 0
            (restarted middle)
