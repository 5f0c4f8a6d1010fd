-- ===== src/Workflows/HwmCoordinator/Scan.antt =====
-- workflows/hwm-coordinator.ts: the latest date among the records of a package.
use ksef_client_ts.Base.{ℕ, ◌≡◌, false, Option, none, some, List, [], ◌∷◌, String, ◌⊎◌, ◌<◌}
use ksef_client_ts.Base.Dict.{put}
use ksef_client_ts.Workflows.HwmCoordinator.{
  Latest, ContinuationPackageRecord, is_later, candidate, ContinuationPoints,
}

-- No candidate is later than the result.
abbrev pub NotBefore : Option Latest → Option Latest → Type 0
NotBefore result none = Unit
NotBefore none (some other) = ⊥
NotBefore (some result) (some other) = is_later result other ≡ false

-- In the order of texts.
abbrev pub AtMost : List ℕ → List ℕ → Type 0
AtMost [] t = Unit
AtMost (c ∷ s) [] = ⊥
AtMost (c ∷ s) (d ∷ t) = (c < d) ⊎ ((c ≡ d) × AtMost s t)

-- No other date is later: by the milliseconds, and then by the digits of the fraction.
abbrev pub IsLatest : Option Latest → Option Latest → Type 0
IsLatest latest none = Unit
IsLatest none (some other) = ⊥
IsLatest (some latest) (some other) =
    (other.ms < latest.ms) ⊎ ((other.ms ≡ latest.ms) × AtMost other.fraction latest.fraction)

-- The points with that of a subject moved to a date, or a throw.
abbrev pub moved_to : ContinuationPoints → String → Option Latest → Option ContinuationPoints
moved_to points subject_type none = none
moved_to points subject_type (some latest) = some (put subject_type latest.value points)

module _ (parse : String → Option ℕ) where
  -- A record of the list gives it, if there is a result at all.
  abbrev pub From : Option Latest → List ContinuationPackageRecord → Type 0
  From none records = Unit
  From (some result) [] = ⊥
  From (some result) (r ∷ records) = (candidate parse r ≡ some result) ⊎ From (some result) records
