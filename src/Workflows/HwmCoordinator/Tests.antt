-- ===== src/Workflows/HwmCoordinator/Tests.antt =====
-- Examples of workflows/hwm-coordinator.ts, with a parser that knows three dates.
use ksef_client_ts.Base.{
  ℕ, ◌≡◌, refl, true, Option, none, some, List, [], ◌∷◌, String, str_eq, if◌then◌else◌,
}
use ksef_client_ts.Base.Dict.{put}
use ksef_client_ts.Workflows.HwmCoordinator.{
  Entry, PackageEnd, ContinuationPackageRecord, candidate, scan_records,
  latest_permanent_storage_date, update_continuation_point, keep_new, deduplicate_by_ksef_number,
}

abbrev parse : String → Option ℕ
parse s =
    if str_eq s "10:00.1234567Z"
    then some 100123
    else if str_eq s "10:00.1239Z"
    then some 100123
    else if str_eq s "11:00+01:00"
    then some 100000
    else none

abbrev at : String → ContinuationPackageRecord
at date = record { permanent_storage_date = some date }

abbrev records : List ContinuationPackageRecord
records =
    at "10:00.1234567Z"
    ∷ at "soon"
    ∷ at "10:00.1239Z"
    ∷ record { permanent_storage_date = none }
    ∷ at "11:00+01:00"
    ∷ []

abbrev undated : PackageEnd
undated = record {
  is_truncated = true;
  last_permanent_storage_date = some "";
  permanent_storage_hwm_date = some "12:00";
}

latest_of_records : latest_permanent_storage_date parse (some records) ≡ some "10:00.1239Z"
unfolding candidate scan_records latest_permanent_storage_date
latest_of_records = refl

-- A truncated package without a date goes on from its latest record, not from the high water mark.
truncated :
    update_continuation_point parse [] "Subject1"
      (record {
        is_truncated = true;
        last_permanent_storage_date = some "";
        permanent_storage_hwm_date = some "12:00";
      })
      (some records)
    ≡ some (("Subject1", "10:00.1239Z") ∷ [])
unfolding candidate scan_records latest_permanent_storage_date update_continuation_point put
truncated = refl

abbrev entries : List (Entry ℕ)
entries = ("Ab", 1) ∷ ("aB", 2) ∷ ("c", 3) ∷ []

deduplicated : deduplicate_by_ksef_number entries ≡ ("Ab", 1) ∷ ("c", 3) ∷ []
unfolding keep_new
deduplicated = refl
