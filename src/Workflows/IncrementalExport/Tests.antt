-- ===== src/Workflows/IncrementalExport/Tests.antt =====
-- Examples of workflows/incremental-export-workflow.ts: a window of two packages.
use ksef_client_ts.Base.{
  ◌+◌, ◌≡◌, refl, true, false, none, some, [], ◌∷◌, String, str_eq, if◌then◌else◌,
}
use ksef_client_ts.Base.Dict.{get, put}
use ksef_client_ts.Workflows.HwmCoordinator.{update_continuation_point, PackageEnd}
use ksef_client_ts.Workflows.IncrementalExport.{
  Filters, ExportOutcome, World, IncrementalExportOptions, Progress, build_default_filters,
  download_parts, export_package, record_package, iterate, merge_points, started,
  incremental_export_and_download,
}
use ksef_client_ts.Workflows.IncrementalExport.Points.{
  IsStored, incremental_export_and_download-get, incremental_export_and_download-IsStored,
}
use ksef_client_ts.Workflows.IncrementalExport.Ends.{
  Counted, incremental_export_and_download-Counted,
}
use ksef_client_ts.Workflows.IncrementalExport.Resume.{joined, restarted, iterate-joined}

abbrev exported : String → String → PackageEnd → ExportOutcome
exported reference url end = record {
  reference_number = reference;
  parts = record { url = url; encrypted_part_hash = url } ∷ [];
  cipher_key = 7 ∷ [];
  cipher_iv = 9 ∷ [];
  compression_type = none;
  package_end = end;
}

abbrev outcome : Filters → ExportOutcome
outcome filters =
    if str_eq filters.from "day 1"
    then exported "first" "u" (record {
      is_truncated = true;
      last_permanent_storage_date = some "day 2";
      permanent_storage_hwm_date = none;
    })
    else exported "second" "v" (record {
      is_truncated = false;
      last_permanent_storage_date = none;
      permanent_storage_hwm_date = some "day 3";
    })

abbrev world : World
world = record {
  do_export = λ iteration filters. some (outcome filters);
  download = λ iteration part. some (if str_eq part.url "u" then 1 ∷ [] else 2 ∷ []);
  hash_matches = λ bytes hash. true;
  decrypt = λ bytes key iv. some bytes;
  metadata_of_tar_gz = λ parts. none;
  metadata_of_zip = λ archive. none;
  parse_invoices = λ content. none;
  parse_date = λ date. none;
}

abbrev options : IncrementalExportOptions
options = record {
  subject_type = "Subject1";
  window_from = "day 1";
  window_to = "day 9";
  continuation_points = ("Subject3", "day 5") ∷ [];
  max_iterations = none;
  filters_factory = none;
  verify_hash = none;
  store = some (("Subject2", "day 4") ∷ []);
}

run : incremental_export_and_download world options ≡ record {
  progress = record {
    points = ("Subject3", "day 5") ∷ ("Subject2", "day 4") ∷ ("Subject1", "day 3") ∷ [];
    reference_numbers = "first" ∷ "second" ∷ [];
    decrypted_parts = (1 ∷ []) ∷ (2 ∷ []) ∷ [];
    previous_from = some "day 2";
    store = some (("Subject3", "day 5") ∷ ("Subject2", "day 4") ∷ ("Subject1", "day 3") ∷ []);
  };
  iteration_count = some 2;
  exports = 2;
}
unfolding incremental_export_and_download iterate record_package export_package download_parts
    build_default_filters update_continuation_point get put merge_points
run = refl

incremental_export_and_download-get_example :
    get "Subject2" (incremental_export_and_download world options).progress.points ≡ some "day 4"
unfolding get put merge_points
incremental_export_and_download-get_example =
    incremental_export_and_download-get world options "Subject2" refl

incremental_export_and_download-IsStored_example :
    IsStored world options (incremental_export_and_download world options).progress
incremental_export_and_download-IsStored_example =
    incremental_export_and_download-IsStored world options

incremental_export_and_download-Counted_example :
    Counted 20 (incremental_export_and_download world options)
incremental_export_and_download-Counted_example =
    incremental_export_and_download-Counted world options

abbrev middle : Progress
middle = record {
  points = ("Subject3", "day 5") ∷ ("Subject2", "day 4") ∷ ("Subject1", "day 2") ∷ [];
  reference_numbers = "first" ∷ [];
  decrypted_parts = (1 ∷ []) ∷ [];
  previous_from = some "day 1";
  store = some (("Subject3", "day 5") ∷ ("Subject2", "day 4") ∷ ("Subject1", "day 2") ∷ []);
}

iterate-joined_example :
    iterate world options (1 + 3) 0 (started world options)
    ≡ joined 1 middle (iterate world options 3 0 (restarted middle))
unfolding record_package export_package download_parts build_default_filters
    update_continuation_point get put merge_points
iterate-joined_example =
    iterate-joined world options (λ i j from. refl) 1 2 (started world options) middle
      (
        record {
          outcome = outcome (build_default_filters "Subject1" "day 1" "day 9");
          decrypted = (1 ∷ []) ∷ [];
          records = none;
        },
        middle,
        refl,
        refl,
        refl,
        refl,
        refl,
      )
      refl
