-- ===== src/Workflows/IncrementalExport.antt =====
-- workflows/incremental-export-workflow.ts with the storage in memory. The export itself (doExport),
-- the download of a part, the archives, the hash, AES and `JSON.parse` are fields of a parameter; what
-- awaits an answer from outside is a function of the iteration, and `none` is a throw.
pub mod Ends
pub mod Points
pub mod Resume
mod Tests
use ksef_client_ts.Base.{
  ℕ, zero, suc, Bool, true, false, ◌&&◌, not, Option, none, some, List, [], ◌∷◌, ◌++◌, String,
  str_eq, if◌then◌else◌, or_default, flatten, ◌>>=◌,
}
use ksef_client_ts.Base.Dict.{get, put}
use ksef_client_ts.Workflows.MetadataPaging.{DateType, permanent_storage}
use ksef_client_ts.Workflows.HwmCoordinator.{
  ContinuationPoints, ContinuationPackageRecord, PackageEnd, InMemoryHwmStore, load, save_points,
  non_empty, update_continuation_point, get_effective_start_date,
}

abbrev pub Bytes : Type 0
Bytes = List ℕ

pub data CompressionType : Type 0 where
  zip tar_gz : CompressionType

-- The parts of InvoiceQueryFilters that the workflow sets or reads.
pub record Filters : Type 0 where
  pub subject_type : String
  pub date_type : Option DateType
  pub from : String
  pub to : String
  pub restrict_to_hwm : Bool

pub record ExportPart : Type 0 where
  pub url : String
  pub encrypted_part_hash : String

-- What doExport returns.
pub record ExportOutcome : Type 0 where
  pub reference_number : String
  pub parts : List ExportPart
  pub cipher_key : Bytes
  pub cipher_iv : Bytes
  pub compression_type : Option CompressionType
  pub package_end : PackageEnd

pub record World : Type 0 where
  pub do_export : ℕ → Filters → Option ExportOutcome
  pub download : ℕ → ExportPart → Option Bytes
  pub hash_matches : Bytes → String → Bool
  pub decrypt : Bytes → Bytes → Bytes → Option Bytes
  pub metadata_of_tar_gz : List Bytes → Option (List Bytes)
  pub metadata_of_zip : Bytes → Option (List Bytes)
  pub parse_invoices : Bytes → Option (List ContinuationPackageRecord)
  pub parse_date : String → Option ℕ

pub record IncrementalExportOptions : Type 0 where
  pub subject_type : String
  pub window_from : String
  pub window_to : String
  pub continuation_points : ContinuationPoints
  pub max_iterations : Option ℕ
  pub filters_factory : Option (String → String → Filters)
  pub verify_hash : Option Bool
  pub store : Option InMemoryHwmStore

unfoldable pub build_default_filters : String → String → String → Filters
build_default_filters subject_type from to = record {
  subject_type = subject_type;
  date_type = some permanent_storage;
  from = from;
  to = to;
  restrict_to_hwm = true;
}

-- parts.filter((part) => part.length > 0)
abbrev pub filled : List Bytes → List Bytes
filled [] = []
filled ([] ∷ parts) = filled parts
filled ((b ∷ bytes) ∷ parts) = (b ∷ bytes) ∷ filled parts

abbrev is_permanent_storage : Option DateType → Bool
is_permanent_storage (some permanent_storage) = true
is_permanent_storage _ = false

abbrev is_none : Option String → Bool
is_none none = true
is_none (some s) = false

-- A package that was exported and downloaded. `records` is `none` where they are not read.
pub record Package : Type 0 where
  pub outcome : ExportOutcome
  pub decrypted : List Bytes
  pub records : Option (List ContinuationPackageRecord)

-- The points, the result so far, and the store.
pub record Progress : Type 0 where
  pub points : ContinuationPoints
  pub reference_numbers : List String
  pub decrypted_parts : List Bytes
  pub previous_from : Option String
  pub store : Option InMemoryHwmStore

-- How it ends: `none` for a throw, and otherwise iterationCount; and the calls of doExport, with the
-- one of the iteration that throws. What such an iteration pushes is discarded with the result.
pub record Exported : Type 0 where
  pub progress : Progress
  pub iteration_count : Option ℕ
  pub exports : ℕ

abbrev pub same_from : Option String → String → Bool
same_from none from = false
same_from (some previous) from = str_eq from previous

-- The end of a run before an iteration or after it.
abbrev pub returned_after : ℕ → Progress → Exported
returned_after n progress = record { progress = progress; iteration_count = some n; exports = n }

-- A throw in an iteration.
abbrev pub threw_in : ℕ → Progress → Exported
threw_in iteration progress = record {
  progress = progress;
  iteration_count = none;
  exports = suc iteration;
}

-- `if (options.store) await options.store.save(points)`
abbrev pub saved : ContinuationPoints → Option InMemoryHwmStore → Option InMemoryHwmStore
saved points none = none
saved points (some store) = some (save_points points store)

-- The points that the store has and the options have not.
unfoldable pub merge_points : ContinuationPoints → ContinuationPoints → ContinuationPoints
merge_points [] points = points
merge_points ((key, value) ∷ loaded) points =
    merge_points loaded
      (elim (get key points) [ none ↦ put key value points | some there ↦ points ])

module _ (world : World) (options : IncrementalExportOptions) where
  abbrev pub read_package_records :
      List Bytes → Option CompressionType → Option (List ContinuationPackageRecord)
  read_package_records parts compression = elim (filled parts) [
    | [] ↦ some []
    | part ∷ others ↦
        let contents : Option (List Bytes) = elim compression [
          | none ↦ world.metadata_of_zip (flatten (part ∷ others))
          | some c ↦ elim c [
            | zip ↦ world.metadata_of_zip (flatten (part ∷ others))
            | tar_gz ↦ world.metadata_of_tar_gz (part ∷ others)
          ]
        ] in
        elim contents [
          | none ↦ none
          | some files ↦ elim files [ [] ↦ some [] | content ∷ rest ↦ world.parse_invoices content ]
        ]
  ]

  -- The loop over `result.parts`.
  unfoldable pub download_parts : ℕ → Bytes → Bytes → List ExportPart → Option (List Bytes)
  download_parts iteration key iv [] = some []
  download_parts iteration key iv (part ∷ parts) = do
    encrypted ← world.download iteration part
    checked ←
        if or_default options.verify_hash true
          && not (world.hash_matches encrypted part.encrypted_part_hash)
        then none
        else some encrypted
    decrypted ← world.decrypt checked key iv
    rest ← download_parts iteration key iv parts
    some (decrypted ∷ rest)

  abbrev pub filters_for : String → Filters
  filters_for from = elim options.filters_factory [
    | none ↦ build_default_filters options.subject_type from options.window_to
    | some factory ↦ factory from options.window_to
  ]

  -- The records of a truncated package without lastPermanentStorageDate.
  abbrev pub records_of :
      Filters → ExportOutcome → List Bytes → Option (Option (List ContinuationPackageRecord))
  records_of filters outcome parts =
      if outcome.package_end.is_truncated
        && (is_none (non_empty outcome.package_end.last_permanent_storage_date)
            && is_permanent_storage filters.date_type)
      then elim (read_package_records parts outcome.compression_type) [
        | none ↦ none
        | some records ↦ some (some records)
      ]
      else some none

  unfoldable pub export_package : ℕ → String → Option Package
  export_package iteration from = do
    outcome ← world.do_export iteration (filters_for from)
    parts ← download_parts iteration outcome.cipher_key outcome.cipher_iv outcome.parts
    records ← records_of (filters_for from) outcome parts
    some (record { outcome = outcome; decrypted = parts; records = records })

  -- What a package changes; `none` where updateContinuationPoint throws.
  unfoldable pub record_package : Progress → String → Package → Option Progress
  record_package progress from downloaded =
      elim (update_continuation_point world.parse_date progress.points options.subject_type
        downloaded.outcome.package_end downloaded.records) [
          | none ↦ none
          | some points ↦ some (record {
            points = points;
            reference_numbers =
                progress.reference_numbers ++ downloaded.outcome.reference_number ∷ [];
            decrypted_parts = progress.decrypted_parts ++ downloaded.decrypted;
            previous_from = some from;
            store = saved points progress.store;
          })
        ]

  -- The loop, by the iterations that are left.
  unfoldable pub iterate : ℕ → ℕ → Progress → Exported
  iterate zero iteration progress = returned_after iteration progress
  iterate (suc left) iteration progress =
      let from =
        get_effective_start_date progress.points options.subject_type options.window_from in
      elim (same_from progress.previous_from from) [
        | true ↦ returned_after iteration progress
        | false ↦ elim (export_package iteration from) [
          | none ↦ threw_in iteration (record progress { previous_from = some from })
          | some downloaded ↦ elim (record_package progress from downloaded) [
            | none ↦ threw_in iteration (record progress { previous_from = some from })
            | some next ↦ elim downloaded.outcome.package_end.is_truncated [
              | true ↦ iterate left (suc iteration) next
              | false ↦ returned_after (suc iteration) next
            ]
          ]
        ]
      ]

  abbrev pub loaded_points : ContinuationPoints
  loaded_points = elim options.store [
    | none ↦ options.continuation_points
    | some store ↦ merge_points (load store) options.continuation_points
  ]

  abbrev pub started : Progress
  started = record {
    points = loaded_points;
    reference_numbers = [];
    decrypted_parts = [];
    previous_from = none;
    store = options.store;
  }

  unfoldable pub incremental_export_and_download : Exported
  incremental_export_and_download = iterate (or_default options.max_iterations 20) 0 started
