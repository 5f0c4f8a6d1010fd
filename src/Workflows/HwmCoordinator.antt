-- ===== src/Workflows/HwmCoordinator.antt =====
-- workflows/hwm-coordinator.ts and the storage in memory of workflows/hwm-storage.ts. Points are the
-- entries of the object that are not undefined. `Date.parse` is a parameter: `none` for NaN, and
-- otherwise the milliseconds from the first date that JavaScript has.
pub mod Scan
pub mod Deduplicate
mod Tests
use ksef_client_ts.Base.{
  ℕ, zero, suc, Bool, true, false, ◌&&◌, ◌||◌, not, Option, none, some, List, [], ◌∷◌, ◌++◌, String,
  map, any, str_eq, ltb, leb, ◌==◌, if◌then◌else◌, or_default,
}
use ksef_client_ts.Base.Dict.{Dict, get, put, remove}
use ksef_client_ts.Base.Text.{codes, same_text, text_lt, to_lower}

abbrev pub ContinuationPoints : Type 0
ContinuationPoints = Dict String

-- permanentStorageDate, `none` where it is missing or null
pub record ContinuationPackageRecord : Type 0 where
  pub permanent_storage_date : Option String

-- The fields of InvoiceExportPackage that the points depend on.
pub record PackageEnd : Type 0 where
  pub is_truncated : Bool
  pub last_permanent_storage_date : Option String
  pub permanent_storage_hwm_date : Option String

-- A text that is neither missing nor empty.
abbrev pub non_empty : Option String → Option String
non_empty none = none
non_empty (some s) = if str_eq s "" then none else some s

pub record Latest : Type 0 where
  pub value : String
  pub ms : ℕ
  pub fraction : List ℕ

-- /\.(\d+)/.exec(value)?.[1] ?? ''
abbrev leading_digits : List ℕ → List ℕ
leading_digits [] = []
leading_digits (c ∷ s) =
    let rest = leading_digits s in if leb b'0' c && leb c b'9' then c ∷ rest else []

abbrev pub fraction_of : List ℕ → List ℕ
fraction_of [] = []
fraction_of (c ∷ s) =
    let rest = fraction_of s in
    if c == b'.' then elim (leading_digits s) [ [] ↦ rest | d ∷ ds ↦ d ∷ ds ] else rest

-- padEnd(n, '0')
abbrev pub pad_end : ℕ → List ℕ → List ℕ
pad_end zero s = s
pad_end (suc n) [] = b'0' ∷ pad_end n []
pad_end (suc n) (c ∷ s) = c ∷ pad_end n s

abbrev pub is_later : Latest → Latest → Bool
is_later latest other =
    ltb latest.ms other.ms || (latest.ms == other.ms && text_lt latest.fraction other.fraction)

abbrev pub keep_later : Option Latest → Option Latest → Option Latest
keep_later latest none = latest
keep_later none (some other) = some other
keep_later (some latest) (some other) = if is_later latest other then some other else some latest

-- latest?.value
abbrev pub value_of : Option Latest → Option String
value_of none = none
value_of (some latest) = some latest.value

module _ (parse : String → Option ℕ) where
  -- What the loop reads from a record, `none` where it goes on to the next one.
  unfoldable pub candidate : ContinuationPackageRecord → Option Latest
  candidate record_ = elim (non_empty record_.permanent_storage_date) [
    | none ↦ none
    | some value ↦ elim (parse value) [
      | none ↦ none
      | some ms ↦
          some (record { value = value; ms = ms; fraction = pad_end 9 (fraction_of (codes value)) })
    ]
  ]

  unfoldable pub scan_records : Option Latest → List ContinuationPackageRecord → Option Latest
  scan_records latest [] = latest
  scan_records latest (r ∷ records) = scan_records (keep_later latest (candidate r)) records

  unfoldable pub latest_permanent_storage_date :
      Option (List ContinuationPackageRecord) → Option String
  latest_permanent_storage_date records = value_of (scan_records none (or_default records []))

  -- `pkg.lastPermanentStorageDate || latestPermanentStorageDate(records)`
  abbrev pub resume_from : PackageEnd → Option (List ContinuationPackageRecord) → Option String
  resume_from pkg records = elim (non_empty pkg.last_permanent_storage_date) [
    | some date ↦ some date
    | none ↦ non_empty (latest_permanent_storage_date records)
  ]

  -- `none` is the error of a truncated package that says no point to resume from.
  unfoldable pub update_continuation_point :
      ContinuationPoints
      → String
      → PackageEnd
      → Option (List ContinuationPackageRecord)
      → Option ContinuationPoints
  update_continuation_point points subject_type pkg records =
      if pkg.is_truncated
      then elim (resume_from pkg records) [
        | none ↦ none
        | some date ↦ some (put subject_type date points)
      ]
      else elim (non_empty pkg.permanent_storage_hwm_date) [
        | some date ↦ some (put subject_type date points)
        | none ↦ some (remove subject_type points)
      ]

abbrev pub get_effective_start_date : ContinuationPoints → String → String → String
get_effective_start_date points subject_type window_from =
    or_default (get subject_type points) window_from

-- Entries by ksefNumber.toLowerCase(): an entry has its number and what else it holds.
abbrev pub Entry {ℓ} : Type ℓ → Type ℓ
Entry A = String × A

abbrev pub entry_key {ℓ} : {A : Type ℓ} → Entry A → List ℕ
entry_key (number, rest) = map to_lower (codes number)

abbrev pub seen_key : List ℕ → List (List ℕ) → Bool
seen_key key seen = any (same_text key) seen

unfoldable pub keep_new {ℓ} : {A : Type ℓ} → List (List ℕ) → List (Entry A) → List (Entry A)
keep_new seen [] = []
keep_new seen (entry ∷ entries) = elim (seen_key (entry_key entry) seen) [
  | true ↦ keep_new seen entries
  | false ↦ entry ∷ keep_new (entry_key entry ∷ seen) entries
]

abbrev pub deduplicate_by_ksef_number {ℓ} : {A : Type ℓ} → List (Entry A) → List (Entry A)
deduplicate_by_ksef_number entries = keep_new [] entries

-- InMemoryHwmStore: the points it holds, copied in and out.
abbrev pub InMemoryHwmStore : Type 0
InMemoryHwmStore = ContinuationPoints

abbrev pub load : InMemoryHwmStore → ContinuationPoints
load store = store

abbrev pub save_points : ContinuationPoints → InMemoryHwmStore → InMemoryHwmStore
save_points points store = points
