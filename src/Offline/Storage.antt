-- ===== src/Offline/Storage.antt =====
-- offline/storage.ts: the filter, and the storage in memory as a map of records. The clones by JSON
-- of the source are the values themselves here.
use ksef_client_ts.Base.{
  ℕ, Bool, true, false, ◌&&◌, not, Option, none, some, List, [], ◌∷◌, String, any, str_eq, ltb,
  if◌then◌else◌,
}
use ksef_client_ts.Base.Dict.{Dict, get, put, remove}
use ksef_client_ts.Offline.{
  OfflineMode, OfflineInvoiceStatus, OfflineInvoiceMetadata, same_mode, same_status,
}

-- `expiring_before` holds the time of the cutoff, `none` for an invalid date.
pub record OfflineInvoiceFilter : Type 0 where
  pub status : Option (List OfflineInvoiceStatus)
  pub mode : Option OfflineMode
  pub expiring_before : Option (Option ℕ)
  pub seller_nip : Option String

-- A field that is absent from the filter does not matter.
abbrev pub unless_absent {ℓ} : {A : Type ℓ} → Option A → (A → Bool) → Bool
unless_absent none test = true
unless_absent (some a) test = test a

-- `a >= b` of two dates, false where one is invalid
abbrev pub not_before : Option ℕ → Option ℕ → Bool
not_before (some a) (some b) = not (ltb a b)
not_before _ _ = false

-- matchesFilter(invoice, filter); `time_of` is `new Date(text).getTime()`
unfoldable pub matches_filter :
    (String → Option ℕ) → OfflineInvoiceMetadata → OfflineInvoiceFilter → Bool
matches_filter time_of invoice filter =
    unless_absent filter.status (λ statuses. any (λ s. same_status s invoice.status) statuses)
    && unless_absent filter.mode (λ m. same_mode invoice.mode m)
    && unless_absent filter.seller_nip (λ n. str_eq invoice.seller_nip n)
    && unless_absent filter.expiring_before
        (λ cutoff. not (not_before (time_of invoice.submit_by) cutoff))

abbrev pub Store : Type 0
Store = Dict OfflineInvoiceMetadata

-- InMemoryOfflineInvoiceStorage.save, get, update, delete
unfoldable pub save : OfflineInvoiceMetadata → Store → Store
save invoice store = put invoice.id invoice store

-- `updates` gives `{ ...existing, ...updates }`. `none` is a throw.
unfoldable pub update :
    String → (OfflineInvoiceMetadata → OfflineInvoiceMetadata) → Store → Option Store
update id updates store = elim (get id store) [
  | none ↦ none
  | some existing ↦ some (put id (updates existing) store)
]

abbrev pub delete : String → Store → Store
delete id store = remove id store

unfoldable pub values : Store → List OfflineInvoiceMetadata
values [] = []
values ((k, v) ∷ store) = v ∷ values store

unfoldable pub filter_invoices :
    (OfflineInvoiceMetadata → Bool) → List OfflineInvoiceMetadata → List OfflineInvoiceMetadata
filter_invoices p [] = []
filter_invoices p (i ∷ is) = let rest = filter_invoices p is in if p i then i ∷ rest else rest

-- InMemoryOfflineInvoiceStorage.list(filter)
unfoldable pub list :
    (String → Option ℕ) → Option OfflineInvoiceFilter → Store → List OfflineInvoiceMetadata
list time_of none store = values store
list time_of (some filter) store =
    filter_invoices (λ i. matches_filter time_of i filter) (values store)
