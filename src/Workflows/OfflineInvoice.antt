-- ===== src/Workflows/OfflineInvoice.antt =====
-- workflows/offline-invoice-workflow.ts: submit, over the storage in memory. What the client's calls
-- give is a value: `Session` for the opening of the session, an `Attempt` for each invoice sent.
-- The updates of one invoice throw only where its id is missing, and then the first of them throws.
pub mod Counts
pub mod Submit
pub mod Batches
pub mod Lifecycle
pub mod Endings
mod Tests
use ksef_client_ts.Base.{
  ℕ, zero, suc, ◌+◌, Bool, true, false, ◌&&◌, Option, none, some, List, [], ◌∷◌, ◌++◌, String, ltb,
  length, if◌then◌else◌, or_default,
}
use ksef_client_ts.Base.Dict.{get}
use ksef_client_ts.Offline.{
  OfflineInvoiceStatus, generated, queued, submitted, accepted, rejected, expired, InvoiceError,
  OfflineInvoiceMetadata, OfflineSubmissionResult, OfflineBatchResult,
}
use ksef_client_ts.Offline.Storage.{Store, OfflineInvoiceFilter, update, list}

-- How sending one invoice goes. `sent` is the response; the others are throws: before the update to
-- SUBMITTED by the encryption, after it a KSeFApiError or another error.
pub data Reply : Type 0 where
  sent : String → Reply
  not_encrypted : String → Reply
  api_error : ℕ → String → Reply
  other_error : String → Reply

pub record Attempt : Type 0 where
  pub submitted_at : String
  pub accepted_at : String
  pub reply : Reply

-- What the run meets: the clock and the dates of the host, the session, the invoices sent in order.
pub record World : Type 0 where
  pub now : ℕ
  pub time_of : String → Option ℕ
  pub session_opens : Bool
  pub attempt : ℕ → Attempt

pub data SubmitError : Type 0 where
  not_found : List String → SubmitError
  missing : SubmitError
  session_failed : SubmitError

-- The end of a run: the storage, the sessions closed, and the result or what was thrown.
pub data Outcome : Type 0 where
  returned : OfflineBatchResult → Outcome
  thrown : SubmitError → Outcome

pub record Run : Type 0 where
  pub store : Store
  pub closes : ℕ
  pub outcome : Outcome

-- The fields of SubmitOfflineInvoicesOptions that decide what is submitted.
pub record SubmitOptions : Type 0 where
  pub invoice_ids : Option (List String)
  pub check_expiry : Option Bool

-- isExpired(submitBy): false for an invalid date
abbrev pub is_expired : World → String → Bool
is_expired w submit_by = elim (w.time_of submit_by) [
  | none ↦ false
  | some deadline ↦ ltb deadline w.now
]

-- The invoices of the ids, and the ids that are not found.
unfoldable pub find_all : List String → Store → List OfflineInvoiceMetadata × List String
find_all [] store = ([], [])
find_all (id ∷ ids) store =
    let (found, missing_ids) = find_all ids store in
    elim (get id store) [
      | none ↦ (found, id ∷ missing_ids)
      | some invoice ↦ (invoice ∷ found, missing_ids)
    ]

abbrev pub no_result : OfflineInvoiceMetadata → OfflineInvoiceStatus → OfflineSubmissionResult
no_result i s = record {
  invoice_id = i.id;
  invoice_number = i.invoice_number;
  status = s;
  ksef_reference_number = none;
  error = none;
}

abbrev pub start_batch : ℕ → OfflineBatchResult
start_batch n = record {
  total = n;
  submitted = 0;
  accepted = 0;
  rejected = 0;
  failed = 0;
  expired = 0;
  results = [];
}

abbrev pub still_pending :
    OfflineInvoiceMetadata
    → Option (OfflineBatchResult × List OfflineInvoiceMetadata)
    → Option (OfflineBatchResult × List OfflineInvoiceMetadata)
still_pending i none = none
still_pending i (some (r, pending)) = some (r, i ∷ pending)

-- The loop that marks the expired invoices: the storage, and the result with what is pending, `none`
-- where an update throws.
unfoldable pub mark_expired :
    World
    → Bool
    → List OfflineInvoiceMetadata
    → Store
    → OfflineBatchResult
    → Store × Option (OfflineBatchResult × List OfflineInvoiceMetadata)
mark_expired w check [] store r = (store, some (r, []))
mark_expired w check (i ∷ is) store r = elim (check && is_expired w i.submit_by) [
  | true ↦ elim (update i.id (λ m. record m { status = expired }) store) [
    | none ↦ (store, none)
    | some store' ↦
        mark_expired w check is store'
          (record r { expired = r.expired + 1; results = r.results ++ no_result i expired ∷ [] })
  ]
  | false ↦ let (store', rest) = mark_expired w check is store r in (store', still_pending i rest)
]

abbrev pub failure : ℕ → String → Option InvoiceError
failure code message = some (record { code = code; message = message })

-- A further update of an invoice.
abbrev pub then_update :
    Option Store → String → (OfflineInvoiceMetadata → OfflineInvoiceMetadata) → Option Store
then_update none id updates = none
then_update (some store) id updates = update id updates store

abbrev pub with_result : Option Store → OfflineBatchResult → Option (Store × OfflineBatchResult)
with_result none r = none
with_result (some store) r = some (store, r)

abbrev pub add_accepted : OfflineBatchResult → OfflineInvoiceMetadata → String → OfflineBatchResult
add_accepted r i reference = record r {
  submitted = r.submitted + 1;
  accepted = r.accepted + 1;
  results =
      r.results ++ record (no_result i accepted) { ksef_reference_number = some reference } ∷ [];
}

abbrev pub add_rejected :
    OfflineBatchResult → OfflineInvoiceMetadata → ℕ → String → OfflineBatchResult
add_rejected r i code message = record r {
  submitted = r.submitted + 1;
  rejected = r.rejected + 1;
  results = r.results ++ record (no_result i rejected) { error = failure code message } ∷ [];
}

abbrev pub add_failed : OfflineBatchResult → OfflineInvoiceMetadata → String → OfflineBatchResult
add_failed r i message = record r {
  failed = r.failed + 1;
  results = r.results ++ record (no_result i queued) { error = failure 0 message } ∷ [];
}

-- The body of the loop over the pending invoices. `none` is the throw of an update.
unfoldable pub send_one :
    Attempt
    → OfflineInvoiceMetadata
    → Store
    → OfflineBatchResult
    → Option (Store × OfflineBatchResult)
send_one a i store r =
    let in_queue = update i.id (λ m. record m { status = queued }) store in
    let in_flight =
      then_update in_queue i.id
        (λ m. record m { status = submitted; submitted_at = some a.submitted_at }) in
    elim a.reply [
      | not_encrypted message ↦
          with_result
            (then_update in_queue i.id
              (λ m. record m { status = queued; error = failure 0 message }))
            (add_failed r i message)
      | sent reference ↦
          with_result
            (then_update in_flight i.id (λ m. record m {
              status = accepted;
              accepted_at = some a.accepted_at;
              ksef_reference_number = some reference;
            }))
            (add_accepted r i reference)
      | api_error code message ↦
          with_result
            (then_update in_flight i.id
              (λ m. record m { status = rejected; error = failure code message }))
            (add_rejected r i code message)
      | other_error message ↦
          with_result
            (then_update in_flight i.id
              (λ m. record m { status = queued; error = failure 0 message }))
            (add_failed r i message)
    ]

-- The loop over the pending invoices inside the session, which is closed whatever happens.
unfoldable pub send_all : World → ℕ → List OfflineInvoiceMetadata → Store → OfflineBatchResult → Run
send_all w n [] store r = record { store = store; closes = 1; outcome = returned r }
send_all w n (i ∷ is) store r = elim (send_one (w.attempt n) i store r) [
  | none ↦ record { store = store; closes = 1; outcome = thrown missing }
  | some (store', r') ↦ send_all w (n + 1) is store' r'
]

abbrev pub throws : Store → SubmitError → Run
throws store e = record { store = store; closes = 0; outcome = thrown e }

-- What follows once the expired invoices are marked.
unfoldable pub send_pending : World → List OfflineInvoiceMetadata → Store → OfflineBatchResult → Run
send_pending w [] store r = record { store = store; closes = 0; outcome = returned r }
send_pending w (i ∷ is) store r =
    if w.session_opens then send_all w 0 (i ∷ is) store r else throws store session_failed

-- What follows once the invoices are chosen.
unfoldable pub submit_invoices : World → Bool → List OfflineInvoiceMetadata → Store → Run
submit_invoices w check invoices store =
    let (store', rest) = mark_expired w check invoices store (start_batch (length invoices)) in
    elim rest [ none ↦ throws store' missing | some (r, pending) ↦ send_pending w pending store' r ]

abbrev pub unsent : OfflineInvoiceFilter
unsent = record {
  status = some (generated ∷ queued ∷ submitted ∷ []);
  mode = none;
  expiring_before = none;
  seller_nip = none;
}

-- submit(client, options)
unfoldable pub submit : World → SubmitOptions → Store → Run
submit w options store =
    let check = or_default options.check_expiry true in
    elim options.invoice_ids [
      | none ↦ submit_invoices w check (list w.time_of (some unsent) store) store
      | some ids ↦
          let (found, missing_ids) = find_all ids store in
          elim missing_ids [
            | [] ↦ submit_invoices w check found store
            | id ∷ more ↦ throws store (not_found (id ∷ more))
          ]
    ]
