-- ===== src/Workflows/OfflineInvoice/Endings.antt =====
-- workflows/offline-invoice-workflow.ts: which invoices a submit is about, and how it ends.
use ksef_client_ts.Base.{
  ℕ, ◌≡◌, ◌⊎◌, refl, Bool, true, false, ◌||◌, Option, none, some, List, [], ◌∷◌, String, or_default,
  All, str_eq, eq_iff, Bool-cases, Option-cases, inl, inr,
}
use ksef_client_ts.Base.Dict.{get}
use ksef_client_ts.Offline.{
  OfflineInvoiceStatus, generated, queued, submitted, accepted, rejected, corrected, expired,
  OfflineInvoiceMetadata, OfflineBatchResult,
}
use ksef_client_ts.Offline.Storage.{Store, list, values, filter_invoices, matches_filter}
use ksef_client_ts.Workflows.OfflineInvoice.{
  World, not_found, session_failed, Outcome, returned, thrown, SubmitOptions, submit_invoices,
  submit, find_all, unsent,
}
use ksef_client_ts.Workflows.OfflineInvoice.Submit.{Has}
use ksef_client_ts.Workflows.OfflineInvoice.Counts.{IsComplete}
use ksef_client_ts.Workflows.OfflineInvoice.Batches.{AllStored, submit_invoices-Ends}
use ksef_client_ts.Workflows.OfflineInvoice.Lifecycle.{
  IsValid, get-id, stored_is_some, values-StoredIn, All-filter_invoices, StoredIn-AllStored,
  is_unsent,
}

-- The invoices that are stored under some ids, in their order.
abbrev pub AreStored : Store → List String → List OfflineInvoiceMetadata → Type 0
AreStored store [] [] = Unit
AreStored store [] (i ∷ is) = ⊥
AreStored store (id ∷ ids) [] = ⊥
AreStored store (id ∷ ids) (i ∷ is) = (get id store ≡ some i) × AreStored store ids is

-- The batch of a submit: the invoices of the given ids, or without ids every stored invoice that is
-- generated, queued or submitted.
abbrev pub IsBatch : Option (List String) → Store → List OfflineInvoiceMetadata → Type 0
IsBatch none store batch = batch ≡ filter_invoices (λ i. is_unsent i.status) (values store)
IsBatch (some ids) store batch = AreStored store ids batch

abbrev pub includes : String → List String → Bool
includes k [] = false
includes k (id ∷ ids) = str_eq id k || includes k ids

-- Some of the given ids, each of which is not stored.
abbrev pub AreLost : Store → Option (List String) → List String → Type 0
AreLost store none lost = ⊥
AreLost store (some ids) lost = All (λ k. (get k store ≡ none) × (includes k ids ≡ true)) lost

-- How a run of submit may end.
pub data Ends (w : World) (chosen : Option (List String)) (store : Store) : Outcome → Type 0 where
  with_result :
      (batch : List OfflineInvoiceMetadata) (r : OfflineBatchResult)
      → IsBatch chosen store batch
      → IsComplete batch r
      → Ends w chosen store (returned r)
  ids_missing :
      (id : String) (ids : List String)
      → AreLost store chosen (id ∷ ids)
      → Ends w chosen store (thrown (not_found (id ∷ ids)))
  no_session : w.session_opens ≡ false → Ends w chosen store (thrown session_failed)

find_all-AllStored :
    (ids : List String) (store : Store) → IsValid store → AllStored (find_all ids store).0 store
unfolding find_all
find_all-AllStored [] store v = tt
find_all-AllStored (id ∷ ids) store v = elim (Option-cases (get id store)) [
  | inl nothing ↦ rw (find_all, nothing) (find_all-AllStored ids store v)
  | inr (i, found) ↦
      let own = get-id id i store v found in
      let here : Has i.id store = rw own (stored_is_some id i store found) in
      rw (find_all, found) (here, find_all-AllStored ids store v)
]

find_all-AreStored :
    (ids : List String) (store : Store)
    → (find_all ids store).1 ≡ []
    → AreStored store ids (find_all ids store).0
unfolding find_all
find_all-AreStored [] store h = tt
find_all-AreStored (id ∷ ids) store h = elim (Option-cases (get id store)) [
  | inl nothing ↦ let e : id ∷ (find_all ids store).1 ≡ [] = rw (find_all, nothing) at h in cc
  | inr (i, found) ↦
      let e : (find_all ids store).1 ≡ [] = rw (find_all, found) at h in
      rw (find_all, found) (found, find_all-AreStored ids store e)
]

find_all_lost :
    (P : String → Type 0) (ids : List String) (store : Store)
    → All P ids
    → All (λ k. (get k store ≡ none) × P k) (find_all ids store).1
unfolding find_all
find_all_lost P [] store h = tt
find_all_lost P (id ∷ ids) store (here, h) = elim (Option-cases (get id store)) [
  | inl nothing ↦ rw (find_all, nothing) ((nothing, here), find_all_lost P ids store h)
  | inr (i, found) ↦ rw (find_all, found) (find_all_lost P ids store h)
]

includes-cons :
    (id : String) (ids ks : List String)
    → All (λ k. includes k ids ≡ true) ks
    → All (λ k. includes k (id ∷ ids) ≡ true) ks
includes-cons id ids [] h = tt
includes-cons id ids (k ∷ ks) (here, h) = (
  elim (Bool-cases (str_eq id k)) [ inl same ↦ rw same refl | inr other ↦ rw other here ],
  includes-cons id ids ks h,
)

all_included : (ids : List String) → All (λ k. includes k ids ≡ true) ids
all_included [] = tt
all_included (id ∷ ids) =
    (rw ((eq_iff id id).1 refl) refl, includes-cons id ids ids (all_included ids))

List-cases {ℓ} : {A : Type ℓ} (xs : List A) → (xs ≡ []) ⊎ ((x : A) × (ys : List A) × (xs ≡ x ∷ ys))
List-cases [] = inl refl
List-cases (x ∷ xs) = inr (x, xs, refl)

matches_unsent_status :
    (time_of : String → Option ℕ) (i : OfflineInvoiceMetadata) (s : OfflineInvoiceStatus)
    → i.status ≡ s
    → matches_filter time_of i unsent ≡ is_unsent s
unfolding matches_filter
matches_unsent_status time_of i generated at = rw (matches_filter, at) refl
matches_unsent_status time_of i queued at = rw (matches_filter, at) refl
matches_unsent_status time_of i submitted at = rw (matches_filter, at) refl
matches_unsent_status time_of i accepted at = rw (matches_filter, at) refl
matches_unsent_status time_of i rejected at = rw (matches_filter, at) refl
matches_unsent_status time_of i corrected at = rw (matches_filter, at) refl
matches_unsent_status time_of i expired at = rw (matches_filter, at) refl

filter_invoices-agree :
    (p q : OfflineInvoiceMetadata → Bool)
    → ((i : OfflineInvoiceMetadata) → p i ≡ q i)
    → (is : List OfflineInvoiceMetadata) → filter_invoices p is ≡ filter_invoices q is
unfolding filter_invoices
filter_invoices-agree p q same [] = refl
filter_invoices-agree p q same (i ∷ is) =
    rw (filter_invoices, same i, filter_invoices-agree p q same is) refl

batch-Ends :
    (w : World) (chosen : Option (List String)) (check : Bool) (is : List OfflineInvoiceMetadata)
    (store : Store)
    → AllStored is store
    → IsBatch chosen store is
    → Ends w chosen store (submit_invoices w check is store).outcome
batch-Ends w chosen check is store h found = elim (submit_invoices-Ends w check is store h).0 [
  | inl (r, done, balanced) ↦ rw done (with_result is r found balanced)
  | inr (failed, closed) ↦ rw failed (no_session closed)
]

-- On a storage that keeps each invoice under its own id, submit ends in one of three ways. It
-- returns a result for its batch, the invoices of the given ids or without ids all that are
-- generated, queued or submitted: the total is the length of the batch, the entries of each invoice
-- are as many as its places in the batch, and the accepted, rejected, failed and expired are the
-- numbers of entries with that status, where a failed invoice is queued again. Or it throws some of
-- the given ids, none of which is stored, as not found. Or no session opens, and it throws that.
pub submit-Ends :
    (w : World) (options : SubmitOptions) (store : Store)
    → IsValid store
    → Ends w options.invoice_ids store (submit w options store).outcome
unfolding submit list
submit-Ends w options store v = elim (Option-cases options.invoice_ids) [
  | inl all ↦
      let listed =
        All-filter_invoices (λ i. get i.id store ≡ some i) (λ i. matches_filter w.time_of i unsent)
          (values store) (values-StoredIn store v) in
      let agree : IsBatch none store (list w.time_of (some unsent) store) =
        (filter_invoices-agree _ (λ i. is_unsent i.status)
          (λ i. matches_unsent_status w.time_of i i.status refl) (values store)) in
      rw (submit, all)
        (batch-Ends w none (or_default options.check_expiry true) _ store
          (StoredIn-AllStored store _ _ listed) agree)
  | inr (ids, chosen) ↦ elim (List-cases (find_all ids store).1) [
    | inl found ↦
        rw (submit, chosen, found)
          (batch-Ends w (some ids) (or_default options.check_expiry true) _ store
            (find_all-AllStored ids store v) (find_all-AreStored ids store found))
    | inr (id, more, lost) ↦
        let missing_ids = find_all_lost (λ k. includes k ids ≡ true) ids store (all_included ids) in
        rw (submit, chosen, lost) (ids_missing id more (rw lost at missing_ids))
  ]
]
