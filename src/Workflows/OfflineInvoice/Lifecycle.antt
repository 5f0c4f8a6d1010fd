-- ===== src/Workflows/OfflineInvoice/Lifecycle.antt =====
-- workflows/offline-invoice-workflow.ts: what submit does to the invoices of the storage.
use ksef_client_ts.Base.{
  ℕ, ◌≡◌, ◌≢◌, refl, sym, ap, ◌∙◌, Bool, true, false, Option, none, some, List, [], ◌∷◌, String,
  or_default, All, str_eq, eq_iff, Bool-cases, inl, inr,
}
use ksef_client_ts.Base.Dict.{get, put, get-put}
use ksef_client_ts.Offline.{
  OfflineInvoiceStatus, generated, queued, submitted, accepted, rejected, corrected, expired,
  OfflineInvoiceMetadata, OfflineBatchResult,
}
use ksef_client_ts.Offline.Storage.{Store, update, list, values, filter_invoices, matches_filter}
use ksef_client_ts.Workflows.OfflineInvoice.{
  World, missing, Run, SubmitOptions, is_expired, no_result, start_batch, mark_expired, throws,
  send_pending, submit_invoices, submit, find_all, unsent,
}
use ksef_client_ts.Workflows.OfflineInvoice.Submit.{Has}
use ksef_client_ts.Workflows.OfflineInvoice.Batches.{Absent, AllStored, submit_invoices-Ends}

-- Every invoice is stored under its own id, once.
abbrev pub IsValid : Store → Type 0
IsValid [] = Unit
IsValid ((k, i) ∷ store) = (i.id ≡ k) × (get k store ≡ none) × IsValid store

abbrev pub StoredIn : Store → List OfflineInvoiceMetadata → Type 0
StoredIn store = All (λ i. get i.id store ≡ some i)

pub get-id :
    (k : String) (i : OfflineInvoiceMetadata) (store : Store)
    → IsValid store
    → get k store ≡ some i
    → i.id ≡ k
unfolding get
get-id k i [] v e = cc
get-id k i ((j, m) ∷ store) (own, fresh, v) e = elim (Bool-cases (str_eq j k)) [
  | inl same ↦
      let h : some m ≡ some i = rw (sym e, same) refl in
      let g : m ≡ i = cc in
      sym (ap (λ (x : OfflineInvoiceMetadata). x.id) g) ∙ own ∙ (eq_iff j k).0 same
  | inr other ↦ get-id k i store v (rw (sym e, other) refl)
]

StoredIn-cons :
    (k : String) (m : OfflineInvoiceMetadata) (store : Store) (is : List OfflineInvoiceMetadata)
    → get k store ≡ none
    → StoredIn store is
    → StoredIn ((k, m) ∷ store) is
unfolding get
StoredIn-cons k m store [] fresh h = tt
StoredIn-cons k m store (i ∷ is) fresh (here, h) = elim (Bool-cases (str_eq k i.id)) [
  | inl same ↦
      let e : none ≡ some i = sym fresh ∙ ap (λ x. get x store) ((eq_iff k i.id).0 same) ∙ here in
      cc
  | inr other ↦ (rw other here, StoredIn-cons k m store is fresh h)
]

pub values-StoredIn : (store : Store) → IsValid store → StoredIn store (values store)
unfolding values get
values-StoredIn [] v = tt
values-StoredIn ((k, i) ∷ store) (own, fresh, v) =
    let same = (eq_iff k i.id).1 (sym own) in
    (rw same refl, StoredIn-cons k i store (values store) fresh (values-StoredIn store v))

pub All-filter_invoices :
    (P : OfflineInvoiceMetadata → Type 0) (p : OfflineInvoiceMetadata → Bool)
    (is : List OfflineInvoiceMetadata)
    → All P is
    → All (λ i. P i × (p i ≡ true)) (filter_invoices p is)
unfolding filter_invoices
All-filter_invoices P p [] h = tt
All-filter_invoices P p (i ∷ is) (here, h) = elim (Bool-cases (p i)) [
  | inl kept ↦ rw kept ((here, kept), All-filter_invoices P p is h)
  | inr dropped ↦ rw dropped (All-filter_invoices P p is h)
]

pub stored_is_some :
    (k : String) (i : OfflineInvoiceMetadata) (store : Store) → get k store ≡ some i → Has k store
stored_is_some k i store e = rw e refl

pub StoredIn-AllStored :
    (store : Store) (q : OfflineInvoiceMetadata → Type 0) (is : List OfflineInvoiceMetadata)
    → All (λ i. (get i.id store ≡ some i) × q i) is
    → AllStored is store
StoredIn-AllStored store q [] h = tt
StoredIn-AllStored store q (i ∷ is) ((here, _), h) =
    (stored_is_some i.id i store here, StoredIn-AllStored store q is h)

-- Whether the list of unsent invoices takes a status.
abbrev pub is_unsent : OfflineInvoiceStatus → Bool
is_unsent generated = true
is_unsent queued = true
is_unsent submitted = true
is_unsent _ = false

pub matches-unsent :
    (time_of : String → Option ℕ) (i : OfflineInvoiceMetadata) (s : OfflineInvoiceStatus)
    → i.status ≡ s
    → matches_filter time_of i unsent ≡ true
    → is_unsent s ≡ true
unfolding matches_filter
matches-unsent time_of i generated at h = refl
matches-unsent time_of i queued at h = refl
matches-unsent time_of i submitted at h = refl
matches-unsent time_of i accepted at h = let g : false ≡ true = sym (rw at refl) ∙ h in cc
matches-unsent time_of i rejected at h = let g : false ≡ true = sym (rw at refl) ∙ h in cc
matches-unsent time_of i corrected at h = let g : false ≡ true = sym (rw at refl) ∙ h in cc
matches-unsent time_of i expired at h = let g : false ≡ true = sym (rw at refl) ∙ h in cc

finished-Absent :
    (time_of : String → Option ℕ) (store : Store) (k : String) (m : OfflineInvoiceMetadata)
    → get k store ≡ some m
    → is_unsent m.status ≡ false
    → (is : List OfflineInvoiceMetadata)
    → All (λ i. (get i.id store ≡ some i) × (matches_filter time_of i unsent ≡ true)) is
    → Absent k is
finished-Absent time_of store k m stored over [] h = tt
finished-Absent time_of store k m stored over (i ∷ is) ((here, listed), h) = (
  elim (Bool-cases (str_eq i.id k)) [
    | inr other ↦ other
    | inl same ↦
        let e : some i ≡ some m =
          sym here ∙ ap (λ x. get x store) ((eq_iff i.id k).0 same) ∙ stored in
        let g : i ≡ m = cc in
        let u = matches-unsent time_of i i.status refl listed in
        absurd (clash (ap (λ (x : OfflineInvoiceMetadata). is_unsent x.status) (sym g) ∙ u))
  ],
  finished-Absent time_of store k m stored over is h,
)
  where
    clash : is_unsent m.status ≢ true
    clash e = let c : false ≡ true = sym over ∙ e in cc

-- A submit of all unsent invoices leaves those alone that are accepted, rejected, corrected or
-- expired: they stand in the storage as before.
pub submit_leaves_finished :
    (w : World) (options : SubmitOptions) (store : Store) (k : String) (m : OfflineInvoiceMetadata)
    → IsValid store
    → options.invoice_ids ≡ none
    → get k store ≡ some m
    → is_unsent m.status ≡ false
    → get k (submit w options store).store ≡ some m
unfolding submit list
submit_leaves_finished w options store k m v all stored over =
    let listed =
      All-filter_invoices (λ i. get i.id store ≡ some i) (λ i. matches_filter w.time_of i unsent)
        (values store) (values-StoredIn store v) in
    let t =
      (submit_invoices-Ends w (or_default options.check_expiry true) _ store
        (StoredIn-AllStored store _ _ listed)).1 in
    rw (submit, all) (t.only k (finished-Absent w.time_of store k m stored over _ listed) ∙ stored)

update-some :
    (id : String) (f : OfflineInvoiceMetadata → OfflineInvoiceMetadata) (store : Store)
    (m : OfflineInvoiceMetadata)
    → get id store ≡ some m
    → update id f store ≡ some (put id (f m) store)
unfolding update
update-some id f store m e = rw (update, e) refl

find_one :
    (k : String) (store : Store) (m : OfflineInvoiceMetadata)
    → get k store ≡ some m
    → find_all (k ∷ []) store ≡ (m ∷ [], [])
unfolding find_all
find_one k store m e = rw (find_all, e) refl

submit_one :
    (w : World) (options : SubmitOptions) (store : Store) (k : String) (m : OfflineInvoiceMetadata)
    → get k store ≡ some m
    → options.invoice_ids ≡ some (k ∷ [])
    → options.check_expiry ≡ none
    → submit w options store ≡ submit_invoices w true (m ∷ []) store
unfolding submit
submit_one w options store k m stored chosen default =
    rw (submit, chosen, find_one k store m stored, default)
      (ap (λ (x : List OfflineInvoiceMetadata × List String). submit_invoices w true x.0 store)
        (find_one k store m stored))

expires_one :
    (w : World) (m : OfflineInvoiceMetadata) (store after : Store)
    → update m.id (λ x. record x { status = expired }) store ≡ some after
    → is_expired w m.submit_by ≡ true
    → (submit_invoices w true (m ∷ []) store).store ≡ after
unfolding submit_invoices mark_expired send_pending
expires_one w m store after e late =
    let marked : mark_expired w true (m ∷ []) store (start_batch 1) ≡ (
      after,
      some (record (start_batch 1) { expired = 1; results = no_result m expired ∷ [] }, []),
    ) =
      rw (mark_expired, late, e) refl in
    let next : Store × Option (OfflineBatchResult × List OfflineInvoiceMetadata) → Run = λ x.
      elim x.1 [ none ↦ throws x.0 missing | some (r, pending) ↦ send_pending w pending x.0 r ] in
    ap (λ x. (next x).store) marked

-- On a storage that keeps each invoice under its own id, a submit with the id of one stored invoice
-- and the default check of deadlines leaves that invoice, when it is past its deadline, with the
-- status EXPIRED and otherwise as it was, whatever its status was.
pub submit_expires_any :
    (w : World) (options : SubmitOptions) (store : Store) (k : String) (m : OfflineInvoiceMetadata)
    → IsValid store
    → get k store ≡ some m
    → options.invoice_ids ≡ some (k ∷ [])
    → options.check_expiry ≡ none
    → is_expired w m.submit_by ≡ true
    → get k (submit w options store).store ≡ some (record m { status = expired })
submit_expires_any w options store k m v stored chosen default late =
    let own = get-id k m store v stored in
    let found = ap (λ x. get x store) own ∙ stored in
    let m' : OfflineInvoiceMetadata = record m { status = expired } in
    let same : str_eq m.id k ≡ true = (eq_iff m.id k).1 own in
    let e = update-some m.id (λ x. record x { status = expired }) store m found in
    ap (λ (r : Run). get k r.store) (submit_one w options store k m stored chosen default)
    ∙ ap (get k) (expires_one w m store (put m.id m' store) e late)
    ∙ get-put m.id k m' store
    ∙ rw same refl
