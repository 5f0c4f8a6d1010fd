-- ===== src/Workflows/OfflineInvoice/Submit.antt =====
-- workflows/offline-invoice-workflow.ts: the steps of submit on the storage and on the result.
use ksef_client_ts.Base.{
  ℕ, suc, ◌+◌, ◌≡◌, ◌≢◌, refl, ◌∙◌, true, false, none, some, List, String, arith, str_eq,
  Option-cases, is_some, inl, inr,
}
use ksef_client_ts.Base.Dict.{get, put, get-put}
use ksef_client_ts.Offline.{
  queued, submitted, accepted, rejected, OfflineInvoiceMetadata, OfflineBatchResult,
}
use ksef_client_ts.Offline.Storage.{Store, update}
use ksef_client_ts.Workflows.OfflineInvoice.Counts.{one_if, IsTally, Adds-IsTally}
use ksef_client_ts.Workflows.OfflineInvoice.{
  Reply, sent, not_encrypted, api_error, other_error, Attempt, no_result, failure, add_accepted,
  add_rejected, add_failed, send_one,
}

abbrev pub Has : String → Store → Type 0
Has k store = is_some (get k store) ≡ true

-- A storage in which only one invoice may have changed.
pub record Changes (id : String) (before after : Store) : Type 0 where
  pub keeps : (k : String) → Has k before → Has k after
  pub only : (k : String) → str_eq id k ≡ false → get k after ≡ get k before

pub Changes-trans : (id : String) (a b c : Store) → Changes id a b → Changes id b c → Changes id a c
Changes-trans id a b c f g = record {
  keeps = λ k h. g.keeps k (f.keeps k h);
  only = λ k h. g.only k h ∙ f.only k h;
}

pub update-Changes :
    (id : String) (f : OfflineInvoiceMetadata → OfflineInvoiceMetadata) (store : Store)
    → Has id store
    → (after : Store) × (update id f store ≡ some after) × Changes id store after
unfolding update
update-Changes id f store here = elim (Option-cases (get id store)) [
  | inl nothing ↦ absurd (not_none nothing)
  | inr (m, e) ↦ (
    put id (f m) store,
    rw (update, e) refl,
    record {
      keeps = λ k h. ground (arith, get-put id k (f m) store);
      only = λ k h. ground (arith, get-put id k (f m) store);
    },
  )
]
  where
    not_none : get id store ≢ none
    not_none e = let h : is_some (get id store) ≡ false = rw e refl in cc

-- A result in which one more invoice is answered for.
abbrev pub Answers : OfflineInvoiceMetadata → OfflineBatchResult → OfflineBatchResult → Type 0
Answers i r r' =
    (batch : List OfflineInvoiceMetadata) (n : ℕ) (rest : String → ℕ)
    → IsTally batch (suc n) (λ k. one_if (str_eq i.id k) + rest k) r
    → IsTally batch n rest r'

module _ (a : Attempt) (i : OfflineInvoiceMetadata) (store : Store) (r : OfflineBatchResult) where
  abbrev pub Sends : Type 0
  Sends =
      (after : Store) × (r' : OfflineBatchResult) × (send_one a i store r ≡ some (after, r'))
      × Changes i.id store after
      × Answers i r r'

  accepted-Answers : (reference : String) → Answers i r (add_accepted r i reference)
  accepted-Answers reference batch n rest b =
      Adds-IsTally batch n rest r i b
        (record (no_result i accepted) { ksef_reference_number = some reference })
        (add_accepted r i reference)
        (refl, refl, refl, omega arith, omega arith, omega arith, omega arith, omega arith)

  rejected-Answers : (code : ℕ) (message : String) → Answers i r (add_rejected r i code message)
  rejected-Answers code message batch n rest b =
      Adds-IsTally batch n rest r i b
        (record (no_result i rejected) { error = failure code message })
        (add_rejected r i code message)
        (refl, refl, refl, omega arith, omega arith, omega arith, omega arith, omega arith)

  failed-Answers : (message : String) → Answers i r (add_failed r i message)
  failed-Answers message batch n rest b =
      Adds-IsTally batch n rest r i b (record (no_result i queued) { error = failure 0 message })
        (add_failed r i message)
        (refl, refl, refl, omega arith, omega arith, omega arith, omega arith, omega arith)

  reply-Sends :
      (s1 s2 : Store) (reply : Reply)
      → a.reply ≡ reply
      → update i.id (λ m. record m { status = queued }) store ≡ some s1
      → Changes i.id store s1
      → update i.id (λ m. record m { status = submitted; submitted_at = some a.submitted_at }) s1
        ≡ some s2
      → Changes i.id s1 s2
      → Has i.id s1
      → Sends
  unfolding send_one
  reply-Sends s1 s2 (not_encrypted message) given e1 c1 e2 c2 here =
      let (s3, e3, c3) =
        update-Changes i.id (λ m. record m { status = queued; error = failure 0 message }) s1
          here in
      (s3, _, rw (given, e1, e3) refl, Changes-trans i.id store s1 s3 c1 c3, failed-Answers message)
  reply-Sends s1 s2 (sent reference) given e1 c1 e2 c2 here =
      let (s3, e3, c3) =
        update-Changes i.id
          (λ m. record m {
            status = accepted;
            accepted_at = some a.accepted_at;
            ksef_reference_number = some reference;
          })
          s2 (c2.keeps i.id here) in
      (
        s3,
        _,
        rw (given, e1, e2, e3) refl,
        Changes-trans i.id store s1 s3 c1 (Changes-trans i.id s1 s2 s3 c2 c3),
        accepted-Answers reference,
      )
  reply-Sends s1 s2 (api_error code message) given e1 c1 e2 c2 here =
      let (s3, e3, c3) =
        update-Changes i.id (λ m. record m { status = rejected; error = failure code message }) s2
          (c2.keeps i.id here) in
      (
        s3,
        _,
        rw (given, e1, e2, e3) refl,
        Changes-trans i.id store s1 s3 c1 (Changes-trans i.id s1 s2 s3 c2 c3),
        rejected-Answers code message,
      )
  reply-Sends s1 s2 (other_error message) given e1 c1 e2 c2 here =
      let (s3, e3, c3) =
        update-Changes i.id (λ m. record m { status = queued; error = failure 0 message }) s2
          (c2.keeps i.id here) in
      (
        s3,
        _,
        rw (given, e1, e2, e3) refl,
        Changes-trans i.id store s1 s3 c1 (Changes-trans i.id s1 s2 s3 c2 c3),
        failed-Answers message,
      )

  pub send_one-Sends : Has i.id store → Sends
  send_one-Sends here =
      let (s1, e1, c1) = update-Changes i.id (λ m. record m { status = queued }) store here in
      let here1 = c1.keeps i.id here in
      let (s2, e2, c2) =
        update-Changes i.id
          (λ m. record m { status = submitted; submitted_at = some a.submitted_at }) s1 here1 in
      reply-Sends s1 s2 a.reply refl e1 c1 e2 c2 here1
