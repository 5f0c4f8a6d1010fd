-- ===== src/Workflows/OfflineInvoice/Counts.antt =====
-- workflows/offline-invoice-workflow.ts: the counts of a result, and the invoices still to come.
use ksef_client_ts.Base.{
  ℕ, suc, ◌+◌, ◌≡◌, refl, ◌∙◌, Bool, true, false, List, [], ◌∷◌, ◌++◌, String, arith, length,
  length-append, str_eq,
}
use ksef_client_ts.Offline.{
  OfflineInvoiceStatus, queued, accepted, rejected, expired, OfflineInvoiceMetadata,
  OfflineSubmissionResult, OfflineBatchResult, same_status,
}

abbrev pub one_if : Bool → ℕ
one_if true = 1
one_if false = 0

-- How many entries have a status.
abbrev pub of_status : OfflineInvoiceStatus → List OfflineSubmissionResult → ℕ
of_status s [] = 0
of_status s (x ∷ xs) = one_if (same_status s x.status) + of_status s xs

-- How many entries are about an invoice.
abbrev pub entries : String → List OfflineSubmissionResult → ℕ
entries k [] = 0
entries k (x ∷ xs) = one_if (str_eq x.invoice_id k) + entries k xs

-- How many times an invoice stands in a batch.
abbrev pub places : String → List OfflineInvoiceMetadata → ℕ
places k [] = 0
places k (i ∷ is) = one_if (str_eq i.id k) + places k is

-- A result for a batch: its total, each counter as the number of entries with the status, where a
-- failed invoice is back in the queue, and the entries for each invoice, of which `rest` are to come.
pub record IsTally (batch : List OfflineInvoiceMetadata) (n : ℕ) (rest : String → ℕ)
    (r : OfflineBatchResult) : Type 0 where
  pub total : r.total ≡ length batch
  pub answered : length r.results + n ≡ length batch
  pub submitted : r.submitted ≡ r.accepted + r.rejected
  pub accepted : r.accepted ≡ of_status accepted r.results
  pub rejected : r.rejected ≡ of_status rejected r.results
  pub failed : r.failed ≡ of_status queued r.results
  pub expired : r.expired ≡ of_status expired r.results
  pub covered : (k : String) → entries k r.results + rest k ≡ places k batch

-- A result for the whole of a batch.
abbrev pub IsComplete : List OfflineInvoiceMetadata → OfflineBatchResult → Type 0
IsComplete batch = IsTally batch 0 (λ k. 0)

pub of_status-append :
    (s : OfflineInvoiceStatus) (xs : List OfflineSubmissionResult) (x : OfflineSubmissionResult)
    → of_status s (xs ++ x ∷ []) ≡ of_status s xs + one_if (same_status s x.status)
of_status-append s [] x = omega arith
of_status-append s (y ∷ xs) x = let e = of_status-append s xs x in omega arith

pub entries-append :
    (k : String) (xs : List OfflineSubmissionResult) (x : OfflineSubmissionResult)
    → entries k (xs ++ x ∷ []) ≡ entries k xs + one_if (str_eq x.invoice_id k)
entries-append k [] x = omega arith
entries-append k (y ∷ xs) x = let e = entries-append k xs x in omega arith

pub IsTally-rest :
    (batch : List OfflineInvoiceMetadata) (n m : ℕ) (f g : String → ℕ) (r : OfflineBatchResult)
    → n ≡ m
    → ((k : String) → f k ≡ g k)
    → IsTally batch n f r
    → IsTally batch m g r
IsTally-rest batch n m f g r same agree b =
    let answered = b.answered in
    record {
      total = b.total;
      answered = omega arith;
      submitted = b.submitted;
      accepted = b.accepted;
      rejected = b.rejected;
      failed = b.failed;
      expired = b.expired;
      covered = λ k. let e = agree k in let h = b.covered k in omega arith;
    }

pub start-IsTally :
    (batch : List OfflineInvoiceMetadata) (r : OfflineBatchResult)
    → r ≡ record {
      total = length batch;
      submitted = 0;
      accepted = 0;
      rejected = 0;
      failed = 0;
      expired = 0;
      results = [];
    }
    → IsTally batch (length batch) (λ k. places k batch) r
start-IsTally batch r e = rw e (record {
  total = refl;
  answered = omega arith;
  submitted = refl;
  accepted = refl;
  rejected = refl;
  failed = refl;
  expired = refl;
  covered = λ k. omega arith;
})

-- A result with one more entry, about an invoice that was to come, and one counter moved with it.
module _ (batch : List OfflineInvoiceMetadata) (n : ℕ) (rest : String → ℕ) (r : OfflineBatchResult)
    (i : OfflineInvoiceMetadata)
    (b : IsTally batch (suc n) (λ k. one_if (str_eq i.id k) + rest k) r) where
  abbrev pub Adds : OfflineSubmissionResult → OfflineBatchResult → Type 0
  Adds x r' =
      (x.invoice_id ≡ i.id)
      × (r'.results ≡ r.results ++ x ∷ [])
      × (r'.total ≡ r.total)
      × (r'.submitted
          ≡ r.submitted
            + (one_if (same_status accepted x.status) + one_if (same_status rejected x.status)))
      × (r'.accepted ≡ r.accepted + one_if (same_status accepted x.status))
      × (r'.rejected ≡ r.rejected + one_if (same_status rejected x.status))
      × (r'.failed ≡ r.failed + one_if (same_status queued x.status))
      × (r'.expired ≡ r.expired + one_if (same_status expired x.status))

  pub Adds-IsTally :
      (x : OfflineSubmissionResult) (r' : OfflineBatchResult) → Adds x r' → IsTally batch n rest r'
  Adds-IsTally x r' (about, grown, et, es, ea, er, ef, ee) =
      let l = length-append r.results (x ∷ []) in
      let answered = b.answered in
      let accepted_so_far = b.accepted in
      let rejected_so_far = b.rejected in
      let failed_so_far = b.failed in
      let expired_so_far = b.expired in
      let submitted_so_far = b.submitted in
      record {
        total = et ∙ b.total;
        answered = rw grown (omega arith);
        submitted = omega arith;
        accepted = rw grown (let e = of_status-append accepted r.results x in omega arith);
        rejected = rw grown (let e = of_status-append rejected r.results x in omega arith);
        failed = rw grown (let e = of_status-append queued r.results x in omega arith);
        expired = rw grown (let e = of_status-append expired r.results x in omega arith);
        covered = λ k.
            let e = entries-append k r.results x in
            let h = b.covered k in
            let same : one_if (str_eq x.invoice_id k) ≡ one_if (str_eq i.id k) = rw about refl in
            rw grown (omega arith);
      }
