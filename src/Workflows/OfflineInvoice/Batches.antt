-- ===== src/Workflows/OfflineInvoice/Batches.antt =====
-- workflows/offline-invoice-workflow.ts: a whole batch of submit.
use ksef_client_ts.Base.{
  ℕ, suc, ◌+◌, ◌≡◌, ◌⊎◌, refl, ◌∙◌, Bool, false, ◌&&◌, some, List, [], ◌∷◌, ◌++◌, String, arith,
  length, All, str_eq, Bool-cases, inl, inr,
}
use ksef_client_ts.Base.Dict.{get}
use ksef_client_ts.Offline.{expired, OfflineInvoiceMetadata, OfflineBatchResult}
use ksef_client_ts.Offline.Storage.{Store}
use ksef_client_ts.Workflows.OfflineInvoice.{
  World, session_failed, returned, thrown, Run, is_expired, no_result, start_batch, mark_expired,
  send_all, send_pending, submit_invoices,
}
use ksef_client_ts.Workflows.OfflineInvoice.Counts.{
  one_if, places, IsTally, IsComplete, IsTally-rest, start-IsTally, Adds-IsTally,
}
use ksef_client_ts.Workflows.OfflineInvoice.Submit.{Has, Changes, update-Changes, send_one-Sends}

abbrev pub Absent : String → List OfflineInvoiceMetadata → Type 0
Absent k = All (λ i. str_eq i.id k ≡ false)

abbrev pub AllStored : List OfflineInvoiceMetadata → Store → Type 0
AllStored is store = All (λ i. Has i.id store) is

-- A storage in which only the invoices of a list may have changed.
pub record Touches (is : List OfflineInvoiceMetadata) (before after : Store) : Type 0 where
  pub keeps : (k : String) → Has k before → Has k after
  pub only : (k : String) → Absent k is → get k after ≡ get k before

AllStored-keeps :
    (before after : Store)
    → ((k : String) → Has k before → Has k after)
    → (is : List OfflineInvoiceMetadata) → AllStored is before
    → AllStored is after
AllStored-keeps before after keeps [] h = tt
AllStored-keeps before after keeps (i ∷ is) (here, h) =
    (keeps i.id here, AllStored-keeps before after keeps is h)

cons-Touches :
    (i : OfflineInvoiceMetadata) (is : List OfflineInvoiceMetadata) (a b c : Store)
    → Changes i.id a b
    → Touches is b c
    → Touches (i ∷ is) a c
cons-Touches i is a b c f g = record {
  keeps = λ k h. g.keeps k (f.keeps k h);
  only = λ k h. g.only k h.1 ∙ f.only k h.0;
}

skip-Touches :
    (i : OfflineInvoiceMetadata) (is : List OfflineInvoiceMetadata) (a b : Store)
    → Touches is a b
    → Touches (i ∷ is) a b
skip-Touches i is a b g = record { keeps = g.keeps; only = λ k h. g.only k h.1 }

no-Touches : (store : Store) → Touches [] store store
no-Touches store = record { keeps = λ k h. h; only = λ k h. refl }

module _ (w : World) (batch : List OfflineInvoiceMetadata) where
  abbrev pub Completes : List OfflineInvoiceMetadata → Store → Run → Type 0
  Completes is store run =
      (r : OfflineBatchResult) × (run.outcome ≡ returned r)
      × IsComplete batch r
      × Touches is store run.store

  pub send_all-Completes :
      (n : ℕ) (is : List OfflineInvoiceMetadata) (store : Store) (r : OfflineBatchResult)
      → AllStored is store
      → IsTally batch (length is) (λ k. places k is) r
      → Completes is store (send_all w n is store r)
  unfolding send_all
  send_all-Completes n [] store r h b = (r, refl, b, no-Touches store)
  send_all-Completes n (i ∷ is) store r (here, h) b =
      let (store', r', e, c, next) = send_one-Sends (w.attempt n) i store r here in
      let (r'', done, balanced, t) =
        send_all-Completes (n + 1) is store' r' (AllStored-keeps store store' c.keeps is h)
          (next batch (length is) (λ k. places k is) b) in
      rw (send_all, e) (r'', done, balanced, cons-Touches i is store store' _ c t)

  module _ (check : Bool) where
    abbrev pub Marks :
        ℕ → (String → ℕ) → List OfflineInvoiceMetadata → Store → OfflineBatchResult → Type 0
    Marks n held is store r =
        let (after, rest) = mark_expired w check is store r in
        (r' : OfflineBatchResult) × (pending : List OfflineInvoiceMetadata) × (rest
          ≡ some (r', pending))
        × IsTally batch (n + length pending) (λ k. held k + places k pending) r'
        × Touches is store after
        × AllStored pending after
        × ((k : String) → Absent k is → Absent k pending)

    pub mark_expired-Marks :
        (n : ℕ) (held : String → ℕ) (is : List OfflineInvoiceMetadata) (store : Store)
        (r : OfflineBatchResult)
        → AllStored is store
        → IsTally batch (n + length is) (λ k. held k + places k is) r
        → Marks n held is store r
    unfolding mark_expired
    mark_expired-Marks n held [] store r h b = (r, [], refl, b, no-Touches store, tt, λ k a. tt)
    mark_expired-Marks n held (i ∷ is) store r (here, h) b =
        elim (Bool-cases (check && is_expired w i.submit_by)) [
          | inl late ↦
              let (store', e, c) =
                update-Changes i.id (λ m. record m { status = expired }) store here in
              let r1 : OfflineBatchResult = record r {
                expired = r.expired + 1;
                results = r.results ++ no_result i expired ∷ [];
              } in
              let b0 =
                IsTally-rest batch (n + length (i ∷ is)) (suc (n + length is))
                  (λ k. held k + places k (i ∷ is))
                  (λ k. one_if (str_eq i.id k) + (held k + places k is)) r (omega arith)
                  (λ k. omega arith) b in
              let b1 =
                Adds-IsTally batch (n + length is) (λ k. held k + places k is) r i b0
                  (no_result i expired) r1
                  (
                    refl,
                    refl,
                    refl,
                    omega arith,
                    omega arith,
                    omega arith,
                    omega arith,
                    omega arith,
                  ) in
              let (r', pending, same, b', t, stored, sub) =
                mark_expired-Marks n held is store' r1 (AllStored-keeps store store' c.keeps is h)
                  b1 in
              rw (mark_expired, late, e)
                (
                  r',
                  pending,
                  same,
                  b',
                  cons-Touches i is store store' _ c t,
                  stored,
                  λ k a. sub k a.1,
                )
          | inr open_still ↦
              let held' : String → ℕ = λ k. held k + one_if (str_eq i.id k) in
              let b1 =
                IsTally-rest batch (n + length (i ∷ is)) ((n + 1) + length is)
                  (λ k. held k + places k (i ∷ is)) (λ k. held' k + places k is) r (omega arith)
                  (λ k. omega arith) b in
              let (r', pending, same, b', t, stored, sub) =
                mark_expired-Marks (n + 1) held' is store r h b1 in
              let b2 =
                IsTally-rest batch ((n + 1) + length pending) (n + length (i ∷ pending))
                  (λ k. held' k + places k pending) (λ k. held k + places k (i ∷ pending)) r'
                  (omega arith) (λ k. omega arith) b' in
              let after = (mark_expired w check is store r).0 in
              rw (mark_expired, open_still, same)
                (
                  r',
                  i ∷ pending,
                  refl,
                  b2,
                  skip-Touches i is store after t,
                  (t.keeps i.id here, stored),
                  λ k a. (a.0, sub k a.1),
                )
        ]

    -- With the session open, the batch is done to its end; otherwise the invoices that are not
    -- expired are left for later.
    abbrev pub Ends : List OfflineInvoiceMetadata → Store → Run → Type 0
    Ends is store run =
        ((r : OfflineBatchResult) × (run.outcome ≡ returned r) × IsComplete batch r)
        ⊎ ((run.outcome ≡ thrown session_failed) × (w.session_opens ≡ false))

    send_pending-Ends :
        (pending : List OfflineInvoiceMetadata) (store : Store) (r : OfflineBatchResult)
        → AllStored pending store
        → IsTally batch (length pending) (λ k. places k pending) r
        → Ends pending store (send_pending w pending store r)
          × Touches pending store (send_pending w pending store r).store
    unfolding send_pending send_all
    send_pending-Ends [] store r h b = (inl (r, refl, b), no-Touches store)
    send_pending-Ends (i ∷ is) store r h b = elim (Bool-cases w.session_opens) [
      | inl opens ↦
          let (r', done, balanced, t) = send_all-Completes 0 (i ∷ is) store r h b in
          rw (send_pending, opens) (inl (r', done, balanced), t)
      | inr fails ↦
          rw (send_pending, fails)
            (inr (refl, refl), record { keeps = λ k h. h; only = λ k a. refl })
    ]

module _ (w : World) (check : Bool) where
  pub submit_invoices-Ends :
      (is : List OfflineInvoiceMetadata) (store : Store)
      → AllStored is store
      → Ends w is check is store (submit_invoices w check is store)
        × Touches is store (submit_invoices w check is store).store
  unfolding submit_invoices
  submit_invoices-Ends is store h =
      let b =
        IsTally-rest is (length is) (0 + length is) (λ k. places k is) (λ k. 0 + places k is)
          (start_batch (length is)) (omega arith) (λ k. omega arith)
          (start-IsTally is (start_batch (length is)) refl) in
      let (r, pending, same, b', t, stored, sub) =
        mark_expired-Marks w is check 0 (λ k. 0) is store (start_batch (length is)) h b in
      let b1 =
        IsTally-rest is (0 + length pending) (length pending) (λ k. 0 + places k pending)
          (λ k. places k pending) r (omega arith) (λ k. omega arith) b' in
      let after = (mark_expired w check is store (start_batch (length is))).0 in
      let (ending, t') = send_pending-Ends w is check pending after r stored b1 in
      rw (submit_invoices, same)
        (
          ending,
          record {
            keeps = λ k p. t'.keeps k (t.keeps k p);
            only = λ k a. t'.only k (sub k a) ∙ t.only k a;
          },
        )
