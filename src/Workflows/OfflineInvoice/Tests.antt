-- ===== src/Workflows/OfflineInvoice/Tests.antt =====
-- Examples of workflows/offline-invoice-workflow.ts: a storage of an accepted and a new invoice.
use ksef_client_ts.Base.{ℕ, ◌≡◌, refl, true, Option, none, some, [], ◌∷◌, String}
use ksef_client_ts.Base.Dict.{get, put}
use ksef_client_ts.Offline.{
  offline24, planned, OfflineInvoiceStatus, generated, accepted, expired, OfflineInvoiceMetadata,
}
use ksef_client_ts.Offline.Storage.{Store, update, list, values, filter_invoices, matches_filter}
use ksef_client_ts.Workflows.OfflineInvoice.{
  sent, api_error, World, Outcome, returned, SubmitOptions, submit, submit_invoices, mark_expired,
  send_pending, send_all, send_one,
}
use ksef_client_ts.Workflows.OfflineInvoice.Endings.{Ends, submit-Ends}
use ksef_client_ts.Workflows.OfflineInvoice.Lifecycle.{submit_leaves_finished, submit_expires_any}

abbrev invoice : String → OfflineInvoiceStatus → String → OfflineInvoiceMetadata
invoice id status submit_by = record {
  id = id;
  mode = offline24;
  reason = planned;
  status = status;
  invoice_number = "FV/1";
  invoice_date = "2026-01-15";
  invoice_xml = "<Faktura/>";
  seller_nip = "5265877635";
  seller_identifier = record { type = "Nip"; value = "5265877635" };
  buyer_identifier = none;
  total_amount = none;
  currency = none;
  kod1_url = "";
  kod2_url = none;
  generated_at = "2026-01-15";
  submit_by = submit_by;
  submitted_at = none;
  accepted_at = none;
  ksef_reference_number = none;
  error = none;
  maintenance_window_id = none;
  corrected_invoice_id = none;
  corrected_by = none;
}

abbrev late_time : String → Option ℕ
late_time text = some 10

-- The deadlines are over.
abbrev late : World
late = record {
  now = 20;
  time_of = late_time;
  session_opens = true;
  attempt = λ n. record { submitted_at = "t1"; accepted_at = "t2"; reply = sent "ref" };
}

-- The deadlines are to come, and the server refuses.
abbrev refusing : World
refusing = record late {
  now = 5;
  attempt = λ n. record { submitted_at = "t1"; accepted_at = "t2"; reply = api_error 400 "bad" };
}

abbrev two : Store
two = ("a", invoice "a" accepted "2026-01-16") ∷ ("b", invoice "b" generated "2026-01-16") ∷ []

abbrev everything : SubmitOptions
everything = record { invoice_ids = none; check_expiry = none }

abbrev only_a : SubmitOptions
only_a = record { invoice_ids = some ("a" ∷ []); check_expiry = none }

abbrev rejected_count : Outcome → ℕ
rejected_count (returned r) = r.rejected
rejected_count _ = 0

refused_once : rejected_count (submit refusing everything two).outcome ≡ 1
unfolding submit submit_invoices mark_expired send_pending send_all send_one update list values
    filter_invoices matches_filter get put
refused_once = refl

submit-Ends_example : Ends refusing none two (submit refusing everything two).outcome
unfolding get
submit-Ends_example = submit-Ends refusing everything two (refl, refl, (refl, refl, tt))

submit_leaves_finished_example :
    get "a" (submit late everything two).store ≡ some (invoice "a" accepted "2026-01-16")
unfolding get
submit_leaves_finished_example =
    submit_leaves_finished late everything two "a" (invoice "a" accepted "2026-01-16")
      (refl, refl, (refl, refl, tt)) refl refl refl

submit_expires_any_example :
    get "a" (submit late only_a two).store ≡ some (invoice "a" expired "2026-01-16")
unfolding get
submit_expires_any_example =
    submit_expires_any late only_a two "a" (invoice "a" accepted "2026-01-16")
      (refl, refl, (refl, refl, tt)) refl refl refl refl
