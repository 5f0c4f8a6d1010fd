-- ===== src/Offline.antt =====
-- offline/types.ts: an invoice that was issued offline, and its states.
pub mod Storage
pub mod Holidays
pub mod Deadline
use ksef_client_ts.Base.Number.{Number}
use ksef_client_ts.Base.{ℕ, Bool, true, false, Option, String, List}

pub data OfflineMode : Type 0 where
  offline24 offline awaryjny awaria_calkowita : OfflineMode

pub data OfflineReason : Type 0 where
  planned system_unavailable emergency total_failure : OfflineReason

pub data OfflineInvoiceStatus : Type 0 where
  generated queued submitted accepted rejected corrected expired : OfflineInvoiceStatus

pub record ContextIdentifier : Type 0 where
  pub type : String
  pub value : String

pub record InvoiceError : Type 0 where
  pub code : ℕ
  pub message : String

pub record OfflineInvoiceMetadata : Type 0 where
  pub id : String
  pub mode : OfflineMode
  pub reason : OfflineReason
  pub status : OfflineInvoiceStatus
  pub invoice_number : String
  pub invoice_date : String
  pub invoice_xml : String
  pub seller_nip : String
  pub seller_identifier : ContextIdentifier
  pub buyer_identifier : Option ContextIdentifier
  pub total_amount : Option Number
  pub currency : Option String
  pub kod1_url : String
  pub kod2_url : Option String
  pub generated_at : String
  pub submit_by : String
  pub submitted_at : Option String
  pub accepted_at : Option String
  pub ksef_reference_number : Option String
  pub error : Option InvoiceError
  pub maintenance_window_id : Option String
  pub corrected_invoice_id : Option String
  pub corrected_by : Option String

pub record OfflineSubmissionResult : Type 0 where
  pub invoice_id : String
  pub invoice_number : String
  pub status : OfflineInvoiceStatus
  pub ksef_reference_number : Option String
  pub error : Option InvoiceError

pub record OfflineBatchResult : Type 0 where
  pub total : ℕ
  pub submitted : ℕ
  pub accepted : ℕ
  pub rejected : ℕ
  pub failed : ℕ
  pub expired : ℕ
  pub results : List OfflineSubmissionResult

-- `a === b` on modes and on statuses
abbrev pub same_mode : OfflineMode → OfflineMode → Bool
same_mode offline24 offline24 = true
same_mode offline offline = true
same_mode awaryjny awaryjny = true
same_mode awaria_calkowita awaria_calkowita = true
same_mode _ _ = false

abbrev pub same_status : OfflineInvoiceStatus → OfflineInvoiceStatus → Bool
same_status generated generated = true
same_status queued queued = true
same_status submitted submitted = true
same_status accepted accepted = true
same_status rejected rejected = true
same_status corrected corrected = true
same_status expired expired = true
same_status _ _ = false
