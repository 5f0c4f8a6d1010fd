-- ===== src/Workflows.antt =====
-- workflows/: the client's multi-step procedures.
pub mod MetadataPaging
pub mod OfflineInvoice
pub mod CollectiveIdentifierPaging
pub mod HwmCoordinator
pub mod IncrementalExport
pub mod Polling
