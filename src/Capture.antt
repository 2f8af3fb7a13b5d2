-- ===== src/Capture.antt =====
-- src/mintflow/application/capture: confirming drafts, editing, deleting and restoring expenses.
pub mod Errors
pub mod Dates
pub mod Changes
pub mod Database
pub mod ConfirmDraft
pub mod EditExpense
pub mod Deletion
pub mod History
