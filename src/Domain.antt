-- ===== src/Domain.antt =====
-- src/mintflow/domain: money, values, categories, drafts, expenses, receipts and users.
pub mod Errors
pub mod Money
pub mod Values
pub mod Category
pub mod Receipt
pub mod Draft
pub mod Expense
pub mod User
