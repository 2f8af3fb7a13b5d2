-- ===== src/Analytics.antt =====
-- src/mintflow/application/analytics: the periods, the aggregates and the dashboard.
pub mod Errors
pub mod Periods
pub mod Aggregates
pub mod Dashboard
pub mod Queries
