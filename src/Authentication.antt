-- ===== src/Authentication.antt =====
-- Sign-in and web sessions: src/mintflow/application/authentication/ and the repositories of
-- src/mintflow/infrastructure/persistence/ that it uses.
pub mod Store
pub mod Sessions
pub mod Login
pub mod RateLimit
