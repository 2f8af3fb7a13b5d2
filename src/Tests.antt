-- ===== src/Tests.antt =====
-- Runs of the model on concrete inputs, and the theorems applied at them.
mod Ascii
mod Domain
mod Capture
mod User
mod Authentication
mod RateLimit
mod Money
mod Telegram
mod Analytics
mod Rates
mod History
mod Dashboard
mod Users
mod Flow
