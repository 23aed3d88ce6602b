-- ===== src/Tests.antt =====
-- The theorems at concrete inputs, and runs of the definitions on small data.
mod Queue
mod Outbox
mod Limits
mod Dates
mod Money
mod Schedule
mod Accounts
mod Payloads
mod Books
mod Mail
