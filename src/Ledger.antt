-- ===== src/Ledger.antt =====
-- The double-entry ledger: src/crypto_processing_api/ledger/service.py over the tables `accounts`,
-- `journal_entries` and `postings`, and the checks of ledger/invariants.py.
pub mod Store
pub mod Accounts
pub mod Entry
pub mod Audit
pub mod Consistency
pub mod Book
