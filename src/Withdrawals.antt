-- ===== src/Withdrawals.antt =====
-- Withdrawals: src/crypto_processing_api/services/withdrawals.py over the ledger.
pub mod Rows
pub mod Transitions
pub mod Holds
pub mod Entries
pub mod Release
pub mod Payouts
pub mod Admin
pub mod Books
