-- ===== src/Deposits.antt =====
-- src/crypto_processing_api/services/deposits.py: from an invoice to a credited balance.
pub mod Rows
pub mod Status
pub mod Invoices
pub mod Payments
pub mod Results
pub mod Apply
pub mod Resolve
pub mod Queries
pub mod LedgerFree
pub mod Books
pub mod Loop
pub mod Attached
pub mod Closed
pub mod Graph
pub mod Tables
pub mod Kept
pub mod Credited
pub mod Again
pub mod Followed
pub mod Concluded
pub mod SettledAt
pub mod Replayed
pub mod Moved
