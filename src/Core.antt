-- ===== src/Core.antt =====
-- src/crypto_processing_api/core: the money helpers.
pub mod Amounts
pub mod Idempotency
pub mod Text
pub mod Decimal
