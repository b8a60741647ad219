-- ===== src/Tests.antt =====
-- Runs of the model on the sample exchange.
mod LedgerTests
mod WithdrawalTests
mod RunTests
mod ReversalTests
mod FeeTests
mod KeyTests
mod DepositTests
mod AmountTests
mod OutboundTests
mod WebhookTests
