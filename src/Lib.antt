-- ===== src/Lib.antt =====
-- A model of the ledger, the deposits and the withdrawals of crypto-processing-api, of the webhooks
-- that it processes and of the events that it delivers.
--
-- The service keeps a double-entry ledger in PostgreSQL, and moves every withdrawal through a status
-- graph while it posts entries: a hold when the withdrawal is placed, a reservation when it is sent
-- to a payout backend, a settlement when the payout has completed, and a release when it has not.
--
-- How the parts correspond to the code:
--   Errors        the exceptions of the services as values of a type, and the results of calls.
--   Exec          a call on a session: it returns or raises and leaves a state. `savepoint` is
--                 `begin_nested` and `session_scope` (src/crypto_processing_api/db.py).
--   Models        the enums and rows of src/crypto_processing_api/ledger/models.py.
--   Ledger        src/crypto_processing_api/ledger: Store has the tables and their constraints,
--                 Accounts the provisioning and the locks, Entry is `post_entry`, and Audit is
--                 ledger/invariants.py. Ledger.Consistency says when books are consistent, and
--                 Ledger.Book is what the ledger promises without its tables.
--   Core          texts, amounts and idempotency keys of src/crypto_processing_api/core; Decimal is
--                 Python's decimal.Decimal as the amounts use it.
--   Deposits      src/crypto_processing_api/services/deposits.py: Rows has the rows, what BTCPay
--                 answers and the gateway to it, Status the status graph, Invoices the creation of a
--                 deposit and its invoice, Payments the recording and crediting of payments, Apply
--                 `apply_invoice_state`, Resolve `resolve_review`, and Queries the lists.
--   Fees          src/crypto_processing_api/services/fees.py.
--   Withdrawals   src/crypto_processing_api/services/withdrawals.py: Rows has the rows and the session,
--                 Transitions the status graph, Holds `place_hold`, Entries the postings, Release the
--                 releases, Payouts `apply_payout_state`, and Admin the queue.
--   Commands      the calls that the API and the workers make, one session each.
--   Outbound      src/crypto_processing_api/workers/outbound_delivery.py: the claim of due events, the
--                 attempts with their backoff, and `requeue`.
--   Webhooks      src/crypto_processing_api/workers/webhook_processor.py: the handler of an event, and in
--                 Webhooks.Queue the loop, with the round limit of the source as its only bound.
--   Samples, Tests  a small exchange, and runs of the model on it.
--
-- Numbers: an amount is an integer of unlimited size, as in Python; a balance that does not fit the
-- BIGINT column raises. Positive amounts are debits. Identifiers and texts that the code only
-- compares are natural numbers. A table is a list of rows in the order of their insertion.
--
-- Sessions are serial: the row locks that make them so are calls that check for the row, and time
-- is a field of the session. The triggers that make entries immutable need no model, since nothing
-- here changes an entry. The only fuel is that of `digits`, one round more than the number, where each
-- round divides it by ten.
--
-- BTCPay is a record of functions that answer or raise while one call runs; another call may meet
-- another record. The tolerance for pooled addresses is compared exactly, where the code rounds to a
-- double, and the digits of an amount are the ASCII ones.
--
-- The delivery of events keeps no ledger: its table stands alone, the platform is a function from an
-- event to the status code that comes back, if one does, and the random part of a delay is a
-- function of the delay.
--
-- Not modelled: HTTP and the payout backends, whose answers are arguments; the validation of
-- addresses; the endpoint that stores webhooks, and the workers that poll; the body and the signature
-- of an event that is sent. The hash of a request body is a parameter.
pub mod Prelude
pub mod Errors
pub mod Exec
pub mod Models
pub mod Ledger
pub mod Core
pub mod Deposits
pub mod Fees
pub mod Withdrawals
pub mod Commands
pub mod Outbound
pub mod Webhooks
pub mod Samples
pub mod Tests
