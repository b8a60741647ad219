-- ===== src/Deposits/Queries.antt =====
-- The queries on the deposits (src/crypto_processing_api/services/deposits.py). `now` is the
-- clock of the session.
use crypto_processing_api.Prelude.{
  ordered_by, limited, ascending, descending, ℕ, ◌+◌, Bool, true, false, ◌&&◌, ◌||◌, Option, none,
  some, List, select, if◌then◌else◌, ◌==◌, leb, ltb,
}
use crypto_processing_api.Models.{DepositStatus}
use crypto_processing_api.Withdrawals.Rows.{Db}
use crypto_processing_api.Deposits.Rows.{Deposit, DepositPayment}
use crypto_processing_api.Deposits.Status.{eq_deposit_status, is_active}

unfoldable pub get_payments : ℕ → Db → List DepositPayment
get_payments k s = select (λ row. row.deposit_id == k) s.deposit_payments

abbrev pub precedes : ℕ → Option ℕ → Bool
precedes k none = true
precedes k (some cursor) = ltb k cursor

-- Ids are UUIDv7, which sort by creation time.
unfoldable pub list_user_deposits : ℕ → ℕ → Option ℕ → Db → List Deposit
list_user_deposits user limit cursor s = limited limit (
    ordered_by (descending (λ d. d.id))
      (select (λ d. d.external_user_id == user && precedes d.id cursor) s.deposits))

unfoldable pub list_review_queue : ℕ → Db → List Deposit
list_review_queue limit s = limited limit (
    ordered_by (ascending (λ d. d.updated_at))
      (select (λ d. eq_deposit_status d.status DepositStatus.review) s.deposits))

abbrev is_set : Option ℕ → Bool
is_set none = false
is_set (some x) = true

-- Whether BTCPay may still attribute payments to the invoice.
unfoldable pub is_monitored : ℕ → ℕ → Deposit → Bool
is_monitored window now d = elim d.monitoring_expires_at [
  | none ↦ leb now (d.updated_at + window)
  | some end ↦ leb now end
]

unfoldable pub is_due : ℕ → ℕ → Deposit → Bool
is_due window now d =
    is_set d.btcpay_invoice_id
    && (is_active d.status
        || ((eq_deposit_status d.status DepositStatus.settled
              || eq_deposit_status d.status DepositStatus.expired)
            && is_monitored window now d))

unfoldable pub due_for_sweep : ℕ → ℕ → Db → List Deposit
due_for_sweep window limit s =
    limited limit
      (ordered_by (ascending (λ d. d.updated_at)) (select (is_due window s.now) s.deposits))

unfoldable pub is_stuck : ℕ → ℕ → Deposit → Bool
is_stuck older_than now d =
    eq_deposit_status d.status DepositStatus.creating
    && (if is_set d.btcpay_invoice_id then false else ltb (d.created_at + older_than) now)

unfoldable pub stuck_in_creating : ℕ → ℕ → Db → List Deposit
stuck_in_creating older_than limit s =
    limited limit
      (ordered_by (ascending (λ d. d.created_at)) (select (is_stuck older_than s.now) s.deposits))
