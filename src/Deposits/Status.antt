-- ===== src/Deposits/Status.antt =====
-- The status graph of a deposit, and what BTCPay's view of an invoice asks for
-- (src/crypto_processing_api/services/deposits.py).
use crypto_processing_api.Prelude.{
  ℕ, ◌+◌, ◌-◌, ◌*◌, Bool, true, false, ◌||◌, Option, none, some, List, [], ◌∷◌, if◌then◌else◌, ◌==◌,
  ltb,
}
use crypto_processing_api.Models.{
  DepositStatus, creating, pending, confirming, settled, expired, review, dismissed, failed,
}
use crypto_processing_api.Fees.{Rate}
use crypto_processing_api.Deposits.Rows.{Deposit, InvoiceStatus, AdditionalStatus, PaymentStatus}
use crypto_processing_api.Withdrawals.Rows.{Asset}

unfoldable pub eq_deposit_status : DepositStatus → DepositStatus → Bool
eq_deposit_status creating creating = true
eq_deposit_status pending pending = true
eq_deposit_status confirming confirming = true
eq_deposit_status settled settled = true
eq_deposit_status expired expired = true
eq_deposit_status review review = true
eq_deposit_status dismissed dismissed = true
eq_deposit_status failed failed = true
eq_deposit_status _ _ = false

-- `target in _ALLOWED_TARGETS[status]`
unfoldable pub allowed_target : DepositStatus → DepositStatus → Bool
allowed_target creating pending = true
allowed_target creating confirming = true
allowed_target creating settled = true
allowed_target creating expired = true
allowed_target creating review = true
allowed_target creating failed = true
allowed_target pending confirming = true
allowed_target pending settled = true
allowed_target pending expired = true
allowed_target pending review = true
allowed_target confirming settled = true
allowed_target confirming expired = true
allowed_target confirming review = true
allowed_target settled review = true
allowed_target expired review = true
allowed_target expired settled = true
allowed_target _ _ = false

-- TERMINAL_STATUSES
unfoldable pub is_terminal : DepositStatus → Bool
is_terminal dismissed = true
is_terminal failed = true
is_terminal _ = false

-- ACTIVE_STATUSES
unfoldable pub is_active : DepositStatus → Bool
is_active creating = true
is_active pending = true
is_active confirming = true
is_active review = true
is_active _ = false

-- `invoice.status in KNOWN_INVOICE_STATUSES`
unfoldable pub is_known : InvoiceStatus → Bool
is_known (InvoiceStatus.unrecognised text) = false
is_known _ = true

-- `invoice.additional_status in ("Marked", "PaidLate")`
unfoldable pub wants_review : AdditionalStatus → Bool
wants_review AdditionalStatus.marked = true
wants_review AdditionalStatus.paid_late = true
wants_review _ = false

-- `invoice.additional_status in ("PaidLate", "PaidPartial", "PaidOver")`
unfoldable pub was_paid : AdditionalStatus → Bool
was_paid AdditionalStatus.paid_late = true
was_paid AdditionalStatus.paid_partial = true
was_paid AdditionalStatus.paid_over = true
was_paid _ = false

-- `_target_status`
unfoldable pub target_status : InvoiceStatus → AdditionalStatus → Bool → DepositStatus
unfolding wants_review was_paid
target_status InvoiceStatus.new more has_payments = if has_payments then confirming else pending
target_status InvoiceStatus.processing more has_payments = confirming
target_status InvoiceStatus.settled more has_payments =
    if wants_review more then review else settled
target_status InvoiceStatus.expired more has_payments =
    if has_payments || was_paid more then review else expired
target_status _ more has_payments = review

unfoldable pub is_settled_payment : PaymentStatus → Bool
is_settled_payment PaymentStatus.settled = true
is_settled_payment _ = false

unfoldable pub is_invalid_payment : PaymentStatus → Bool
is_invalid_payment PaymentStatus.invalid = true
is_invalid_payment _ = false

-- A payment whose amount was read: its id, the units, its status.
pub record Parsed : Type 0 where
  pub id : ℕ
  pub amount : ℕ
  pub status : PaymentStatus

unfoldable pub received : List Parsed → ℕ
unfolding is_settled_payment
received [] = 0
received (p ∷ parsed) =
    let rest = received parsed in if is_settled_payment p.status then p.amount + rest else rest

-- `_breaches_pooled_tolerance`. The tolerance is a percentage, a fraction here; the products are
-- compared without the rounding of the doubles.
exceeds_tolerance : ℕ → ℕ → Rate → Bool
exceeds_tolerance amount wanted tolerance =
    if tolerance.numerator == 0 || amount == 0
    then false
    else ltb (wanted * tolerance.numerator)
        ((amount - wanted + (wanted - amount)) * 100 * tolerance.denominator)

breaches_expected : Option ℕ → List Parsed → Rate → Bool
breaches_expected none parsed tolerance = false
breaches_expected (some wanted) parsed tolerance =
    exceeds_tolerance (received parsed) wanted tolerance

unfoldable pub breaches_pooled_tolerance : Deposit → Asset → List Parsed → Rate → Bool
unfolding received exceeds_tolerance breaches_expected
breaches_pooled_tolerance d asset parsed tolerance =
    if asset.pooled_addresses then breaches_expected d.amount_expected parsed tolerance else false
