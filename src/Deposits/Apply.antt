-- ===== src/Deposits/Apply.antt =====
-- `apply_invoice_state`, the one transition of a deposit, and `refresh_deposit`
-- (src/crypto_processing_api/services/deposits.py).
use crypto_processing_api.Prelude.{
  ℕ, Bool, true, false, ◌&&◌, ◌||◌, not, Option, none, some, List, [], if◌then◌else◌, ◌==◌, select,
}
use crypto_processing_api.Errors.{Result, ok, err, invoice_mismatch}
use crypto_processing_api.Exec.{Exec, lift, gets, guard, pure, ◌>>=◌, ◌>>◌}
use crypto_processing_api.Models.{DepositStatus, Actor}
use crypto_processing_api.Fees.{Rate}
use crypto_processing_api.Ledger.Audit.{is_nonempty}
use crypto_processing_api.Withdrawals.Rows.{Asset, Db, truthy}
use crypto_processing_api.Deposits.Rows.{
  Deposit, DepositPayment, AdditionalStatus, Invoice, Payment, InvoicePaymentMethod, Gateway,
}
use crypto_processing_api.Deposits.Status.{
  eq_deposit_status, allowed_target, is_terminal, is_known, target_status, Parsed,
  breaches_pooled_tolerance,
}
use crypto_processing_api.Deposits.Invoices.{
  lock_deposit, save_deposit, get_deposit_asset, payment_method_for, attach_invoice,
}
use crypto_processing_api.Deposits.Results.{ApplyResult, untouched, result_of, emit_events}
use crypto_processing_api.Deposits.Payments.{
  valid_payments, parse_payments, is_uncredited, Progress, Round, apply_payments,
}

-- What `apply_invoice_state` is called with, the deposit aside.
pub record ApplyArgs : Type 0 where
  pub gateway : Gateway
  pub invoice : Invoice
  pub payment_methods : Option (List InvoicePaymentMethod)
  pub actor : Actor
  pub tolerance : Rate

unfoldable pub methods_or_fetch :
    Option (List InvoicePaymentMethod) → Gateway → ℕ → Result (List InvoicePaymentMethod)
methods_or_fetch (some methods) gateway k = ok methods
methods_or_fetch none gateway k = gateway.get_invoice_payment_methods k

-- `if not deposit.btcpay_invoice_id: attach_invoice(...)`
unfoldable pub attach_first :
    Deposit → Invoice → List InvoicePaymentMethod → Asset → Exec Db Deposit
attach_first d invoice methods asset =
    if truthy d.btcpay_invoice_id then pure d else attach_invoice d invoice methods asset

-- The status that the invoice and its payments ask for: review when an amount is unparseable, and
-- when a pooled address got an amount that is out of tolerance.
unfoldable pub wanted_target :
    ApplyArgs → Deposit → Asset → List Payment → Bool × List Parsed → DepositStatus
wanted_target args d asset payments (unparseable, parsed) =
    let asked =
      (if unparseable
        then DepositStatus.review
        else target_status args.invoice.status args.invoice.additional_status
            (is_nonempty payments)) in
    if eq_deposit_status asked DepositStatus.settled
      && breaches_pooled_tolerance d asset parsed args.tolerance
    then DepositStatus.review
    else asked

unfoldable pub is_creditable : DepositStatus → DepositStatus → Bool
is_creditable target status =
    eq_deposit_status target DepositStatus.settled
    && not (eq_deposit_status status DepositStatus.review || is_terminal status)

is_late : AdditionalStatus → Bool
is_late AdditionalStatus.paid_late = true
is_late _ = false

-- A settled deposit with every payment credited has nothing left to review.
unfoldable pub reviewed : DepositStatus → Deposit → List DepositPayment → DepositStatus
reviewed target d payments =
    if (eq_deposit_status target DepositStatus.review
        && eq_deposit_status d.status DepositStatus.settled)
      && not (is_nonempty (select (λ row. row.deposit_id == d.id && is_uncredited row) payments))
    then DepositStatus.settled
    else target

-- A target that is not allowed is ignored.
unfoldable pub moved_to : DepositStatus → Deposit → Deposit
moved_to target d =
    if not (eq_deposit_status target d.status) && allowed_target d.status target
    then record d { status = target }
    else d

unfoldable pub start : Deposit → Progress
start d = record { deposit = d; recorded_payments = []; credited_payments = []; credited_units = 0 }

-- The last part: the status moves, the row is stored, the events go out.
unfoldable pub conclude : DepositStatus → DepositStatus → Asset → Progress → Exec Db ApplyResult
conclude previous target asset p = do
  d ← gets (λ s. record (moved_to (reviewed target p.deposit s.deposit_payments) p.deposit) {
    updated_at = s.now;
  })
  save_deposit d
  result ← pure (result_of previous (record p { deposit = d }))
  emit_events d asset result
  pure result

unfoldable pub round_of : ApplyArgs → Deposit → Asset → DepositStatus → Round
unfolding is_late
round_of args d asset target = record {
  asset_id = asset.id;
  invoice_id = args.invoice.id;
  creditable = is_creditable target d.status;
  late = is_late args.invoice.additional_status;
  actor = args.actor;
}

-- From the payments on, for a deposit with its invoice; `previous` is the status it had before.
unfoldable pub follow_payments :
    ApplyArgs → DepositStatus → Deposit → Asset → DepositStatus → List Parsed → Exec Db ApplyResult
unfolding start round_of
follow_payments args previous d asset target parsed = do
  p ← apply_payments (round_of args d asset target) parsed (start d)
  conclude previous target asset p

-- The payments are read, and say where the deposit is to go.
unfoldable pub read_payments :
    ApplyArgs → DepositStatus → Asset → List InvoicePaymentMethod → Deposit → Exec Db ApplyResult
read_payments args previous asset methods d = do
  payments ← pure (valid_payments (payment_method_for asset methods))
  read ← lift (parse_payments payments asset.decimals)
  follow_payments args previous d asset (wanted_target args d asset payments read) read.1

unfoldable pub follow_invoice : ApplyArgs → Deposit → Exec Db ApplyResult
unfolding methods_or_fetch read_payments
follow_invoice args d = do
  asset ← get_deposit_asset d.asset_id false
  methods ← lift (methods_or_fetch args.payment_methods args.gateway args.invoice.id)
  d₁ ← attach_first d args.invoice methods asset
  read_payments args d.status asset methods d₁

abbrev pub is_other_invoice : Option ℕ → ℕ → Bool
is_other_invoice none k = false
is_other_invoice (some j) k = not (j == 0) && not (j == k)

-- What follows the lock on the deposit.
unfoldable pub apply_to : ApplyArgs → Deposit → Exec Db ApplyResult
apply_to args d = do
  guard (is_other_invoice d.btcpay_invoice_id args.invoice.id) invoice_mismatch
  (if is_terminal d.status || not (is_known args.invoice.status)
      then pure (untouched d)
      else follow_invoice args d)

unfoldable pub apply_invoice_state : ApplyArgs → ℕ → Exec Db ApplyResult
unfolding apply_to
apply_invoice_state args k = do d ← lock_deposit k; apply_to args d

unfoldable pub invoice_of : Deposit → Result ℕ
invoice_of d = elim d.btcpay_invoice_id [
  | none ↦ err invoice_mismatch
  | some k ↦ if k == 0 then err invoice_mismatch else ok k
]

-- `refresh_deposit`: the invoice is fetched first.
unfoldable pub refresh_deposit : Gateway → ℕ → Actor → Rate → Exec Db ApplyResult
refresh_deposit gateway k actor tolerance = do
  d ← lock_deposit k
  invoice_id ← lift (invoice_of d)
  invoice ← lift (gateway.get_invoice invoice_id)
  apply_invoice_state
      (record {
        gateway = gateway;
        invoice = invoice;
        payment_methods = none;
        actor = actor;
        tolerance = tolerance;
      })
      k
