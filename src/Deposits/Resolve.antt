-- ===== src/Deposits/Resolve.antt =====
-- `resolve_review`: an admin decides about a deposit in review
-- (src/crypto_processing_api/services/deposits.py).
use crypto_processing_api.Prelude.{
  ℕ, true, false, not, Option, none, some, [], ◌∷◌, if◌then◌else◌, ◌==◌, find,
}
use crypto_processing_api.Errors.{Result, ok, err, payment_not_found, deposit_illegal_transition}
use crypto_processing_api.Exec.{Exec, lift, gets, or_raise, guard, pure, raise, ◌>>=◌, ◌>>◌}
use crypto_processing_api.Models.{DepositStatus, Actor}
use crypto_processing_api.Core.Amounts.Units.{to_units}
use crypto_processing_api.Withdrawals.Rows.{Asset, Db}
use crypto_processing_api.Deposits.Rows.{Deposit, Payment, Gateway}
use crypto_processing_api.Deposits.Status.{eq_deposit_status, is_settled_payment}
use crypto_processing_api.Deposits.Invoices.{
  lock_deposit, save_deposit, get_deposit_asset, payment_method_for,
}
use crypto_processing_api.Deposits.Payments.{
  payments_of_method, upsert_payment, is_uncredited, credit_if,
}
use crypto_processing_api.Deposits.Apply.{start, invoice_of}
use crypto_processing_api.Deposits.Results.{ApplyResult, untouched, result_of, emit_events}

pub data ResolveAction : Type 0 where
  dismiss credit other_action : ResolveAction

-- A deposit in review is dismissed: whatever it received stays uncredited.
unfoldable pub dismiss_review : Deposit → Exec Db ApplyResult
dismiss_review d = do
  row ← gets (λ s. record d { status = DepositStatus.dismissed; updated_at = s.now })
  save_deposit row
  pure (record (untouched d) { status = DepositStatus.dismissed })

payment_of : Option ℕ → Result ℕ
payment_of none = err payment_not_found
payment_of (some k) = if k == 0 then err payment_not_found else ok k

-- The payment is recorded, credited unless it has been, and the deposit is settled. `if is_new`
-- here touches the result alone: `last_payment_seen_at` stays.
unfoldable pub credit_review : Deposit → Asset → ℕ → Payment → ℕ → Actor → Exec Db ApplyResult
credit_review d asset invoice payment amount actor = do
  there ← upsert_payment d.id payment.id amount true
  p ←
      credit_if (is_uncredited there.0) asset.id there.0 invoice actor
        (record (start d) { recorded_payments = if there.1 then payment.id ∷ [] else [] })
  row ← gets (λ s. record p.deposit { status = DepositStatus.settled; updated_at = s.now })
  save_deposit row
  result ← pure (result_of d.status (record p { deposit = row }))
  emit_events row asset result
  pure result

unfoldable pub resolve_credit : Gateway → Deposit → Asset → Option ℕ → Actor → Exec Db ApplyResult
unfolding payment_of
resolve_credit gateway d asset payment_id actor = do
  k ← lift (payment_of payment_id)
  invoice ← lift (invoice_of d)
  methods ← lift (gateway.get_invoice_payment_methods invoice)
  payment ←
      or_raise payment_not_found
        (find (λ (p : Payment). p.id == k) (payments_of_method (payment_method_for asset methods)))
  guard (not (is_settled_payment payment.status)) payment_not_found
  amount ← lift (to_units payment.value asset.decimals)
  credit_review d asset invoice payment amount actor

unfoldable pub resolve_as :
    ResolveAction → Gateway → Deposit → Asset → Option ℕ → Actor → Exec Db ApplyResult
resolve_as dismiss gateway d asset payment_id actor = dismiss_review d
resolve_as credit gateway d asset payment_id actor = resolve_credit gateway d asset payment_id actor
resolve_as other_action gateway d asset payment_id actor = raise deposit_illegal_transition

unfoldable pub resolve_review : Gateway → ℕ → ResolveAction → Option ℕ → Actor → Exec Db ApplyResult
unfolding resolve_as
resolve_review gateway k action payment_id actor = do
  d ← lock_deposit k
  guard (not (eq_deposit_status d.status DepositStatus.review)) deposit_illegal_transition
  asset ← get_deposit_asset d.asset_id false
  resolve_as action gateway d asset payment_id actor
