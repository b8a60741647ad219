-- ===== src/Webhooks.antt =====
-- The processing of webhooks that BTCPay has delivered
-- (src/crypto_processing_api/workers/webhook_processor.py), and `settlement_fee`
-- (src/crypto_processing_api/services/withdrawals.py). The loop over the queue is in Webhooks.Queue.
--
-- What BTCPay answers and which backend an asset has are parameters. The payload of an event is read
-- for two fields of its metadata: the deposit's id, if it is one, and whether `cpapi` is set.
pub mod Queue
pub mod Books
pub mod Outcomes
pub mod Claimed
pub mod Stands
pub mod Once
use crypto_processing_api.Prelude.{
  ℕ, zero, suc, ℤ, Bool, true, false, Option, none, some, find, if◌then◌else◌, ◌==◌,
}
use crypto_processing_api.Errors.{Error, gateway_error, gateway_not_found, Result, ok, err}
use crypto_processing_api.Exec.{Exec, lift, gets, pure, ◌>>=◌}
use crypto_processing_api.Models.{auto_actor}
use crypto_processing_api.Fees.{Rate}
use crypto_processing_api.Withdrawals.Rows.{Asset, Withdrawal, Db, truthy, get_asset}
use crypto_processing_api.Withdrawals.Payouts.{
  PayoutState, completed, BackendPayout, same_text, apply_payout_state,
}
use crypto_processing_api.Deposits.Rows.{Deposit, Gateway}
use crypto_processing_api.Deposits.Apply.{apply_invoice_state}

-- The event types that the handler tells apart. A type that it does not know starts with "Payout" or
-- does not.
pub data EventKind : Type 0 where
  payout_created payout_approved payout_updated unknown_payout : EventKind
  invoice_created invoice_received_payment invoice_processing invoice_payment_settled : EventKind
  invoice_settled invoice_expired invoice_invalid unknown_event : EventKind

pub data WebhookStatus : Type 0 where
  received processed failed ignored orphaned : WebhookStatus

pub record WebhookEvent : Type 0 where
  pub id : ℕ
  pub event_type : EventKind
  pub btcpay_invoice_id : Option ℕ
  pub btcpay_payout_id : Option ℕ
  pub deposit_id : Option ℕ
  pub cpapi : Bool
  pub status : WebhookStatus
  pub received_at : ℕ
  pub processed_at : Option ℕ
  pub attempts : ℕ
  pub processing_error : Option Error

-- A payout as `get_payout` answers it, in the shape of a backend.
pub record PayoutAnswer : Type 0 where
  pub payout : BackendPayout
  pub is_ours : Bool

-- The default of `tolerance_pct`.
abbrev pub no_tolerance : Rate
no_tolerance = record { numerator = 0; denominator = 1 }

-- What a payout has cost, from a backend that can say.
abbrev pub FeeReport : Type 0
FeeReport = BackendPayout → Result (Option ℤ)

pub record Rails : Type 0 where
  pub gateway : Gateway
  pub get_payout : ℕ → Result PayoutAnswer
  -- `automated_backend_for`: it may raise, and a backend may report no fees
  pub backend_for : Asset → Result (Option FeeReport)

pub record ProcessReport : Type 0 where
  pub processed_count : ℕ
  pub ignored_count : ℕ
  pub orphaned_count : ℕ
  pub failed_count : ℕ
  pub retried_count : ℕ

is_payout_event : EventKind → Bool
is_payout_event payout_created = true
is_payout_event payout_approved = true
is_payout_event payout_updated = true
is_payout_event _ = false

-- Neither a payout event that is not handled nor an event of another kind.
is_invoice_event : EventKind → Bool
is_invoice_event invoice_created = true
is_invoice_event invoice_received_payment = true
is_invoice_event invoice_processing = true
is_invoice_event invoice_payment_settled = true
is_invoice_event invoice_settled = true
is_invoice_event invoice_expired = true
is_invoice_event invoice_invalid = true
is_invoice_event _ = false

-- An error that the gateway raised leaves the estimate.
unless_gateway : Result (Option ℤ) → Result (Option ℤ)
unless_gateway (err gateway_error) = ok none
unless_gateway (err gateway_not_found) = ok none
unless_gateway r = r

is_completed : PayoutState → Bool
is_completed completed = true
is_completed _ = false

unfoldable pub settlement_fee : Option FeeReport → BackendPayout → Result (Option ℤ)
unfolding unless_gateway is_completed
settlement_fee none payout = ok none
settlement_fee (some fee) payout =
    if is_completed payout.state then unless_gateway (fee payout) else ok none

by_id : Option ℕ → Db → Option Deposit
by_id none s = none
by_id (some k) s = find (λ d. d.id == k) s.deposits

-- `_find_deposit`: by the invoice, or by the id that the metadata echo.
unfoldable pub find_deposit : WebhookEvent → Db → Option Deposit
unfolding by_id
find_deposit event s =
    let known =
      if truthy event.btcpay_invoice_id
      then find (λ d. same_text d.btcpay_invoice_id event.btcpay_invoice_id) s.deposits
      else none in
    elim known [ some d ↦ some d | none ↦ by_id event.deposit_id s ]

-- `_handle_payout_event`, from the withdrawal on.
unfoldable pub follow_withdrawal : Rails → BackendPayout → Withdrawal → Exec Db WebhookStatus
follow_withdrawal rails payout w = do
  asset ← get_asset w.asset_id false
  backend ← lift (rails.backend_for asset)
  fee ← lift (settlement_fee backend payout)
  _ ← apply_payout_state w.id payout fee
  pure processed

echoed_withdrawal : Option ℕ → Db → Option Withdrawal
echoed_withdrawal none s = none
echoed_withdrawal (some k) s = find (λ w. w.id == k) s.withdrawals

-- By the payout's reference, or by the id that its metadata echo.
unfoldable pub find_withdrawal : ℕ → BackendPayout → Db → Option Withdrawal
unfolding echoed_withdrawal
find_withdrawal payout_id payout s =
    elim (find (λ w. same_text w.backend_ref (some payout_id)) s.withdrawals) [
      | some w ↦ some w
      | none ↦ echoed_withdrawal payout.withdrawal_id s
    ]

unfoldable pub with_withdrawal : Rails → PayoutAnswer → Option Withdrawal → Exec Db WebhookStatus
with_withdrawal rails answer none = pure (if answer.is_ours then orphaned else ignored)
with_withdrawal rails answer (some w) = follow_withdrawal rails answer.payout w

unfoldable pub handle_payout_event : Rails → ℕ → Exec Db WebhookStatus
unfolding with_withdrawal
handle_payout_event rails payout_id = do
  answer ← lift (rails.get_payout payout_id)
  found ← gets (find_withdrawal payout_id answer.payout)
  with_withdrawal rails answer found

unfoldable pub with_deposit : Rails → WebhookEvent → ℕ → Option Deposit → Exec Db WebhookStatus
with_deposit rails event invoice_id none = pure (if event.cpapi then orphaned else ignored)
with_deposit rails event invoice_id (some d) = do
  invoice ← lift (rails.gateway.get_invoice invoice_id)
  _ ←
      apply_invoice_state
        (record {
          gateway = rails.gateway;
          invoice = invoice;
          payment_methods = none;
          actor = auto_actor;
          tolerance = no_tolerance;
        })
        d.id
  pure processed

unfoldable pub handle_invoice_event : Rails → WebhookEvent → ℕ → Exec Db WebhookStatus
unfolding with_deposit
handle_invoice_event rails event invoice_id = do
  found ← gets (find_deposit event)
  with_deposit rails event invoice_id found

-- An id that is missing or empty is no id.
unfoldable pub if_given : Option ℕ → (ℕ → Exec Db WebhookStatus) → Exec Db WebhookStatus
if_given none f = pure ignored
if_given (some zero) f = pure ignored
if_given (some (suc n)) f = f (suc n)

unfoldable pub handle_event : Rails → WebhookEvent → Exec Db WebhookStatus
unfolding if_given is_payout_event is_invoice_event
handle_event rails event =
    if is_payout_event event.event_type
    then if_given event.btcpay_payout_id (handle_payout_event rails)
    else (if is_invoice_event event.event_type
        then if_given event.btcpay_invoice_id (handle_invoice_event rails event)
        else pure ignored)
