-- ===== src/Webhooks/Outcomes.antt =====
-- What the handler of a webhook returns.
use crypto_processing_api.Prelude.{
  ℕ, zero, suc, ◌≡◌, refl, Bool, true, false, Option, none, some, if◌then◌else◌,
}
use crypto_processing_api.Exec.{Exec, pure}
use crypto_processing_api.Exec.Keeps.{Returns, Returns-pure, Returns-bind, Returns-if}
use crypto_processing_api.Withdrawals.Rows.{Db, Withdrawal}
use crypto_processing_api.Withdrawals.Payouts.{BackendPayout}
use crypto_processing_api.Deposits.Rows.{Deposit}
use crypto_processing_api.Webhooks.{
  WebhookEvent, WebhookStatus, processed, ignored, orphaned, Rails, PayoutAnswer, follow_withdrawal,
  with_withdrawal, handle_payout_event, with_deposit, handle_invoice_event, if_given, handle_event,
  is_payout_event, is_invoice_event,
}
use crypto_processing_api.Webhooks.Queue.{is_received}

-- What the handler returns is no `received`.
unfoldable pub IsOutcome : WebhookStatus → Type 0
IsOutcome status = is_received status ≡ false

own : (b : Bool) → IsOutcome (if b then orphaned else ignored)
unfolding IsOutcome
own true = refl
own false = refl

ignored_is : IsOutcome ignored
unfolding IsOutcome
ignored_is = refl

processed_is : IsOutcome processed
unfolding IsOutcome
processed_is = refl

ruleset outcome_rules = (Returns-pure, Returns-bind, Returns-if, own, ignored_is, processed_is)

follow_withdrawal-IsOutcome :
    (rails : Rails) (payout : BackendPayout) (w : Withdrawal)
    → Returns IsOutcome (follow_withdrawal rails payout w)
unfolding follow_withdrawal
follow_withdrawal-IsOutcome rails payout w = search outcome_rules depth 12

with_withdrawal-IsOutcome :
    (rails : Rails) (answer : PayoutAnswer) (o : Option Withdrawal)
    → Returns IsOutcome (with_withdrawal rails answer o)
unfolding with_withdrawal IsOutcome
with_withdrawal-IsOutcome rails answer none =
    Returns-pure (if answer.is_ours then orphaned else ignored) (own answer.is_ours)
with_withdrawal-IsOutcome rails answer (some w) = follow_withdrawal-IsOutcome rails answer.payout w

with_deposit-IsOutcome :
    (rails : Rails) (event : WebhookEvent) (k : ℕ) (o : Option Deposit)
    → Returns IsOutcome (with_deposit rails event k o)
unfolding with_deposit IsOutcome
with_deposit-IsOutcome rails event k none =
    Returns-pure (if event.cpapi then orphaned else ignored) (own event.cpapi)
with_deposit-IsOutcome rails event k (some d) = search outcome_rules depth 12

if_given-IsOutcome :
    (o : Option ℕ) (f : ℕ → Exec Db WebhookStatus)
    → ((k : ℕ) → Returns IsOutcome (f k))
    → Returns IsOutcome (if_given o f)
unfolding if_given IsOutcome
if_given-IsOutcome none f h = Returns-pure ignored refl
if_given-IsOutcome (some zero) f h = Returns-pure ignored refl
if_given-IsOutcome (some (suc n)) f h = h (suc n)

handle_payout_event-IsOutcome :
    (rails : Rails) (k : ℕ) → Returns IsOutcome (handle_payout_event rails k)
unfolding handle_payout_event
handle_payout_event-IsOutcome rails k = search (outcome_rules, with_withdrawal-IsOutcome) depth 12

handle_invoice_event-IsOutcome :
    (rails : Rails) (event : WebhookEvent) (k : ℕ)
    → Returns IsOutcome (handle_invoice_event rails event k)
unfolding handle_invoice_event
handle_invoice_event-IsOutcome rails event k =
    search (outcome_rules, with_deposit-IsOutcome) depth 12

pub handle_event-IsOutcome :
    (rails : Rails) (event : WebhookEvent) → Returns IsOutcome (handle_event rails event)
unfolding handle_event
handle_event-IsOutcome rails event =
    Returns-if (is_payout_event event.event_type)
      (if_given event.btcpay_payout_id (handle_payout_event rails))
      (if is_invoice_event event.event_type
        then if_given event.btcpay_invoice_id (handle_invoice_event rails event)
        else pure ignored)
      (if_given-IsOutcome event.btcpay_payout_id (handle_payout_event rails)
        (handle_payout_event-IsOutcome rails))
      (Returns-if (is_invoice_event event.event_type)
        (if_given event.btcpay_invoice_id (handle_invoice_event rails event)) (pure ignored)
        (if_given-IsOutcome event.btcpay_invoice_id (handle_invoice_event rails event)
          (handle_invoice_event-IsOutcome rails event))
        (Returns-pure ignored ignored_is))
