-- ===== src/Tests/WebhookTests.antt =====
-- Webhooks over a deposit that BTCPay knows, and one that it does not.
use crypto_processing_api.Prelude.{◌+◌, ◌≤◌, ℕ, ◌≡◌, refl, false, none, some, List, [], ◌∷◌}
use crypto_processing_api.Errors.{ok, err, gateway_error, gateway_not_found, unknown_asset}
use crypto_processing_api.Ledger.Audit.{assert_ledger_consistent}
use crypto_processing_api.Commands.{serve}
use crypto_processing_api.Tests.DepositTests.{gateway, commands, fresh}
use crypto_processing_api.Webhooks.{
  EventKind, invoice_settled, unknown_event, WebhookEvent, received, failed, ignored, Rails,
  find_deposit, handle_event, handle_invoice_event, if_given, with_deposit,
}
use crypto_processing_api.Webhooks.Queue.{
  claim, is_claimable, earliest, is_gone, failed_event, record_failure, record_on, conclude_event,
  process_rounds, process_pending, failure_counted, outcome_counted, no_events,
}
use crypto_processing_api.Webhooks.Claimed.{with_id}
use crypto_processing_api.Webhooks.Once.{process_pending_once}
use crypto_processing_api.Webhooks.Books.{process_pending-assert_ledger_consistent}

abbrev webhook : ℕ → EventKind → WebhookEvent
webhook k kind = record {
  id = k;
  event_type = kind;
  btcpay_invoice_id = some 3;
  btcpay_payout_id = none;
  deposit_id = none;
  cpapi = false;
  status = received;
  received_at = k;
  processed_at = none;
  attempts = 0;
  processing_error = none;
}

abbrev rails : Rails
rails = record {
  gateway = gateway;
  get_payout = λ k. err gateway_error;
  backend_for = λ asset. err unknown_asset;
}

-- BTCPay has lost the invoice.
abbrev lost : Rails
lost = record rails { gateway = record gateway { get_invoice = λ k. err gateway_not_found } }

abbrev events : List WebhookEvent
events = webhook 1 unknown_event ∷ webhook 2 invoice_settled ∷ []

process_lost : process_pending lost 25 10 (record { db = fresh; webhooks = events }) ≡ (
  record {
    db = fresh;
    webhooks =
        record (webhook 1 unknown_event) { status = ignored; processed_at = some 200; attempts = 1 }
        ∷ record (webhook 2 invoice_settled) {
          status = failed;
          processed_at = some 200;
          attempts = 1;
          processing_error = some gateway_not_found;
        }
        ∷ [];
  },
  record no_events { ignored_count = 1; failed_count = 1 },
)
unfolding process_pending process_rounds claim is_claimable earliest handle_event conclude_event
    outcome_counted record_failure record_on failed_event is_gone failure_counted
    handle_invoice_event find_deposit if_given with_deposit
process_lost = refl

process_pending-assert_ledger_consistent_example :
    assert_ledger_consistent
      (process_pending rails 25 10
        (record { db = serve commands fresh; webhooks = events })).0.db.ledger
    ≡ (
      ok tt,
      (process_pending rails 25 10
          (record { db = serve commands fresh; webhooks = events })).0.db.ledger,
    )
process_pending-assert_ledger_consistent_example =
    process_pending-assert_ledger_consistent rails 25 10 commands fresh events refl

process_pending_once_example :
    (e' : WebhookEvent) × (with_id 2
        (process_pending lost 25 10 (record { db = fresh; webhooks = events })).0.webhooks
      ≡ e' ∷ [])
    × (e'.attempts ≤ 0 + 1)
process_pending_once_example =
    process_pending_once lost 25 10 (record { db = fresh; webhooks = events })
      (webhook 2 invoice_settled) refl
