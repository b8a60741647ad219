-- ===== src/Webhooks/Queue.antt =====
-- The loop over the queue of webhooks
-- (src/crypto_processing_api/workers/webhook_processor.py): each event in a session of its own, and
-- what a session that raised records in another one.
use crypto_processing_api.Prelude.{
  ℕ, zero, suc, ◌+◌, Bool, true, false, ◌&&◌, ◌||◌, not, Option, none, some, List, [], ◌∷◌, map,
  find, select, if◌then◌else◌, ◌==◌, leb,
}
use crypto_processing_api.Errors.{Error, gateway_not_found, Result, ok, err}
use crypto_processing_api.Withdrawals.Rows.{Db}
use crypto_processing_api.Webhooks.{
  WebhookEvent, WebhookStatus, received, processed, failed, orphaned, Rails, ProcessReport,
  handle_event,
}

-- The tables of the services, and that of the webhooks.
pub record Inbox : Type 0 where
  pub db : Db
  pub webhooks : List WebhookEvent

-- What the loop carries from one round to the next.
pub record Pass : Type 0 where
  pub inbox : Inbox
  pub deferred : List ℕ
  pub report : ProcessReport

abbrev pub is_deferred : ℕ → List ℕ → Bool
is_deferred k [] = false
is_deferred k (j ∷ deferred) = j == k || is_deferred k deferred

abbrev pub is_received : WebhookStatus → Bool
is_received received = true
is_received _ = false

-- The rows that `_claim` asks for.
unfoldable pub is_claimable : List ℕ → WebhookEvent → Bool
is_claimable deferred e = is_received e.status && not (is_deferred e.id deferred)

abbrev pub sooner : WebhookEvent → Option WebhookEvent → WebhookEvent
sooner e none = e
sooner e (some f) = if leb e.received_at f.received_at then e else f

-- ORDER BY received_at LIMIT 1
unfoldable pub earliest : List WebhookEvent → Option WebhookEvent
earliest [] = none
earliest (e ∷ events) = some (sooner e (earliest events))

unfoldable pub claim : List ℕ → List WebhookEvent → Option WebhookEvent
unfolding earliest
claim deferred events = earliest (select (is_claimable deferred) events)

abbrev pub stored_webhook : WebhookEvent → WebhookEvent → WebhookEvent
stored_webhook e row = if row.id == e.id then e else row

abbrev pub put : WebhookEvent → Inbox → Inbox
put e inbox = record inbox { webhooks = map (stored_webhook e) inbox.webhooks }

unfoldable pub outcome_counted : WebhookStatus → ProcessReport → ProcessReport
outcome_counted processed r = record r { processed_count = r.processed_count + 1 }
outcome_counted orphaned r = record r { orphaned_count = r.orphaned_count + 1 }
outcome_counted _ r = record r { ignored_count = r.ignored_count + 1 }

-- `_record_failure` on the row as it is found.
unfoldable pub failed_event : ℕ → ℕ → ℕ → Error → Bool → WebhookEvent → WebhookEvent
failed_event now attempts max_attempts error terminal e =
    let noted = record e { attempts = attempts; processing_error = some error } in
    if terminal || leb max_attempts attempts
    then record noted { status = failed; processed_at = some now }
    else noted

unfoldable pub failure_counted : Bool → ProcessReport → ProcessReport
failure_counted true r = record r { failed_count = r.failed_count + 1 }
failure_counted false r = record r { retried_count = r.retried_count + 1 }

unfoldable pub record_on : ℕ → ℕ → Error → Bool → Pass → Option WebhookEvent → Pass
record_on attempts max_attempts error terminal round none = round
record_on attempts max_attempts error terminal round (some e) = record round {
  inbox = put (failed_event round.inbox.db.now attempts max_attempts error terminal e) round.inbox;
  report = failure_counted (terminal || leb max_attempts attempts) round.report;
}

unfoldable pub record_failure : ℕ → ℕ → ℕ → Error → Bool → Pass → Pass
unfolding record_on
record_failure event_id attempts max_attempts error terminal round =
    record_on attempts max_attempts error terminal round
      (find (λ e. e.id == event_id) round.inbox.webhooks)

-- BTCPayNotFound is the one error that is not tried again.
unfoldable pub is_gone : Error → Bool
is_gone gateway_not_found = true
is_gone _ = false

-- A round after the handler: it commits, or rolls back and records the failure.
unfoldable pub conclude_event : ℕ → WebhookEvent → Result WebhookStatus × Db → Pass → Pass
unfolding outcome_counted
conclude_event max_attempts event (ok outcome, db) round = record round {
  inbox =
      put
        (record event {
          status = outcome;
          processed_at = some db.now;
          attempts = event.attempts + 1;
        })
        (record round.inbox { db = db });
  report = outcome_counted outcome round.report;
}
conclude_event max_attempts event (err error, db) round =
    record_failure event.id (event.attempts + 1) max_attempts error (is_gone error) (record round {
      deferred = if is_gone error then round.deferred else event.id ∷ round.deferred;
    })

unfoldable pub process_rounds : Rails → ℕ → ℕ → Pass → Pass
process_rounds rails max_attempts zero round = round
process_rounds rails max_attempts (suc limit) round =
    elim (claim round.deferred round.inbox.webhooks) [
      | none ↦ round
      | some event ↦
          process_rounds rails max_attempts limit
            (conclude_event max_attempts event (handle_event rails event round.inbox.db) round)
    ]

abbrev pub no_events : ProcessReport
no_events = record {
  processed_count = 0;
  ignored_count = 0;
  orphaned_count = 0;
  failed_count = 0;
  retried_count = 0;
}

unfoldable pub process_pending : Rails → ℕ → ℕ → Inbox → Inbox × ProcessReport
process_pending rails limit max_attempts inbox =
    let round =
      process_rounds rails max_attempts limit
        (record { inbox = inbox; deferred = []; report = no_events }) in
    (round.inbox, round.report)
