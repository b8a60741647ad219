-- ===== src/Webhooks/Books.antt =====
-- The books while webhooks are processed.
use crypto_processing_api.Prelude.{
  List, ℕ, zero, suc, Option, none, some, ◌≡◌, refl, sym, subst, ◌+◌, ◌==◌, Bool, if◌then◌else◌, [],
  ◌∷◌, find,
}
use crypto_processing_api.Errors.{Error, Result, ok, err}
use crypto_processing_api.Exec.{Exec, pure}
use crypto_processing_api.Exec.Keeps.{Keeps, Keeps-if, Keeps-pure, keeps_rules}
use crypto_processing_api.Ledger.Consistency.{IsConsistent}
use crypto_processing_api.Withdrawals.Rows.{Db, Withdrawal}
use crypto_processing_api.Withdrawals.Books.{Books, get_asset-Books}
use crypto_processing_api.Withdrawals.Books.Operations.{apply_payout_state-Books}
use crypto_processing_api.Withdrawals.Payouts.{BackendPayout}
use crypto_processing_api.Deposits.Rows.{Deposit}
use crypto_processing_api.Deposits.Books.{apply_invoice_state-Books}
use crypto_processing_api.Ledger.Audit.{assert_ledger_consistent}
use crypto_processing_api.Ledger.Store.{empty}
use crypto_processing_api.Ledger.Consistency.Checks.{assert_ledger_consistent_passes}
use crypto_processing_api.Commands.{Command, serve}
use crypto_processing_api.Commands.Served.{serve-IsConsistent, empty-IsConsistent}
use crypto_processing_api.Webhooks.{
  ignored, WebhookEvent, WebhookStatus, Rails, PayoutAnswer, follow_withdrawal, with_withdrawal,
  handle_payout_event, with_deposit, handle_invoice_event, if_given, handle_event, is_payout_event,
  is_invoice_event,
}
use crypto_processing_api.Webhooks.Queue.{
  no_events, Inbox, Pass, claim, is_gone, record_on, record_failure, conclude_event, process_rounds,
  process_pending,
}

ruleset webhook_rules =
    (keeps_rules, get_asset-Books, apply_payout_state-Books, apply_invoice_state-Books)

follow_withdrawal-Books :
    (rails : Rails) (payout : BackendPayout) (w : Withdrawal)
    → Keeps Books (follow_withdrawal rails payout w)
unfolding follow_withdrawal
follow_withdrawal-Books rails payout w = search webhook_rules depth 12

with_withdrawal-Books :
    (rails : Rails) (answer : PayoutAnswer) (o : Option Withdrawal)
    → Keeps Books (with_withdrawal rails answer o)
unfolding with_withdrawal
with_withdrawal-Books rails answer none = search webhook_rules depth 8
with_withdrawal-Books rails answer (some w) = follow_withdrawal-Books rails answer.payout w

handle_payout_event-Books : (rails : Rails) (k : ℕ) → Keeps Books (handle_payout_event rails k)
unfolding handle_payout_event
handle_payout_event-Books rails k = search (webhook_rules, with_withdrawal-Books) depth 12

with_deposit-Books :
    (rails : Rails) (event : WebhookEvent) (k : ℕ) (o : Option Deposit)
    → Keeps Books (with_deposit rails event k o)
unfolding with_deposit
with_deposit-Books rails event k none = search webhook_rules depth 8
with_deposit-Books rails event k (some d) = search webhook_rules depth 12

handle_invoice_event-Books :
    (rails : Rails) (event : WebhookEvent) (k : ℕ)
    → Keeps Books (handle_invoice_event rails event k)
unfolding handle_invoice_event
handle_invoice_event-Books rails event k = search (webhook_rules, with_deposit-Books) depth 12

if_given-Books :
    (o : Option ℕ) (f : ℕ → Exec Db WebhookStatus)
    → ((k : ℕ) → Keeps Books (f k))
    → Keeps Books (if_given o f)
unfolding if_given
if_given-Books none f h = search webhook_rules depth 8
if_given-Books (some zero) f h = search webhook_rules depth 8
if_given-Books (some (suc n)) f h = h (suc n)

pub handle_event-Books :
    (rails : Rails) (event : WebhookEvent) → Keeps Books (handle_event rails event)
unfolding handle_event
handle_event-Books rails event =
    Keeps-if (is_payout_event event.event_type)
      (if_given event.btcpay_payout_id (handle_payout_event rails))
      (if is_invoice_event event.event_type
        then if_given event.btcpay_invoice_id (handle_invoice_event rails event)
        else pure ignored)
      (if_given-Books event.btcpay_payout_id (handle_payout_event rails)
        (handle_payout_event-Books rails))
      (Keeps-if (is_invoice_event event.event_type)
        (if_given event.btcpay_invoice_id (handle_invoice_event rails event)) (pure ignored)
        (if_given-Books event.btcpay_invoice_id (handle_invoice_event rails event)
          (handle_invoice_event-Books rails event))
        (Keeps-pure ignored))

record_on-db :
    (n m : ℕ) (error : Error) (t : Bool) (r : Pass) (o : Option WebhookEvent)
    → (record_on n m error t r o).inbox.db ≡ r.inbox.db
unfolding record_on
record_on-db n m error t r none = refl
record_on-db n m error t r (some e) = refl

-- The round in which a failure is recorded.
abbrev deferring : Error → WebhookEvent → Pass → Pass
deferring error e r = record r {
  deferred = if is_gone error then r.deferred else e.id ∷ r.deferred;
}

-- A round leaves the tables that the handler leaves, or those that it began with.
conclude_event-Books :
    (m : ℕ) (e : WebhookEvent) (run : Result WebhookStatus × Db) (r : Pass)
    → Books r.inbox.db
    → Books run.1
    → Books (conclude_event m e run r).inbox.db
unfolding conclude_event record_failure
conclude_event-Books m e (ok outcome, db) r h k = k
conclude_event-Books m e (err error, db) r h k =
    subst Books
      (sym (
        record_on-db (e.attempts + 1) m error (is_gone error) (deferring error e r)
          (find (λ row. row.id == e.id) r.inbox.webhooks)))
      h

next-Books :
    (o : Option WebhookEvent) (r : Pass) (f : WebhookEvent → Pass)
    → Books r.inbox.db
    → ((e : WebhookEvent) → Books (f e).inbox.db)
    → Books (elim o as (λ x. Pass) [ none ↦ r | some e ↦ f e ]).inbox.db
next-Books none r f h k = h
next-Books (some e) r f h k = k e

process_rounds-Books :
    (rails : Rails) (m limit : ℕ) (r : Pass)
    → Books r.inbox.db
    → Books (process_rounds rails m limit r).inbox.db
unfolding process_rounds
process_rounds-Books rails m zero r h = h
process_rounds-Books rails m (suc limit) r h =
    next-Books (claim r.deferred r.inbox.webhooks) r
      (λ e. process_rounds rails m limit (conclude_event m e (handle_event rails e r.inbox.db) r)) h
      (λ e.
        process_rounds-Books rails m limit (conclude_event m e (handle_event rails e r.inbox.db) r)
          (conclude_event-Books m e (handle_event rails e r.inbox.db) r h
            ((handle_event-Books rails e).at r.inbox.db h)))

process_pending-IsConsistent :
    (rails : Rails) (limit max_attempts : ℕ) (inbox : Inbox)
    → IsConsistent inbox.db.ledger
    → IsConsistent (process_pending rails limit max_attempts inbox).0.db.ledger
unfolding process_pending
process_pending-IsConsistent rails limit max_attempts inbox h =
    process_rounds-Books rails max_attempts limit
      (record { inbox = inbox; deferred = []; report = no_events }) h

-- A run over the queue of webhooks, after any sequence of sessions that started from an empty ledger:
-- whatever webhooks have been received, whatever BTCPay answers, and whichever of them fail, the three
-- checks of the books pass.
pub process_pending-assert_ledger_consistent :
    (rails : Rails) (limit max_attempts : ℕ) (cs : List Command) (s : Db)
    (events : List WebhookEvent)
    → s.ledger ≡ empty
    → assert_ledger_consistent
        (process_pending rails limit max_attempts
          (record { db = serve cs s; webhooks = events })).0.db.ledger
      ≡ (
        ok tt,
        (process_pending rails limit max_attempts
            (record { db = serve cs s; webhooks = events })).0.db.ledger,
      )
process_pending-assert_ledger_consistent rails limit max_attempts cs s events h =
    assert_ledger_consistent_passes
      (process_pending rails limit max_attempts
        (record { db = serve cs s; webhooks = events })).0.db.ledger
      (process_pending-IsConsistent rails limit max_attempts
        (record { db = serve cs s; webhooks = events })
        (serve-IsConsistent cs s (rw h empty-IsConsistent)))
