-- ===== src/Deposits/LedgerFree.antt =====
-- The operations on deposits that leave the ledger alone: all but the crediting of a payment.
use crypto_processing_api.Prelude.{refl, ℕ, Bool, true, false, Option, List, [], ◌∷◌, ◌++◌}
use crypto_processing_api.Exec.{modify}
use crypto_processing_api.Exec.Preserves.{Preserves, preserves_rules}
use crypto_processing_api.Models.{DepositStatus, Actor}
use crypto_processing_api.Ledger.Store.{Ledger}
use crypto_processing_api.Withdrawals.Rows.{Asset, Db, EventType, Event}
use crypto_processing_api.Deposits.Rows.{
  Deposit, DepositPayment, Invoice, InvoicePaymentMethod, Gateway,
}
use crypto_processing_api.Deposits.Invoices.{
  lock_deposit, save_deposit, get_deposit_asset, create_deposit, attach_invoice, DepositSettings,
  make_invoice, ensure_invoice, mark_failed,
}
use crypto_processing_api.Deposits.Payments.{insert_payment, upsert_payment, store_credit, Progress}
use crypto_processing_api.Deposits.Apply.{attach_first, conclude}
use crypto_processing_api.Deposits.Results.{ApplyResult, emit_deposit, emit_status, emit_events}
use crypto_processing_api.Deposits.Resolve.{dismiss_review}

abbrev pub ledger_of : Db → Ledger
ledger_of s = s.ledger

pub save_deposit-LedgerFree : (d : Deposit) → Preserves ledger_of (save_deposit d)
unfolding save_deposit
save_deposit-LedgerFree d = search (preserves_rules, modify_rows) depth 10
  where
    modify_rows :
        (f : Db → List Deposit) → Preserves ledger_of (modify (λ s. record s { deposits = f s }))
    modify_rows f = record { at = λ s. refl }

pub lock_deposit-LedgerFree : (k : ℕ) → Preserves ledger_of (lock_deposit k)
unfolding lock_deposit
lock_deposit-LedgerFree k = search preserves_rules depth 8

pub get_deposit_asset-LedgerFree : (k : ℕ) (b : Bool) → Preserves ledger_of (get_deposit_asset k b)
unfolding get_deposit_asset
get_deposit_asset-LedgerFree k b = search preserves_rules depth 10

pub add_deposit-LedgerFree :
    (d : Deposit) → Preserves ledger_of (modify (λ s. record s { deposits = s.deposits ++ d ∷ [] }))
add_deposit-LedgerFree d = record { at = λ s. refl }

pub insert_payment-LedgerFree :
    (b : Bool) (row : DepositPayment) → Preserves ledger_of (modify (insert_payment b row))
unfolding insert_payment
insert_payment-LedgerFree true row = record { at = λ s. refl }
insert_payment-LedgerFree false row = record { at = λ s. refl }

pub store_credit-LedgerFree :
    (row : DepositPayment) (e : ℕ) (actor : Actor) → Preserves ledger_of (store_credit row e actor)
unfolding store_credit
store_credit-LedgerFree row e actor = record { at = λ s. refl }

add_event-LedgerFree :
    (e : Event) → Preserves ledger_of (modify (λ s. record s { events = s.events ++ e ∷ [] }))
add_event-LedgerFree e = record { at = λ s. refl }

pub emit_deposit-LedgerFree :
    (t : EventType) (ks : Option (List ℕ)) (d : Deposit) (a : Asset)
    → Preserves ledger_of (emit_deposit t ks d a)
unfolding emit_deposit
emit_deposit-LedgerFree t ks d a = search (preserves_rules, add_event-LedgerFree) depth 8

ruleset free_rules = (
  preserves_rules, save_deposit-LedgerFree, lock_deposit-LedgerFree, get_deposit_asset-LedgerFree,
  add_deposit-LedgerFree, insert_payment-LedgerFree, store_credit-LedgerFree,
  emit_deposit-LedgerFree,
)

pub create_deposit-LedgerFree :
    (k user asset : ℕ) (expected : Option ℕ)
    → Preserves ledger_of (create_deposit k user asset expected)
unfolding create_deposit
create_deposit-LedgerFree k user asset expected = search free_rules depth 24

pub attach_invoice-LedgerFree :
    (d : Deposit) (i : Invoice) (ms : List InvoicePaymentMethod) (a : Asset)
    → Preserves ledger_of (attach_invoice d i ms a)
unfolding attach_invoice
attach_invoice-LedgerFree d i ms a = search free_rules depth 12

pub make_invoice-LedgerFree :
    (g : Gateway) (settings : DepositSettings) (b : Bool) (d : Deposit)
    → Preserves ledger_of (make_invoice g settings b d)
unfolding make_invoice
make_invoice-LedgerFree g settings b d = search (free_rules, attach_invoice-LedgerFree) depth 20

pub ensure_invoice-LedgerFree :
    (g : Gateway) (settings : DepositSettings) (b : Bool) (d : Deposit)
    → Preserves ledger_of (ensure_invoice g settings b d)
unfolding ensure_invoice
ensure_invoice-LedgerFree g settings b d = search (free_rules, make_invoice-LedgerFree) depth 8

pub mark_failed-LedgerFree : (d : Deposit) → Preserves ledger_of (mark_failed d)
unfolding mark_failed
mark_failed-LedgerFree d = search free_rules depth 12

pub upsert_payment-LedgerFree :
    (d p amount : ℕ) (late : Bool) → Preserves ledger_of (upsert_payment d p amount late)
unfolding upsert_payment
upsert_payment-LedgerFree d p amount late = search free_rules depth 24

pub emit_status-LedgerFree :
    (b : Bool) (d : Deposit) (a : Asset) (t : DepositStatus)
    → Preserves ledger_of (emit_status b d a t)
unfolding emit_status
emit_status-LedgerFree false d a t = search free_rules
emit_status-LedgerFree true d a DepositStatus.settled = search free_rules
emit_status-LedgerFree true d a DepositStatus.review = search free_rules
emit_status-LedgerFree true d a DepositStatus.expired = search free_rules
emit_status-LedgerFree true d a _ = search free_rules

pub emit_events-LedgerFree :
    (d : Deposit) (a : Asset) (r : ApplyResult) → Preserves ledger_of (emit_events d a r)
unfolding emit_events
emit_events-LedgerFree d a r = search (free_rules, emit_status-LedgerFree) depth 10

pub conclude-LedgerFree :
    (previous target : DepositStatus) (a : Asset) (p : Progress)
    → Preserves ledger_of (conclude previous target a p)
unfolding conclude
conclude-LedgerFree previous target a p = search (free_rules, emit_events-LedgerFree) depth 16

pub attach_first-LedgerFree :
    (d : Deposit) (i : Invoice) (ms : List InvoicePaymentMethod) (a : Asset)
    → Preserves ledger_of (attach_first d i ms a)
unfolding attach_first
attach_first-LedgerFree d i ms a = search (free_rules, attach_invoice-LedgerFree) depth 8

pub dismiss_review-LedgerFree : (d : Deposit) → Preserves ledger_of (dismiss_review d)
unfolding dismiss_review
dismiss_review-LedgerFree d = search free_rules depth 12
