-- ===== src/Deposits/Tables.antt =====
-- Which tables the parts of `apply_invoice_state` write to.
use crypto_processing_api.Prelude.{refl, ℕ, Bool, true, false, Option, List, [], ◌∷◌, ◌++◌}
use crypto_processing_api.Exec.{Exec, modify}
use crypto_processing_api.Exec.Preserves.{Preserves, Preserves-bind, preserves_rules}
use crypto_processing_api.Models.{DepositStatus, Actor}
use crypto_processing_api.Ledger.Store.{Ledger}
use crypto_processing_api.Withdrawals.Rows.{Asset, Db, EventType, Event, on_ledger}
use crypto_processing_api.Deposits.Rows.{Deposit, DepositPayment, Invoice, InvoicePaymentMethod}
use crypto_processing_api.Deposits.Status.{Parsed}
use crypto_processing_api.Deposits.Invoices.{save_deposit, attach_invoice}
use crypto_processing_api.Deposits.Payments.{
  insert_payment, upsert_payment, store_credit, credited_entry, credit_payment, credit_if,
  credit_recorded, Round, Progress, apply_payment, apply_payments,
}
use crypto_processing_api.Deposits.Apply.{attach_first}
use crypto_processing_api.Deposits.Results.{ApplyResult, emit_deposit, emit_status, emit_events}

-- All but the events.
abbrev pub tables : Db → List Asset × (List Deposit × List DepositPayment)
tables s = (s.assets, (s.deposits, s.deposit_payments))

-- The loop over the payments writes to the ledger and to the payments.
abbrev pub deposits_of : Db → List Asset × List Deposit
deposits_of s = (s.assets, s.deposits)

-- A deposit is stored without a change to the payments.
abbrev pub payments_of : Db → List Asset × List DepositPayment
payments_of s = (s.assets, s.deposit_payments)

insert_payment-Preserves :
    (b : Bool) (row : DepositPayment) → Preserves deposits_of (modify (insert_payment b row))
unfolding insert_payment
insert_payment-Preserves true row = record { at = λ s. refl }
insert_payment-Preserves false row = record { at = λ s. refl }

upsert_payment-Preserves :
    (d p amount : ℕ) (late : Bool) → Preserves deposits_of (upsert_payment d p amount late)
unfolding upsert_payment
upsert_payment-Preserves d p amount late =
    search (preserves_rules, insert_payment-Preserves) depth 24

store_credit-Preserves :
    (row : DepositPayment) (e : ℕ) (actor : Actor)
    → Preserves deposits_of (store_credit row e actor)
unfolding store_credit
store_credit-Preserves row e actor = record { at = λ s. refl }

on_ledger-Preserves : {A : Type 0} (m : Exec Ledger A) → Preserves deposits_of (on_ledger m)
on_ledger-Preserves m = record { at = λ s. refl }

credit_payment-Preserves :
    (d : Deposit) (asset : ℕ) (row : DepositPayment) (invoice : ℕ) (actor : Actor)
    → Preserves deposits_of (credit_payment d asset row invoice actor)
unfolding credit_payment credited_entry
credit_payment-Preserves d asset row invoice actor =
    search (preserves_rules, on_ledger-Preserves, store_credit-Preserves) depth 24

credit_if-Preserves :
    (b : Bool) (asset : ℕ) (row : DepositPayment) (invoice : ℕ) (actor : Actor) (p : Progress)
    → Preserves deposits_of (credit_if b asset row invoice actor p)
unfolding credit_if
credit_if-Preserves true asset row invoice actor p =
    search (preserves_rules, credit_payment-Preserves) depth 8
credit_if-Preserves false asset row invoice actor p = search preserves_rules

credit_recorded-Preserves :
    (r : Round) (payment : Parsed) (p : Progress) (there : DepositPayment × Bool)
    → Preserves deposits_of (credit_recorded r payment p there)
unfolding credit_recorded
credit_recorded-Preserves r payment p (row, is_new) = record {
  at = λ s. (credit_if-Preserves _ r.asset_id row r.invoice_id r.actor _).at s;
}

pub apply_payments-Preserves :
    (r : Round) (ps : List Parsed) (p : Progress) → Preserves deposits_of (apply_payments r ps p)
unfolding apply_payments apply_payment
apply_payments-Preserves r [] p = search preserves_rules
apply_payments-Preserves r (x ∷ ps) p =
    Preserves-bind _ _
      (Preserves-bind _ _ (upsert_payment-Preserves p.deposit.id x.id x.amount r.late)
        (credit_recorded-Preserves r x p))
      (apply_payments-Preserves r ps)

pub save_deposit-Preserves : (d : Deposit) → Preserves payments_of (save_deposit d)
unfolding save_deposit
save_deposit-Preserves d = search (preserves_rules, modify_rows) depth 10
  where
    modify_rows :
        (f : Db → List Deposit) → Preserves payments_of (modify (λ s. record s { deposits = f s }))
    modify_rows f = record { at = λ s. refl }

attach_invoice-Preserves :
    (d : Deposit) (i : Invoice) (ms : List InvoicePaymentMethod) (a : Asset)
    → Preserves payments_of (attach_invoice d i ms a)
unfolding attach_invoice
attach_invoice-Preserves d i ms a = search (preserves_rules, save_deposit-Preserves) depth 12

pub attach_first-Preserves :
    (d : Deposit) (i : Invoice) (ms : List InvoicePaymentMethod) (a : Asset)
    → Preserves payments_of (attach_first d i ms a)
unfolding attach_first
attach_first-Preserves d i ms a = search (preserves_rules, attach_invoice-Preserves) depth 8

add_event-Preserves :
    (e : Event) → Preserves tables (modify (λ s. record s { events = s.events ++ e ∷ [] }))
add_event-Preserves e = record { at = λ s. refl }

emit_deposit-Preserves :
    (t : EventType) (ks : Option (List ℕ)) (d : Deposit) (a : Asset)
    → Preserves tables (emit_deposit t ks d a)
unfolding emit_deposit
emit_deposit-Preserves t ks d a = search (preserves_rules, add_event-Preserves) depth 8

emit_status-Preserves :
    (b : Bool) (d : Deposit) (a : Asset) (t : DepositStatus)
    → Preserves tables (emit_status b d a t)
unfolding emit_status
emit_status-Preserves false d a t = search preserves_rules
emit_status-Preserves true d a DepositStatus.settled =
    search (preserves_rules, emit_deposit-Preserves)
emit_status-Preserves true d a DepositStatus.review =
    search (preserves_rules, emit_deposit-Preserves)
emit_status-Preserves true d a DepositStatus.expired =
    search (preserves_rules, emit_deposit-Preserves)
emit_status-Preserves true d a _ = search preserves_rules

pub emit_events-Preserves :
    (d : Deposit) (a : Asset) (r : ApplyResult) → Preserves tables (emit_events d a r)
unfolding emit_events
emit_events-Preserves d a r =
    search (preserves_rules, emit_deposit-Preserves, emit_status-Preserves) depth 10
