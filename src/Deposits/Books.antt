-- ===== src/Deposits/Books.antt =====
-- The operations on deposits keep the books consistent.
use crypto_processing_api.Prelude.{
  ◌≡◌, refl, ℕ, Bool, true, false, Option, none, some, List, [], ◌∷◌,
}
use crypto_processing_api.Errors.{Result, ok, err, already_posted}
use crypto_processing_api.Exec.{Exec}
use crypto_processing_api.Exec.Keeps.{Keeps, Keeps-if, Keeps-bind, keeps_rules}
use crypto_processing_api.Exec.Preserves.{Preserves, Keeps-of_Preserves}
use crypto_processing_api.Models.{DepositStatus, Actor, JournalEntry}
use crypto_processing_api.Fees.{Rate}
use crypto_processing_api.Ledger.Store.{Ledger}
use crypto_processing_api.Ledger.Entry.{EntryArgs, post_entry}
use crypto_processing_api.Ledger.Consistency.{IsConsistent}
use crypto_processing_api.Ledger.Consistency.Kept.{post_entry-IsConsistent}
use crypto_processing_api.Ledger.Consistency.Provision.{
  get_user_accounts-IsConsistent, get_system_account-IsConsistent,
}
use crypto_processing_api.Withdrawals.Rows.{Asset, Db}
use crypto_processing_api.Withdrawals.Books.{Books, on_ledger-Books}
use crypto_processing_api.Deposits.Rows.{
  Deposit, DepositPayment, Invoice, Payment, InvoicePaymentMethod, Gateway,
}
use crypto_processing_api.Deposits.Status.{Parsed}
use crypto_processing_api.Deposits.Invoices.{
  lock_deposit, save_deposit, get_deposit_asset, create_deposit, DepositSettings, ensure_invoice,
  mark_failed,
}
use crypto_processing_api.Deposits.Payments.{
  upsert_payment, store_credit, adopt, post_or_adopt, credited_entry, credit_payment, credit_if,
  Round, Progress, credit_recorded, apply_payment, apply_payments,
}
use crypto_processing_api.Deposits.Apply.{
  ApplyArgs, attach_first, conclude, follow_payments, read_payments, follow_invoice,
  apply_invoice_state, refresh_deposit,
}
use crypto_processing_api.Deposits.Results.{ApplyResult, emit_events}
use crypto_processing_api.Deposits.LedgerFree.{
  ledger_of, create_deposit-LedgerFree, lock_deposit-LedgerFree, ensure_invoice-LedgerFree,
  mark_failed-LedgerFree, get_deposit_asset-LedgerFree, save_deposit-LedgerFree,
  store_credit-LedgerFree, upsert_payment-LedgerFree, emit_events-LedgerFree, conclude-LedgerFree,
  attach_first-LedgerFree, dismiss_review-LedgerFree,
}
use crypto_processing_api.Deposits.Resolve.{
  dismiss_review, credit_review, resolve_credit, resolve_as, resolve_review, ResolveAction, dismiss,
  credit, other_action,
}

adopt-ledger : (r : Result JournalEntry × Ledger) → (adopt r).1 ≡ r.1
unfolding adopt
adopt-ledger (ok e, l) = refl
adopt-ledger (err (already_posted none), l) = refl
adopt-ledger (err (already_posted (some k)), l) = refl
adopt-ledger (err e, l) = refl

post_or_adopt-IsConsistent : (args : EntryArgs) → Keeps IsConsistent (post_or_adopt args)
unfolding post_or_adopt
post_or_adopt-IsConsistent args = record {
  at = λ l h. rw (adopt-ledger (post_entry args l)) ((post_entry-IsConsistent args).at l h);
}

-- What leaves the ledger alone keeps the books.
free-Books : {A : Type 0} (m : Exec Db A) → Preserves ledger_of m → Keeps Books m
free-Books m free = Keeps-of_Preserves ledger_of IsConsistent m free

pub create_deposit-Books :
    (k user asset : ℕ) (expected : Option ℕ) → Keeps Books (create_deposit k user asset expected)
create_deposit-Books k user asset expected =
    free-Books _ (create_deposit-LedgerFree k user asset expected)

pub lock_deposit-Books : (k : ℕ) → Keeps Books (lock_deposit k)
lock_deposit-Books k = free-Books _ (lock_deposit-LedgerFree k)

pub ensure_invoice-Books :
    (g : Gateway) (settings : DepositSettings) (b : Bool) (d : Deposit)
    → Keeps Books (ensure_invoice g settings b d)
ensure_invoice-Books g settings b d = free-Books _ (ensure_invoice-LedgerFree g settings b d)

pub mark_failed-Books : (d : Deposit) → Keeps Books (mark_failed d)
mark_failed-Books d = free-Books _ (mark_failed-LedgerFree d)

get_deposit_asset-Books : (k : ℕ) (b : Bool) → Keeps Books (get_deposit_asset k b)
get_deposit_asset-Books k b = free-Books _ (get_deposit_asset-LedgerFree k b)

save_deposit-Books : (d : Deposit) → Keeps Books (save_deposit d)
save_deposit-Books d = free-Books _ (save_deposit-LedgerFree d)

store_credit-Books :
    (row : DepositPayment) (e : ℕ) (actor : Actor) → Keeps Books (store_credit row e actor)
store_credit-Books row e actor = free-Books _ (store_credit-LedgerFree row e actor)

upsert_payment-Books : (d p amount : ℕ) (late : Bool) → Keeps Books (upsert_payment d p amount late)
upsert_payment-Books d p amount late = free-Books _ (upsert_payment-LedgerFree d p amount late)

emit_events-Books : (d : Deposit) (a : Asset) (r : ApplyResult) → Keeps Books (emit_events d a r)
emit_events-Books d a r = free-Books _ (emit_events-LedgerFree d a r)

conclude-Books :
    (previous target : DepositStatus) (a : Asset) (p : Progress)
    → Keeps Books (conclude previous target a p)
conclude-Books previous target a p = free-Books _ (conclude-LedgerFree previous target a p)

attach_first-Books :
    (d : Deposit) (i : Invoice) (ms : List InvoicePaymentMethod) (a : Asset)
    → Keeps Books (attach_first d i ms a)
attach_first-Books d i ms a = free-Books _ (attach_first-LedgerFree d i ms a)

dismiss_review-Books : (d : Deposit) → Keeps Books (dismiss_review d)
dismiss_review-Books d = free-Books _ (dismiss_review-LedgerFree d)

ruleset deposit_rules = (
  keeps_rules, Keeps-if, on_ledger-Books, save_deposit-Books, lock_deposit-Books,
  get_deposit_asset-Books, store_credit-Books, upsert_payment-Books, post_or_adopt-IsConsistent,
  get_user_accounts-IsConsistent, get_system_account-IsConsistent,
)

credit_payment-Books :
    (d : Deposit) (asset : ℕ) (row : DepositPayment) (invoice : ℕ) (actor : Actor)
    → Keeps Books (credit_payment d asset row invoice actor)
unfolding credit_payment credited_entry
credit_payment-Books d asset row invoice actor = search deposit_rules depth 24

credit_if-Books :
    (b : Bool) (asset : ℕ) (row : DepositPayment) (invoice : ℕ) (actor : Actor) (p : Progress)
    → Keeps Books (credit_if b asset row invoice actor p)
unfolding credit_if
credit_if-Books true asset row invoice actor p =
    search (deposit_rules, credit_payment-Books) depth 8
credit_if-Books false asset row invoice actor p = search deposit_rules

credit_recorded-Books :
    (r : Round) (payment : Parsed) (p : Progress) (there : DepositPayment × Bool)
    → Keeps Books (credit_recorded r payment p there)
unfolding credit_recorded
credit_recorded-Books r payment p (row, is_new) = record {
  at = λ s h. (credit_if-Books _ r.asset_id row r.invoice_id r.actor _).at s h;
}

apply_payment-Books :
    (r : Round) (payment : Parsed) (p : Progress) → Keeps Books (apply_payment r payment p)
unfolding apply_payment
apply_payment-Books r payment p =
    Keeps-bind _ _ (upsert_payment-Books p.deposit.id payment.id payment.amount r.late)
      (credit_recorded-Books r payment p)

apply_payments-Books :
    (r : Round) (ps : List Parsed) (p : Progress) → Keeps Books (apply_payments r ps p)
unfolding apply_payments
apply_payments-Books r [] p = search deposit_rules
apply_payments-Books r (x ∷ ps) p =
    Keeps-bind _ _ (apply_payment-Books r x p) (apply_payments-Books r ps)

follow_payments-Books :
    (args : ApplyArgs) (previous : DepositStatus) (d : Deposit) (a : Asset) (t : DepositStatus)
    (parsed : List Parsed)
    → Keeps Books (follow_payments args previous d a t parsed)
unfolding follow_payments
follow_payments-Books args previous d a t parsed =
    search (deposit_rules, apply_payments-Books, conclude-Books) depth 12

read_payments-Books :
    (args : ApplyArgs) (previous : DepositStatus) (a : Asset) (ms : List InvoicePaymentMethod)
    (d : Deposit)
    → Keeps Books (read_payments args previous a ms d)
unfolding read_payments
read_payments-Books args previous a ms d = search (deposit_rules, follow_payments-Books) depth 12

follow_invoice-Books : (args : ApplyArgs) (d : Deposit) → Keeps Books (follow_invoice args d)
unfolding follow_invoice
follow_invoice-Books args d =
    search (deposit_rules, attach_first-Books, read_payments-Books) depth 20

pub apply_invoice_state-Books :
    (args : ApplyArgs) (k : ℕ) → Keeps Books (apply_invoice_state args k)
unfolding apply_invoice_state
apply_invoice_state-Books args k = search (deposit_rules, follow_invoice-Books) depth 16

pub refresh_deposit-Books :
    (g : Gateway) (k : ℕ) (actor : Actor) (tolerance : Rate)
    → Keeps Books (refresh_deposit g k actor tolerance)
unfolding refresh_deposit
refresh_deposit-Books g k actor tolerance =
    search (deposit_rules, apply_invoice_state-Books) depth 16

credit_review-Books :
    (d : Deposit) (a : Asset) (invoice : ℕ) (p : Payment) (amount : ℕ) (actor : Actor)
    → Keeps Books (credit_review d a invoice p amount actor)
unfolding credit_review
credit_review-Books d a invoice p amount actor =
    search (deposit_rules, upsert_payment-Books, credit_if-Books, emit_events-Books) depth 24

resolve_credit-Books :
    (g : Gateway) (d : Deposit) (a : Asset) (k : Option ℕ) (actor : Actor)
    → Keeps Books (resolve_credit g d a k actor)
unfolding resolve_credit
resolve_credit-Books g d a k actor = search (deposit_rules, credit_review-Books) depth 24

resolve_as-Books :
    (c : ResolveAction) (g : Gateway) (d : Deposit) (a : Asset) (k : Option ℕ) (actor : Actor)
    → Keeps Books (resolve_as c g d a k actor)
unfolding resolve_as
resolve_as-Books dismiss g d a k actor = dismiss_review-Books d
resolve_as-Books credit g d a k actor = resolve_credit-Books g d a k actor
resolve_as-Books other_action g d a k actor = search deposit_rules

pub resolve_review-Books :
    (g : Gateway) (k : ℕ) (c : ResolveAction) (payment : Option ℕ) (actor : Actor)
    → Keeps Books (resolve_review g k c payment actor)
unfolding resolve_review
resolve_review-Books g k c payment actor = search (deposit_rules, resolve_as-Books) depth 16
