-- ===== src/Deposits/Payments.antt =====
-- Payments are read, recorded and credited (src/crypto_processing_api/services/deposits.py).
use crypto_processing_api.Prelude.{
  ℕ, ◌+◌, pos, neg, Bool, true, false, ◌&&◌, not, Option, none, some, List, [], ◌∷◌, ◌++◌, map,
  if◌then◌else◌, ◌==◌, find, select,
}
use crypto_processing_api.Errors.{
  Result, ok, err, bind, integrity_error, other_constraint, already_posted, deposit_error,
  amount_error, no_result_found,
}
use crypto_processing_api.Exec.{Exec, gets, or_raise, modify, guard, pure, ◌>>=◌, ◌>>◌}
use crypto_processing_api.Models
use crypto_processing_api.Models.{
  hot_wallet, Actor, Account, JournalEntry, SourceRef, btcpay_payment,
}
use crypto_processing_api.Core.Amounts.Units.{to_units}
use crypto_processing_api.Ledger.Store.{Ledger}
use crypto_processing_api.Ledger.Accounts.{get_system_account, get_user_accounts}
use crypto_processing_api.Ledger.Entry.{EntryArgs, post_entry}
use crypto_processing_api.Withdrawals.Rows.{Db, on_ledger}
use crypto_processing_api.Deposits.Rows.{Deposit, DepositPayment, Payment, InvoicePaymentMethod}
use crypto_processing_api.Deposits.Status.{Parsed, is_settled_payment, is_invalid_payment}

-- The payments of the method, without the invalid ones.
unfoldable pub payments_of_method : Option InvoicePaymentMethod → List Payment
payments_of_method none = []
payments_of_method (some method) = method.payments

unfoldable pub valid_payments : Option InvoicePaymentMethod → List Payment
unfolding payments_of_method
valid_payments method = select (λ p. not (is_invalid_payment p.status)) (payments_of_method method)

-- `to_units` in a `try`: an `AmountError` marks the payments as unparseable, and what else is
-- raised goes on.
read_payment : Payment → Result ℕ → Result (Bool × List Parsed) → Result (Bool × List Parsed)
read_payment p (ok units) rest =
    bind rest
      λ (bad, parsed). ok (bad, record { id = p.id; amount = units; status = p.status } ∷ parsed)
read_payment p (err amount_error) rest = bind rest (λ (bad, parsed). ok (true, parsed))
read_payment p (err e) rest = err e

-- Whether a payment was unparseable, and the others.
unfoldable pub parse_payments : List Payment → ℕ → Result (Bool × List Parsed)
unfolding read_payment
parse_payments [] decimals = ok (false, [])
parse_payments (p ∷ payments) decimals =
    read_payment p (to_units p.value decimals) (parse_payments payments decimals)

abbrev pub is_row_of : ℕ → ℕ → DepositPayment → Bool
is_row_of deposit payment row = row.deposit_id == deposit && row.btcpay_payment_id == payment

abbrev pub is_some_row : Option DepositPayment → Bool
is_some_row none = false
is_some_row (some row) = true

unfoldable pub new_payment : ℕ → ℕ → ℕ → Bool → DepositPayment
new_payment deposit payment amount late = record {
  deposit_id = deposit;
  btcpay_payment_id = payment;
  amount = amount;
  after_expiration = late;
  ledger_entry_id = none;
  credited_at = none;
  resolved_by = none;
}

-- INSERT ... ON CONFLICT DO NOTHING
unfoldable pub insert_payment : Bool → DepositPayment → Db → Db
insert_payment true row s = s
insert_payment false row s = record s { deposit_payments = s.deposit_payments ++ row ∷ [] }

-- The row of the payment, and whether it is new. CHECK (amount > 0) comes before the conflict.
unfoldable pub upsert_payment : ℕ → ℕ → ℕ → Bool → Exec Db (DepositPayment × Bool)
unfolding insert_payment new_payment
upsert_payment deposit payment amount late = do
  guard (amount == 0) (integrity_error other_constraint)
  there ← gets (λ s. is_some_row (find (is_row_of deposit payment) s.deposit_payments))
  modify (insert_payment there (new_payment deposit payment amount late))
  found ← gets (λ s. find (is_row_of deposit payment) s.deposit_payments)
  row ← or_raise no_result_found found
  pure (row, not there)

unfoldable pub stored_payment : DepositPayment → DepositPayment → DepositPayment
stored_payment row other =
    if is_row_of row.deposit_id row.btcpay_payment_id other then row else other

-- row.ledger_entry_id = ...; row.credited_at = ...; row.resolved_by = ...
unfoldable pub credited_row : DepositPayment → ℕ → Actor → ℕ → DepositPayment
credited_row row entry actor now = record row {
  ledger_entry_id = some entry;
  credited_at = some now;
  resolved_by = some actor;
}

unfoldable pub store_credit : DepositPayment → ℕ → Actor → Exec Db DepositPayment
store_credit row entry actor s =
    let credited = credited_row row entry actor s.now in
    (ok credited, record s { deposit_payments = map (stored_payment credited) s.deposit_payments })

-- (hot.id, row.amount), (available.id, -row.amount)
unfoldable pub credit_entry : ℕ → ℕ → ℕ → ℕ → ℕ → ℕ → EntryArgs
credit_entry asset invoice payment amount hot available = record {
  kind = Models.EntryKind.deposit_credit;
  asset_id = asset;
  source_ref = btcpay_payment invoice payment;
  postings = (hot, pos amount) ∷ (available, neg (pos amount)) ∷ [];
  reverses_entry_id = none;
}

-- `except ledger.AlreadyPosted`: the entry that is there is adopted.
unfoldable pub adopt : Result JournalEntry × Ledger → Result ℕ × Ledger
adopt (ok e, l) = (ok e.id, l)
adopt (err (already_posted (some k)), l) = (ok k, l)
adopt (err (already_posted none), l) = (err deposit_error, l)
adopt (err e, l) = (err e, l)

unfoldable pub post_or_adopt : EntryArgs → Exec Ledger ℕ
unfolding adopt
post_or_adopt args l = adopt (post_entry args l)

-- The id of the entry that credits the payment.
unfoldable pub credited_entry : Deposit → ℕ → DepositPayment → ℕ → Exec Db ℕ
credited_entry d asset row invoice = do
  hot ← on_ledger (get_system_account asset hot_wallet)
  accounts ← on_ledger (get_user_accounts asset d.external_user_id)
  on_ledger (
      post_or_adopt
        (credit_entry asset invoice row.btcpay_payment_id row.amount hot.id accounts.0.id))

-- `_credit_payment`: the row as it is stored. The deposit's total follows with the deposit.
unfoldable pub credit_payment : Deposit → ℕ → DepositPayment → ℕ → Actor → Exec Db DepositPayment
unfolding credited_entry
credit_payment d asset row invoice actor = do
  entry ← credited_entry d asset row invoice
  store_credit row entry actor

-- What the loop over the payments carries: the deposit, and the lists of the result.
pub record Progress : Type 0 where
  pub deposit : Deposit
  pub recorded_payments : List ℕ
  pub credited_payments : List ℕ
  pub credited_units : ℕ

-- `if is_new`
unfoldable pub noted : Bool → ℕ → ℕ → Progress → Progress
noted false payment now p = p
noted true payment now p = record p {
  deposit = record p.deposit { last_payment_seen_at = some now };
  recorded_payments = p.recorded_payments ++ payment ∷ [];
}

unfoldable pub counted : DepositPayment → Progress → Progress
counted row p = record p {
  deposit = record p.deposit { amount_credited = p.deposit.amount_credited + row.amount };
  credited_payments = p.credited_payments ++ row.btcpay_payment_id ∷ [];
  credited_units = p.credited_units + row.amount;
}

abbrev pub is_uncredited : DepositPayment → Bool
is_uncredited row = elim row.credited_at [ none ↦ true | some t ↦ false ]

unfoldable pub credit_if : Bool → ℕ → DepositPayment → ℕ → Actor → Progress → Exec Db Progress
credit_if false asset row invoice actor p = pure p
credit_if true asset row invoice actor p = do
  credited ← credit_payment p.deposit asset row invoice actor
  pure (counted credited p)

-- What the loop is run with.
pub record Round : Type 0 where
  pub asset_id : ℕ
  pub invoice_id : ℕ
  pub creditable : Bool
  pub late : Bool
  pub actor : Actor

-- A recorded payment is credited if it has settled, and has not been credited.
unfoldable pub credit_recorded :
    Round → Parsed → Progress → DepositPayment × Bool → Exec Db Progress
credit_recorded r payment p (row, is_new) s =
    credit_if (r.creditable && (is_settled_payment payment.status && is_uncredited row)) r.asset_id
      row r.invoice_id r.actor (noted is_new payment.id s.now p) s

unfoldable pub apply_payment : Round → Parsed → Progress → Exec Db Progress
unfolding credit_recorded credit_if noted
apply_payment r payment p = do
  there ← upsert_payment p.deposit.id payment.id payment.amount r.late
  credit_recorded r payment p there

unfoldable pub apply_payments : Round → List Parsed → Progress → Exec Db Progress
apply_payments r [] p = pure p
apply_payments r (payment ∷ parsed) p = do
  p₁ ← apply_payment r payment p
  apply_payments r parsed p₁
