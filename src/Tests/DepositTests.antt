-- ===== src/Tests/DepositTests.antt =====
-- A deposit at concrete invoices.
use crypto_processing_api.Prelude.{find, ◌+ℤ◌, neg, sum_of, ◌≡◌, refl, none, some, List, [], ◌∷◌}
use crypto_processing_api.Errors.{ok, err, gateway_error}
use crypto_processing_api.Models.{
  DepositStatus, auto_actor, admin, eq_account_kind, eq_entry_kind, eq_source_ref,
}
use crypto_processing_api.Core.Text.{codes, is_space, lstrip, kept, rstrip, strip}
use crypto_processing_api.Core.Decimal.{
  is_digit, take_digits, split_sign, read_exponent, read_fraction, is_representable, read_number,
  read_decimal, dropped, finalize, scaleb,
}
use crypto_processing_api.Core.Amounts.{
  rounded, from_units, digits_on, digits, fixed_digits, fraction,
}
use crypto_processing_api.Core.Amounts.Units.{
  to_units, decimal_to_units, is_integral, integer, whole_units,
}
use crypto_processing_api.Ledger.Store.{
  empty, has_source, has_id, has_key, fits_bigint, sign_allowed, check_account, add_to, check_row,
  check_rows, update_balance,
}
use crypto_processing_api.Withdrawals.Rows.{Db}
use crypto_processing_api.Deposits.Rows.{
  Deposit, Gateway, Invoice, InvoiceStatus, AdditionalStatus, Payment, PaymentStatus,
  InvoicePaymentMethod,
}
use crypto_processing_api.Deposits.Status.{
  allowed_target, eq_deposit_status, is_terminal, is_active, is_known, wants_review, was_paid,
  target_status, is_settled_payment, is_invalid_payment, received, breaches_pooled_tolerance,
}
use crypto_processing_api.Deposits.Apply.{
  ApplyArgs, apply_invoice_state, methods_or_fetch, attach_first, wanted_target, is_creditable,
  reviewed, moved_to, start, conclude, round_of, follow_payments, read_payments, follow_invoice,
  apply_to, invoice_of, refresh_deposit,
}
use crypto_processing_api.Deposits.Results.{
  ApplyResult, untouched, result_of, emit_deposit, emit_status, emit_events,
}
use crypto_processing_api.Deposits.Replayed.{apply_invoice_state_replayed}
use crypto_processing_api.Deposits.Closed.{apply_invoice_state-closed}
use crypto_processing_api.Deposits.Graph.{Steps}
use crypto_processing_api.Deposits.Moved.{apply_invoice_state-Steps}
use crypto_processing_api.Commands
use crypto_processing_api.Commands.{Command, serve}
use crypto_processing_api.Samples.{funded, session}
use crypto_processing_api.Ledger.Accounts.{
  insert_account, get_or_create_account, get_user_accounts, insert_sorted, sorted, lock_each,
  lock_accounts, locked_row, lock_user_accounts, get_system_account, lock_asset_gate, ensure_each,
  ensure_system_accounts,
}
use crypto_processing_api.Ledger.Entry.{
  is_dangling, all_fit, add_delta, collect_deltas, insert_item, sorted_items, check_assets,
  apply_delta, apply_deltas, new_entry, posting_of, insert_entry, write_entry, translate,
  post_entry,
}
use crypto_processing_api.Exec.{savepoint}
use crypto_processing_api.Deposits.Invoices.{
  has_deposit_id, lock_deposit, stored_deposit, save_deposit, get_deposit_asset, new_deposit,
  create_deposit, payment_method_for, reserved, opened, attached, attach_invoice,
  find_invoice_for_deposit, expiry_minutes, top_up, make_invoice, ensure_invoice, mark_failed,
}
use crypto_processing_api.Deposits.Payments.{
  payments_of_method, valid_payments, parse_payments, new_payment, insert_payment, upsert_payment,
  stored_payment, store_credit, credited_row, credited_entry, credit_entry, adopt, post_or_adopt,
  credit_payment, noted, counted, credit_if, credit_recorded, apply_payment, apply_payments,
}
use crypto_processing_api.Deposits.Resolve.{
  dismiss_review, credit_review, resolve_credit, resolve_as, resolve_review,
}

-- 0.00000200 of an asset with eight decimals.
abbrev payment : Payment
payment = record { id = 5; value = codes "0.00000200"; status = PaymentStatus.settled }

abbrev methods : List InvoicePaymentMethod
methods = record { payment_method_id = 1; destination = some 9; payments = payment ∷ [] } ∷ []

abbrev paid_invoice : Invoice
paid_invoice = record {
  id = 3;
  checkout_link = none;
  created_time = none;
  expiration_time = some 900;
  monitoring_expiration = none;
  status = InvoiceStatus.settled;
  additional_status = AdditionalStatus.no_status;
  deposit_id = some 21;
}

abbrev pub gateway : Gateway
gateway = record {
  get_invoice = λ k. ok paid_invoice;
  get_invoice_payment_methods = λ k. ok methods;
  list_invoices = λ k. ok [];
  create_top_up_invoice = λ t. err gateway_error;
}

abbrev args : ApplyArgs
args = record {
  gateway = gateway;
  invoice = paid_invoice;
  payment_methods = none;
  actor = auto_actor;
  tolerance = record { numerator = 0; denominator = 1 };
}

abbrev deposit : DepositStatus → Deposit
deposit status = record {
  id = 21;
  external_user_id = 7;
  asset_id = 1;
  btcpay_invoice_id = some 3;
  amount_expected = none;
  amount_credited = 0;
  status = status;
  address = some 9;
  address_reserved_from = none;
  address_reserved_until = none;
  checkout_link = none;
  expires_at = none;
  monitoring_expires_at = none;
  last_payment_seen_at = none;
  created_at = 100;
  updated_at = 100;
}

abbrev waiting : DepositStatus → Db
waiting status = record (session funded []) { deposits = deposit status ∷ [] }

-- The payment is detected, credited to the user, and the deposit is settled.
abbrev outcome : ApplyResult
outcome = record {
  deposit_id = 21;
  previous_status = DepositStatus.pending;
  status = DepositStatus.settled;
  credited_units = 200;
  credited_payments = 5 ∷ [];
  recorded_payments = 5 ∷ [];
}

abbrev after : Db
after = (apply_invoice_state args 21 (waiting DepositStatus.pending)).1

credited : apply_invoice_state args 21 (waiting DepositStatus.pending) ≡ (ok outcome, after)
unfolding is_space lstrip kept rstrip strip is_digit take_digits split_sign read_exponent
    read_fraction is_representable read_number read_decimal dropped rounded finalize scaleb
    digits_on digits fixed_digits fraction from_units is_integral integer whole_units
    decimal_to_units to_units has_id has_key has_source fits_bigint sign_allowed check_account
    add_to check_row check_rows update_balance insert_account get_or_create_account
    get_user_accounts insert_sorted sorted lock_each lock_accounts locked_row lock_user_accounts
    get_system_account lock_asset_gate ensure_each ensure_system_accounts add_delta collect_deltas
    insert_item sorted_items check_assets apply_delta apply_deltas new_entry posting_of insert_entry
    write_entry is_dangling all_fit translate post_entry eq_account_kind eq_entry_kind eq_source_ref
    savepoint eq_deposit_status allowed_target is_terminal is_active is_known wants_review was_paid
    target_status is_settled_payment is_invalid_payment received breaches_pooled_tolerance
    lock_deposit stored_deposit save_deposit get_deposit_asset new_deposit create_deposit
    payment_method_for reserved opened attached attach_invoice find_invoice_for_deposit
    expiry_minutes top_up make_invoice ensure_invoice mark_failed payments_of_method valid_payments
    parse_payments new_payment insert_payment upsert_payment stored_payment store_credit
    credited_row credited_entry credit_entry adopt post_or_adopt credit_payment noted counted
    credit_if credit_recorded apply_payment apply_payments untouched result_of emit_deposit
    emit_status emit_events methods_or_fetch attach_first wanted_target is_creditable reviewed
    moved_to start conclude round_of follow_payments read_payments follow_invoice apply_to
    apply_invoice_state invoice_of refresh_deposit dismiss_review credit_review resolve_credit
    resolve_as resolve_review ◌+ℤ◌ neg sum_of
credited = refl

apply_invoice_state-Steps_example :
    (d' : Deposit) × (find
        (has_deposit_id 21)
        (apply_invoice_state args 21 (waiting DepositStatus.pending)).1.deposits
      ≡ some d')
    × Steps DepositStatus.pending d'.status
apply_invoice_state-Steps_example =
    apply_invoice_state-Steps args 21 (deposit DepositStatus.pending)
      (waiting DepositStatus.pending) refl credited

apply_invoice_state-closed_example :
    (apply_invoice_state args 21 (waiting DepositStatus.review)).1.ledger ≡ funded
unfolding eq_deposit_status
apply_invoice_state-closed_example =
    apply_invoice_state-closed args 21 (deposit DepositStatus.review) (waiting DepositStatus.review)
      refl refl

-- The webhook, and then the poll.
abbrev pub commands : List Command
commands =
    Commands.provision 1 ∷ Commands.apply_invoice args 21 ∷ Commands.apply_invoice args 21 ∷ []

abbrev pub fresh : Db
fresh = record (session empty []) { deposits = deposit DepositStatus.pending ∷ [] }

-- The poll after the webhook, by an admin.
apply_invoice_state_replayed_example :
    (apply_invoice_state (record args { actor = admin 1 }) 21 after).1.ledger ≡ after.ledger
apply_invoice_state_replayed_example =
    apply_invoice_state_replayed args 21 (admin 1) (waiting DepositStatus.pending) credited
