-- ===== src/Deposits/Invoices.antt =====
-- A deposit is created, and gets its invoice (src/crypto_processing_api/services/deposits.py).
use crypto_processing_api.Prelude.{
  ℕ, Bool, true, false, ◌&&◌, not, Option, none, some, List, [], ◌∷◌, ◌++◌, map, if◌then◌else◌,
  ◌==◌, ltb, find,
}
use crypto_processing_api.Errors.{
  Result, ok, err, integrity_error, other_constraint, out_of_range, unknown_asset,
  asset_unavailable, deposit_not_found, deposit_illegal_transition,
}
use crypto_processing_api.Exec.{Exec, lift, gets, or_raise, modify, guard, pure, ◌>>=◌, ◌>>◌}
use crypto_processing_api.Models.{DepositStatus}
use crypto_processing_api.Withdrawals.Rows.{Asset, Db, truthy, has_asset_id}
use crypto_processing_api.Deposits.Rows.{Deposit, Invoice, InvoicePaymentMethod, TopUp, Gateway}
use crypto_processing_api.Deposits.Status.{eq_deposit_status}

abbrev pub has_deposit_id : ℕ → Deposit → Bool
has_deposit_id k d = d.id == k

-- SELECT ... FOR UPDATE of one deposit, and `session.get`
unfoldable pub lock_deposit : ℕ → Exec Db Deposit
lock_deposit k = do
  found ← gets (λ s. find (has_deposit_id k) s.deposits)
  or_raise deposit_not_found found

abbrev pub is_some_deposit : Option Deposit → Bool
is_some_deposit none = false
is_some_deposit (some d) = true

-- another row with the same invoice: the column is unique
abbrev pub shares_invoice : Deposit → Deposit → Bool
shares_invoice d row = elim d.btcpay_invoice_id [
  | none ↦ false
  | some i ↦ elim row.btcpay_invoice_id [ none ↦ false | some j ↦ i == j && not (row.id == d.id) ]
]

unfoldable pub stored_deposit : Deposit → Deposit → Deposit
stored_deposit d row = if row.id == d.id then d else row

-- The row with the deposit's id, flushed: the unique invoice id, and a BIGINT for the total.
unfoldable pub save_deposit : Deposit → Exec Db (Unit {0})
save_deposit d = do
  shared ← gets (λ s. is_some_deposit (find (shares_invoice d) s.deposits))
  guard shared (integrity_error other_constraint)
  guard (ltb 9223372036854775807 d.amount_credited) out_of_range
  modify (λ s. record s { deposits = map (stored_deposit d) s.deposits })

-- `get_asset(session, asset_id, require_enabled=...)` of the deposits
unfoldable pub get_deposit_asset : ℕ → Bool → Exec Db Asset
get_deposit_asset k require_enabled = do
  found ← gets (λ s. find (has_asset_id k) s.assets)
  asset ← or_raise unknown_asset found
  guard (require_enabled && not asset.enabled) asset_unavailable
  pure asset

unfoldable pub new_deposit : ℕ → ℕ → ℕ → Option ℕ → ℕ → Deposit
new_deposit k user asset expected now = record {
  id = k;
  external_user_id = user;
  asset_id = asset;
  btcpay_invoice_id = none;
  amount_expected = expected;
  amount_credited = 0;
  status = DepositStatus.creating;
  address = none;
  address_reserved_from = none;
  address_reserved_until = none;
  checkout_link = none;
  expires_at = none;
  monitoring_expires_at = none;
  last_payment_seen_at = none;
  created_at = now;
  updated_at = now;
}

-- `k` is what `uuid7()` returned; the primary key is unique.
unfoldable pub create_deposit : ℕ → ℕ → ℕ → Option ℕ → Exec Db Deposit
unfolding new_deposit
create_deposit k user asset_id expected = do
  asset ← get_deposit_asset asset_id true
  d ← gets (λ s. new_deposit k user asset.id expected s.now)
  taken ← gets (λ s. is_some_deposit (find (has_deposit_id k) s.deposits))
  guard taken (integrity_error other_constraint)
  modify (λ s. record s { deposits = s.deposits ++ d ∷ [] })
  pure d

abbrev pub is_method_of : Asset → InvoicePaymentMethod → Bool
is_method_of asset method = method.payment_method_id == asset.btcpay_payment_method

-- `_payment_method_for`
unfoldable pub payment_method_for : Asset → List InvoicePaymentMethod → Option InvoicePaymentMethod
payment_method_for asset methods = find (is_method_of asset) methods

abbrev or_now : Option ℕ → ℕ → ℕ
or_now none now = now
or_now (some t) now = t

abbrev or_else : Option ℕ → Option ℕ → Option ℕ
or_else none other = other
or_else (some t) other = some t

-- The address, and how long it is held.
unfoldable pub reserved : Option InvoicePaymentMethod → Invoice → ℕ → Deposit → Deposit
reserved none invoice now d = d
reserved (some method) invoice now d = record d {
  address = method.destination;
  address_reserved_from = some (or_now invoice.created_time now);
  address_reserved_until = or_else invoice.monitoring_expiration invoice.expiration_time;
}

unfoldable pub opened : DepositStatus → DepositStatus
opened DepositStatus.creating = DepositStatus.pending
opened status = status

unfoldable pub attached : Deposit → Invoice → List InvoicePaymentMethod → Asset → ℕ → Deposit
unfolding reserved opened payment_method_for
attached d invoice methods asset now =
    reserved (payment_method_for asset methods) invoice now (record d {
      btcpay_invoice_id = some invoice.id;
      checkout_link = invoice.checkout_link;
      expires_at = invoice.expiration_time;
      monitoring_expires_at = invoice.monitoring_expiration;
      status = opened d.status;
      updated_at = now;
    })

unfoldable pub attach_invoice :
    Deposit → Invoice → List InvoicePaymentMethod → Asset → Exec Db Deposit
attach_invoice d invoice methods asset = do
  row ← gets (λ s. attached d invoice methods asset s.now)
  save_deposit row
  pure row

abbrev names_deposit : ℕ → Invoice → Bool
names_deposit k invoice = elim invoice.deposit_id [ none ↦ false | some j ↦ j == k ]

-- Nothing is found unless the caller asked for the search.
unfoldable pub find_invoice_for_deposit : Gateway → Bool → ℕ → Result (Option Invoice)
find_invoice_for_deposit gateway false k = ok none
find_invoice_for_deposit gateway true k = elim (gateway.list_invoices k) [
  | ok candidates ↦ ok (find (names_deposit k) candidates)
  | err e ↦ err e
]

-- The settings that the deposits read.
pub record DepositSettings : Type 0 where
  pub deposit_invoice_expiry_min_btc : ℕ
  pub deposit_invoice_expiry_min_usdt : ℕ
  pub deposit_monitoring_minutes : ℕ

-- `_expiry_minutes`
unfoldable pub expiry_minutes : DepositSettings → Asset → ℕ
expiry_minutes settings asset = or_now asset.deposit_expiry_minutes (
    if asset.pooled_addresses
    then settings.deposit_invoice_expiry_min_usdt
    else settings.deposit_invoice_expiry_min_btc)

-- asset.invoice_currency or asset.id
invoice_currency_of : Asset → ℕ
invoice_currency_of asset =
    if truthy asset.invoice_currency then or_now asset.invoice_currency asset.id else asset.id

unfoldable pub top_up : DepositSettings → Deposit → Asset → TopUp
unfolding expiry_minutes invoice_currency_of
top_up settings d asset = record {
  currency = invoice_currency_of asset;
  deposit_id = d.id;
  external_user_id = d.external_user_id;
  asset_id = d.asset_id;
  payment_method = asset.btcpay_payment_method;
  expiration_minutes = expiry_minutes settings asset;
  monitoring_minutes = settings.deposit_monitoring_minutes;
}

adopted_or_new : Gateway → DepositSettings → Deposit → Asset → Option Invoice → Result Invoice
adopted_or_new gateway settings d asset (some invoice) = ok invoice
adopted_or_new gateway settings d asset none =
    gateway.create_top_up_invoice (top_up settings d asset)

unfoldable pub make_invoice : Gateway → DepositSettings → Bool → Deposit → Exec Db Deposit
unfolding adopted_or_new
make_invoice gateway settings adopt_first d = do
  asset ← get_deposit_asset d.asset_id true
  found ← lift (find_invoice_for_deposit gateway adopt_first d.id)
  invoice ← lift (adopted_or_new gateway settings d asset found)
  methods ← lift (gateway.get_invoice_payment_methods invoice.id)
  attach_invoice d invoice methods asset

-- `if deposit.btcpay_invoice_id: return deposit`
unfoldable pub ensure_invoice : Gateway → DepositSettings → Bool → Deposit → Exec Db Deposit
ensure_invoice gateway settings adopt_first d =
    if truthy d.btcpay_invoice_id then pure d else make_invoice gateway settings adopt_first d

unfoldable pub mark_failed : Deposit → Exec Db (Unit {0})
mark_failed d = do
  guard (not (eq_deposit_status d.status DepositStatus.creating)) deposit_illegal_transition
  row ← gets (λ s. record d { status = DepositStatus.failed; updated_at = s.now })
  save_deposit row
