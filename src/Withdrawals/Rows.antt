-- ===== src/Withdrawals/Rows.antt =====
-- The rows that the withdrawal service reads and writes, and the session it works in
-- (src/crypto_processing_api/ledger/models.py, src/crypto_processing_api/services/events.py).
use crypto_processing_api.Prelude.{
  ℕ, zero, suc, ℤ, Bool, true, false, Option, none, some, List, [], ◌∷◌, ◌++◌, map, if◌then◌else◌,
  ◌==◌, find,
}
use crypto_processing_api.Errors.{Result, ok, bind, withdrawal_error, withdrawal_not_found}
use crypto_processing_api.Exec.{Exec, lift, gets, or_raise, modify, guard, pure, ◌>>=◌, ◌>>◌}
use crypto_processing_api.Models.{Status}
pub use crypto_processing_api.Models.{Actor, auto_actor, never_submitted, definitive_failure, admin}
use crypto_processing_api.Deposits.Rows.{Deposit, DepositPayment, DepositEventData}
use crypto_processing_api.Core.Text.{Text}
use crypto_processing_api.Core.Amounts.{from_units}
use crypto_processing_api.Ledger.Store.{Ledger}

-- Backend references and transaction ids are texts that are compared and tested for being empty:
-- 0 is the empty text.
abbrev pub truthy : Option ℕ → Bool
truthy none = false
truthy (some zero) = false
truthy (some (suc n)) = true

pub data ApprovalMode : Type 0 where
  auto manual : ApprovalMode

pub data Backend : Type 0 where
  btcpay_payout btcpay_payout_ln manual_tron : Backend

pub record Asset : Type 0 where
  pub id : ℕ
  pub decimals : ℕ
  pub withdrawal_auto_limit : ℤ
  pub withdrawal_daily_cap : ℤ
  pub withdrawal_user_daily_cap : Option ℤ
  pub withdrawal_min : ℤ
  pub withdrawal_flat_fee : ℤ
  pub enabled : Bool
  pub btcpay_payment_method : ℕ
  pub pooled_addresses : Bool
  pub invoice_currency : Option ℕ
  pub deposit_expiry_minutes : Option ℕ

pub record Withdrawal : Type 0 where
  pub id : ℕ
  pub external_user_id : ℕ
  pub asset_id : ℕ
  pub destination_address : ℕ
  pub amount_gross : ℤ
  pub fee_amount : Option ℤ
  pub amount_net : Option ℤ
  pub status : Status
  pub approval_mode : ApprovalMode
  pub approved_by : Option Actor
  pub backend : Backend
  pub backend_ref : Option ℕ
  pub txid : Option ℕ
  pub hold_entry_id : Option ℕ
  pub submit_entry_id : Option ℕ
  pub settle_entry_id : Option ℕ
  pub release_entry_id : Option ℕ
  pub submitted_at : Option ℕ
  pub rejected_by : Option Actor
  pub released_by : Option Actor
  pub release_attestation : Option Text
  pub failure_reason : Option Text
  pub created_at : ℕ
  pub updated_at : ℕ

pub data EventType : Type 0 where
  pending_approval broadcast completed failed : EventType
  deposit_detected deposit_settled deposit_review deposit_expired : EventType

-- The published fields of a withdrawal event.
pub record Payload : Type 0 where
  pub withdrawal_id : ℕ
  pub external_user_id : ℕ
  pub asset : ℕ
  pub status : Status
  pub amount_gross : Text
  pub amount_net : Option Text
  pub fee : Option Text
  pub destination_address : ℕ
  pub txid : Option ℕ
  pub reason : Option Text

pub data EventData : Type 0 where
  withdrawal_data : Payload → EventData
  deposit_data : DepositEventData → EventData

pub record Event : Type 0 where
  pub event_type : EventType
  pub payload : EventData

-- A session. `now` is the clock, in seconds, which an operation reads once.
pub record Db : Type 0 where
  pub ledger : Ledger
  pub assets : List Asset
  pub withdrawals : List Withdrawal
  pub deposits : List Deposit
  pub deposit_payments : List DepositPayment
  pub events : List Event
  pub now : ℕ

-- A call of the ledger, in the same session.
abbrev pub with_ledger {ℓ} : {A : Type ℓ} → Db → Result A × Ledger → Result A × Db
with_ledger s (r, l) = (r, record s { ledger = l })

abbrev pub on_ledger : {A : Type 0} → Exec Ledger A → Exec Db A
on_ledger m s = with_ledger s (m s.ledger)

abbrev pub has_withdrawal_id : ℕ → Withdrawal → Bool
has_withdrawal_id k w = w.id == k

-- `lock`: SELECT ... FOR UPDATE of one row.
unfoldable pub lock : ℕ → Exec Db Withdrawal
lock k = do
  found ← gets (λ s. find (has_withdrawal_id k) s.withdrawals)
  or_raise withdrawal_not_found found

-- The row with the withdrawal's id, flushed.
unfoldable pub stored : Withdrawal → Withdrawal → Withdrawal
stored w row = if row.id == w.id then w else row

unfoldable pub save : Withdrawal → Exec Db Withdrawal
save w s = (ok w, record s { withdrawals = map (stored w) s.withdrawals })

abbrev pub has_asset_id : ℕ → Asset → Bool
has_asset_id k a = a.id == k

-- `get_asset(session, asset_id, require_enabled=...)`
unfoldable pub get_asset : ℕ → Bool → Exec Db Asset
get_asset k require_enabled = do
  found ← gets (λ s. find (has_asset_id k) s.assets)
  asset ← or_raise withdrawal_error found
  guard (if require_enabled then (if asset.enabled then false else true) else false)
      withdrawal_error
  pure asset

-- from_units(amount, decimals) if amount is not None else None
render : Option ℤ → ℕ → Result (Option Text)
render none decimals = ok none
render (some x) decimals = bind (from_units x decimals) (λ t. ok (some t))

-- A decision is published with its reason; `if reason:` leaves an empty one out.
published : Option Text → Option Text
published none = none
published (some []) = none
published (some (c ∷ t)) = some (c ∷ t)

unfoldable pub event_payload : Withdrawal → Asset → Option Text → Result Payload
unfolding render published
event_payload w asset reason = bind (from_units w.amount_gross asset.decimals) λ gross.
    bind (render w.amount_net asset.decimals) λ net.
      bind (render w.fee_amount asset.decimals) λ fee. ok (record {
        withdrawal_id = w.id;
        external_user_id = w.external_user_id;
        asset = asset.id;
        status = w.status;
        amount_gross = gross;
        amount_net = net;
        fee = fee;
        destination_address = w.destination_address;
        txid = w.txid;
        reason = published reason;
      })

-- events.emit(session, event_type=..., payload=_event_payload(...))
unfoldable pub emit : EventType → Withdrawal → Asset → Option Text → Exec Db (Unit {0})
emit event_type w asset reason = do
  payload ← lift (event_payload w asset reason)
  modify (λ s. record s {
    events = s.events ++ record { event_type = event_type; payload = withdrawal_data payload } ∷ [];
  })
