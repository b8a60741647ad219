-- ===== src/Withdrawals/Holds.antt =====
-- `velocity_sum` and `place_hold` (src/crypto_processing_api/services/withdrawals.py).
pub mod Limits
pub mod Stages
pub mod Placed
pub mod Window
use crypto_processing_api.Prelude.{
  ℕ, ◌+◌, ℤ, pos, ◌+ℤ◌, neg, ltb_ℤ, leb_ℤ, leb, Bool, true, false, ◌&&◌, not, Option, none, some,
  List, [], ◌∷◌, ◌++◌, select, sum_of, find, if◌then◌else◌, ◌==◌,
}
use crypto_processing_api.Errors.{
  Result, ok, err, integrity_error, other_constraint, amount_too_small, insufficient_balance,
}
use crypto_processing_api.Exec.{Exec, lift, gets, or_raise, modify, guard, pure, ◌>>=◌, ◌>>◌}
use crypto_processing_api.Models.{Account, Status, pending_approval, approved}
use crypto_processing_api.Core.Text.{Text, codes}
use crypto_processing_api.Ledger.Accounts.{lock_asset_gate, lock_user_accounts}
use crypto_processing_api.Ledger.Entry.{post_entry}
use crypto_processing_api.Withdrawals.Rows
use crypto_processing_api.Withdrawals.Rows.{
  ApprovalMode, Backend, Actor, auto_actor, Asset, Withdrawal, Db, on_ledger, has_withdrawal_id,
  save, get_asset, emit,
}
use crypto_processing_api.Withdrawals.Transitions.{counts_toward_cap}
use crypto_processing_api.Withdrawals.Entries.{hold_entry}

-- VELOCITY_WINDOW, in seconds.
abbrev pub velocity_window : ℕ
velocity_window = 86400

-- `external_user_id is None or Withdrawal.external_user_id == external_user_id`
abbrev pub is_of_user : Option ℕ → Withdrawal → Bool
is_of_user none w = true
is_of_user (some u) w = w.external_user_id == u

-- The rows that count: of the asset, created at `now - VELOCITY_WINDOW` or later, in a status that
-- still reserves money.
unfoldable pub in_window : ℕ → Option ℕ → ℕ → Withdrawal → Bool
in_window asset user now w =
    w.asset_id == asset
    && (leb now (w.created_at + velocity_window)
        && (counts_toward_cap w.status && is_of_user user w))

unfoldable pub velocity_sum : List Withdrawal → ℕ → Option ℕ → ℕ → ℤ
velocity_sum rows asset user now =
    sum_of (λ w. w.amount_gross) (select (in_window asset user now) rows)

-- Why a request has to wait for an admin.
pub data Reason : Type 0 where
  manual_asset above_auto_limit above_asset_cap above_user_cap : Reason

reason_text : Reason → Text
reason_text manual_asset = codes "asset requires manual approval"
reason_text above_auto_limit = codes "above the per-withdrawal auto-approval limit"
reason_text above_asset_cap = codes "would exceed the rolling 24h cap for this asset"
reason_text above_user_cap = codes "would exceed this user's rolling 24h cap"

-- "; ".join(reasons)
join : List Reason → Text
join [] = []
join (r ∷ []) = reason_text r
join (r ∷ q ∷ rs) = reason_text r ++ (codes "; " ++ join (q ∷ rs))

-- "; ".join(reasons) if reasons else None
unfoldable pub joined : List Reason → Option Text
unfolding join reason_text
joined [] = none
joined (r ∷ rs) = some (join (r ∷ rs))

-- `if condition: manual = True; reasons.append(...)`
abbrev pub also : Bool → Reason → Bool × List Reason → Bool × List Reason
also true r (manual, reasons) = (true, reasons ++ r ∷ [])
also false r route = route

-- `asset.withdrawal_user_daily_cap is not None and user_window + amount_gross > cap`
abbrev pub exceeds : Option ℤ → ℤ → Bool
exceeds none x = false
exceeds (some cap) x = ltb_ℤ cap x

-- The approval route: whether a human has to decide, and why.
unfoldable pub route : Bool → ℤ → Asset → ℤ → ℤ → Bool × List Reason
route force_manual gross asset asset_window user_window =
    also (exceeds asset.withdrawal_user_daily_cap (user_window +ℤ gross)) above_user_cap (
      also (ltb_ℤ asset.withdrawal_daily_cap (asset_window +ℤ gross)) above_asset_cap (
        also (ltb_ℤ asset.withdrawal_auto_limit gross) above_auto_limit
          (also force_manual manual_asset (false, []))))

pub record HoldRequest : Type 0 where
  pub external_user_id : ℕ
  pub asset_id : ℕ
  pub amount_gross : ℤ
  pub destination_address : ℕ
  pub backend : Backend
  pub force_manual : Bool

-- The new row; `k` is what `uuid7()` returned.
unfoldable pub new_withdrawal : HoldRequest → ℕ → Bool → ℕ → Withdrawal
new_withdrawal r k manual now = record {
  id = k;
  external_user_id = r.external_user_id;
  asset_id = r.asset_id;
  destination_address = r.destination_address;
  amount_gross = r.amount_gross;
  fee_amount = none;
  amount_net = none;
  status = if manual then pending_approval else approved;
  approval_mode = if manual then ApprovalMode.manual else ApprovalMode.auto;
  approved_by = if manual then none else some auto_actor;
  backend = r.backend;
  backend_ref = none;
  txid = none;
  hold_entry_id = none;
  submit_entry_id = none;
  settle_entry_id = none;
  release_entry_id = none;
  submitted_at = none;
  rejected_by = none;
  released_by = none;
  release_attestation = none;
  failure_reason = none;
  created_at = now;
  updated_at = now;
}

abbrev pub is_taken : Option Withdrawal → Bool
is_taken none = false
is_taken (some w) = true

-- session.add(withdrawal); session.flush(): the primary key, and CHECK (amount_gross > 0).
unfoldable pub insert_withdrawal : Withdrawal → Exec Db Withdrawal
insert_withdrawal w = do
  taken ← gets (λ s. is_taken (find (has_withdrawal_id w.id) s.withdrawals))
  guard taken (integrity_error other_constraint)
  guard (leb_ℤ w.amount_gross (pos 0)) (integrity_error other_constraint)
  modify (λ s. record s { withdrawals = s.withdrawals ++ w ∷ [] })
  pure w

pub record HoldOutcome : Type 0 where
  pub withdrawal : Withdrawal
  pub auto_approved : Bool
  pub reason : Option Text

-- `if manual: events.emit(...)`
unfoldable pub announce : Bool → Withdrawal → Asset → Option Text → Exec Db (Unit {0})
announce true w asset reason = emit Rows.EventType.pending_approval w asset reason
announce false w asset reason = pure tt

-- The route of a request, by the rows and the clock.
unfoldable pub decide : HoldRequest → Asset → Db → Bool × List Reason
decide r asset s =
    route r.force_manual r.amount_gross asset (velocity_sum s.withdrawals r.asset_id none s.now)
      (velocity_sum s.withdrawals r.asset_id (some r.external_user_id) s.now)

-- The second half of `place_hold`: the row, the ledger entry and the event.
unfoldable pub record_hold :
    HoldRequest → ℕ → Asset → Account × Account → Bool × List Reason → Exec Db HoldOutcome
unfolding announce
record_hold r k asset accounts decision = do
  row ← gets (λ s. new_withdrawal r k decision.0 s.now)
  w ← insert_withdrawal row
  entry ← on_ledger (post_entry (hold_entry w accounts.0.id accounts.1.id))
  held ← save (record w { hold_entry_id = some entry.id })
  announce decision.0 held asset (joined decision.1)
  pure (record { withdrawal = held; auto_approved = not decision.0; reason = joined decision.1 })

-- What follows once the accounts are locked.
unfoldable pub hold_locked : HoldRequest → ℕ → Asset → Account × Account → Exec Db HoldOutcome
hold_locked r k asset accounts = do
  guard (ltb_ℤ r.amount_gross asset.withdrawal_min) amount_too_small
  guard (ltb_ℤ (neg accounts.0.balance) r.amount_gross) insufficient_balance
  decision ← gets (decide r asset)
  record_hold r k asset accounts decision

unfoldable pub place_hold : HoldRequest → ℕ → Exec Db HoldOutcome
place_hold r k = do
  asset ← get_asset r.asset_id true
  on_ledger (lock_asset_gate r.asset_id)
  accounts ← on_ledger (lock_user_accounts r.asset_id r.external_user_id)
  hold_locked r k asset accounts
