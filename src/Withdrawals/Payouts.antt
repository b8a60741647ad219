-- ===== src/Withdrawals/Payouts.antt =====
-- Bringing a withdrawal in line with its payout (src/crypto_processing_api/services/withdrawals.py), and
-- recording a submission (src/crypto_processing_api/workers/payout_submitter.py).
pub mod Final
use crypto_processing_api.Prelude.{
  ℕ, Bool, true, false, ◌&&◌, not, ℤ, Option, none, some, List, [], ◌∷◌, find, if◌then◌else◌, ◌==◌,
}
use crypto_processing_api.Errors.{
  Result, ok, err, withdrawal_error, integrity_error, other_constraint,
}
use crypto_processing_api.Exec.{Exec, lift, gets, or_raise, modify, guard, pure, ◌>>=◌, ◌>>◌}
use crypto_processing_api.Models.{Status, submitted, broadcast, confirmed, failed}
use crypto_processing_api.Core.Text.{Text, codes, text_or}
use crypto_processing_api.Fees.{FeeQuote}
use crypto_processing_api.Withdrawals.Rows
use crypto_processing_api.Withdrawals.Rows.{
  truthy, Asset, Withdrawal, Db, lock, save, get_asset, emit,
}
use crypto_processing_api.Withdrawals.Transitions.{eq_status, advance}
use crypto_processing_api.Withdrawals.Entries.{post_submit_entry, post_settle_entry}

pub data PayoutState : Type 0 where
  awaiting_approval pending in_flight completed cancelled unknown : PayoutState

-- `withdrawal_id` is the id that the payout's metadata echo.
pub record BackendPayout : Type 0 where
  pub id : ℕ
  pub state : PayoutState
  pub txid : Option ℕ
  pub withdrawal_id : Option ℕ

-- _PAYOUT_STATE_MAP.get(state)
unfoldable pub payout_target : PayoutState → Option Status
payout_target awaiting_approval = some submitted
payout_target pending = some submitted
payout_target in_flight = some broadcast
payout_target completed = some confirmed
payout_target cancelled = some failed
payout_target unknown = none

-- `echoed is not None and str(echoed) != str(withdrawal.id)`
abbrev pub is_other : Option ℕ → ℕ → Bool
is_other none k = false
is_other (some j) k = not (j == k)

abbrev pub same_text : Option ℕ → Option ℕ → Bool
same_text (some a) (some b) = a == b
same_text _ _ = false

abbrev is_found : Option Withdrawal → Bool
is_found none = false
is_found (some w) = true

-- `if payout.txid and not withdrawal.txid: withdrawal.txid = payout.txid`, flushed: the unique index
-- on a transaction id.
unfoldable pub take_txid : Withdrawal → BackendPayout → Exec Db Withdrawal
take_txid w payout =
    if truthy payout.txid && not (truthy w.txid)
    then (do
      taken ← gets (λ s.
          is_found (find (λ v. same_text v.txid payout.txid && not (v.id == w.id)) s.withdrawals))
      guard taken (integrity_error other_constraint)
      save (record w { txid = payout.txid }))
    else pure w

unfoldable pub is_unsettled : Option ℕ → Bool
is_unsettled none = true
is_unsettled (some entry) = false

-- `if target == CONFIRMED and withdrawal.settle_entry_id is None`
unfoldable pub settle_first : Status → Withdrawal → Option ℤ → Exec Db Withdrawal
unfolding is_unsettled
settle_first target w actual =
    if eq_status target confirmed && is_unsettled w.settle_entry_id
    then post_settle_entry w actual
    else pure w

-- The event of the status that the row moved to.
unfoldable pub report_as : Status → Withdrawal → Asset → Exec Db Withdrawal
report_as broadcast w asset = do emit Rows.EventType.broadcast w asset none; pure w
report_as confirmed w asset = do emit Rows.EventType.completed w asset none; pure w
report_as failed w asset = do
  explained ← save (record w {
    failure_reason = some (text_or w.failure_reason (codes "payout cancelled by BTCPay"));
  })
  emit Rows.EventType.failed explained asset
      (some (codes "payout cancelled; release needs an attestation"))
  pure explained
report_as _ w asset = pure w

unfoldable pub report : Bool → Withdrawal → Asset → Exec Db Withdrawal
unfolding report_as
report true w asset = report_as w.status w asset
report false w asset = pure w

unfoldable pub follow : Option Status → Withdrawal → Asset → Option ℤ → Exec Db Withdrawal
follow none w asset actual = pure w
follow (some target) w asset actual = do
  settled ← settle_first target w actual
  now ← gets (λ s. s.now)
  step ← lift (advance settled target now)
  kept ← save (record step.1 { updated_at = now })
  report step.0 kept asset

unfoldable pub apply_payout_state : ℕ → BackendPayout → Option ℤ → Exec Db Withdrawal
apply_payout_state k payout actual = do
  w ← lock k
  asset ← get_asset w.asset_id false
  guard (is_other payout.withdrawal_id w.id) withdrawal_error
  guard (truthy w.backend_ref && not (same_text w.backend_ref (some payout.id))) withdrawal_error
  known ← take_txid w payout
  follow (payout_target payout.state) known asset actual

-- `_record_submission`: the reference, the amounts, the ledger entry and the status.
unfoldable pub record_submission : Withdrawal → ℕ → FeeQuote → Exec Db Withdrawal
record_submission w payout_id quote = do
  now ← gets (λ s. s.now)
  priced ← save (record w {
    backend_ref = some payout_id;
    fee_amount = some quote.fee;
    amount_net = some quote.net;
    submitted_at = some now;
  })
  committed_row ← post_submit_entry priced quote
  save (record committed_row { status = submitted; updated_at = now })
