-- ===== src/Withdrawals/Admin.antt =====
-- The queue: approval, rejection, claims, and the queries of the workers
-- (src/crypto_processing_api/services/withdrawals.py).
pub mod Winner
use crypto_processing_api.Prelude.{
  ordered_by, limited, ascending, ℕ, zero, suc, ◌+◌, ltb, leb, Bool, true, false, ◌&&◌, ◌||◌, not,
  ℤ, pos, neg, Option, none, some, List, [], ◌∷◌, map, find, select, length, if◌then◌else◌, ◌==◌,
}
use crypto_processing_api.Errors.{Result, ok, err, withdrawal_not_found, illegal_transition}
use crypto_processing_api.Exec.{Exec, lift, gets, or_raise, modify, guard, pure, ◌>>=◌, ◌>>◌}
use crypto_processing_api.Models.{
  Status, pending_approval, approved, rejected, submitting, submitted, broadcast, user_hold,
}
use crypto_processing_api.Core.Text.{Text, codes, text_or}
use crypto_processing_api.Fees.{FeeQuote}
use crypto_processing_api.Ledger.Store.{has_key}
use crypto_processing_api.Withdrawals.Rows
use crypto_processing_api.Withdrawals.Rows.{
  Backend, btcpay_payout, btcpay_payout_ln, manual_tron, Actor, Asset, Withdrawal, Db,
  has_withdrawal_id, lock, save, get_asset, emit,
}
use crypto_processing_api.Withdrawals.Transitions.{eq_status, transition}
use crypto_processing_api.Withdrawals.Entries.{post_submit_entry}
use crypto_processing_api.Withdrawals.Release.{release_hold}

abbrev pub is_at : ℕ → Status → Withdrawal → Bool
is_at k status w = w.id == k && eq_status w.status status

-- UPDATE ... WHERE id = k AND status = status: the change is made to the rows that match.
unfoldable pub update_where : ℕ → Status → (Withdrawal → Withdrawal) → Db → Db
update_where k status change s = record s {
  withdrawals = map (λ w. if is_at k status w then change w else w) s.withdrawals;
}

-- result.rowcount
unfoldable pub row_count : ℕ → Status → Db → ℕ
row_count k status s = length (select (is_at k status) s.withdrawals)

-- `if result.rowcount != 1`: no such row, or one in another status.
unfoldable pub refuse : ℕ → Bool → Exec Db (Unit {0})
refuse k true = pure tt
refuse k false = do
  found ← gets (λ s. find (has_withdrawal_id k) s.withdrawals)
  or_raise withdrawal_not_found found
  (λ s. (err illegal_transition, s))

-- Compare and swap of a row's status. A row that is not in the status is left alone.
unfoldable pub swap : ℕ → Status → (ℕ → Withdrawal → Withdrawal) → Exec Db (Unit {0})
unfolding refuse
swap k status change = do
  count ← gets (row_count k status)
  modify (λ s. update_where k status (change s.now) s)
  refuse k (count == 1)

unfoldable pub approve : ℕ → Actor → Exec Db Withdrawal
approve k actor = do
  swap k pending_approval
      (λ now w. record w { status = approved; approved_by = some actor; updated_at = now })
  lock k

unfoldable pub reject : ℕ → Actor → Option Text → Exec Db Withdrawal
reject k actor reason = do
  swap k pending_approval (λ now w. record w {
    status = rejected;
    rejected_by = some actor;
    failure_reason = reason;
    updated_at = now;
  })
  w ← lock k
  asset ← get_asset w.asset_id false
  released ← release_hold w actor none
  emit Rows.EventType.failed released asset (some (text_or reason (codes "rejected by an admin")))
  pure released

-- `approved -> submitting`; whether this caller won.
unfoldable pub claim_for_submission : ℕ → Exec Db Bool
claim_for_submission k = do
  count ← gets (row_count k approved)
  modify
      (λ s. update_where k approved (λ w. record w { status = submitting; updated_at = s.now }) s)
  pure (count == 1)

-- BTCPAY_PAYOUT_BACKENDS
abbrev is_btcpay : Backend → Bool
is_btcpay btcpay_payout = true
is_btcpay btcpay_payout_ln = true
is_btcpay manual_tron = false

abbrev is_set : Option ℕ → Bool
is_set none = false
is_set (some x) = true

-- The rows that each worker asks for; the order and the limit of the queries are left out.
-- select(Withdrawal.id) ... order_by(key).limit(limit)
abbrev ids_of : ℕ → (Withdrawal → ℕ) → List Withdrawal → List ℕ
ids_of limit key rows = map (λ w. w.id) (limited limit (ordered_by (ascending key) rows))

unfoldable pub due_for_submission : ℕ → Db → List ℕ
due_for_submission limit s =
    ids_of limit (λ w. w.created_at)
      (select (λ w. eq_status w.status approved && is_btcpay w.backend) s.withdrawals)

unfoldable pub due_for_polling : ℕ → Db → List ℕ
due_for_polling limit s =
    ids_of limit (λ w. w.updated_at)
      (select
        (λ w.
          (eq_status w.status submitted || eq_status w.status broadcast)
          && (is_btcpay w.backend && is_set w.backend_ref))
        s.withdrawals)

unfoldable pub stuck_submitting : ℕ → ℕ → Db → List ℕ
stuck_submitting older_than limit s =
    ids_of limit (λ w. w.updated_at)
      (select
        (λ w.
          eq_status w.status submitting
          && (is_btcpay w.backend
              && (not (is_set w.backend_ref) && ltb (w.updated_at + older_than) s.now)))
        s.withdrawals)

-- `submit_manual`; `reference` is what `ManualTronBackend.new_reference()` returned.
unfoldable pub submit_manual : Withdrawal → FeeQuote → ℕ → Exec Db Withdrawal
submit_manual w quote reference = do
  guard (not (eq_status w.status approved)) illegal_transition
  now ← gets (λ s. s.now)
  priced ← save (record w {
    backend_ref = some reference;
    fee_amount = some quote.fee;
    amount_net = some quote.net;
    submitted_at = some now;
  })
  committed_row ← post_submit_entry priced quote
  first ← lift (transition committed_row submitting now)
  second ← lift (transition first.1 submitted now)
  save second.1
