-- ===== src/Withdrawals/Entries.antt =====
-- The ledger postings of a withdrawal: hold, submit, settle, un-submit and release
-- (src/crypto_processing_api/services/withdrawals.py).
pub mod Sums
pub mod Effects
pub mod Committed
pub mod Reversed
use crypto_processing_api.Prelude.{
  ℕ, ℤ, pos, ◌+ℤ◌, ◌-ℤ◌, neg, ltb_ℤ, is_zero, Bool, true, false, ◌&&◌, Option, none, some, List, [],
  ◌∷◌, ◌++◌, map, select, find, if◌then◌else◌, ◌==◌,
}
use crypto_processing_api.Errors.{Result, ok, err, withdrawal_error, no_result_found}
use crypto_processing_api.Exec.{Exec, lift, gets, or_raise, modify, guard, pure, ◌>>=◌, ◌>>◌}
use crypto_processing_api.Models
use crypto_processing_api.Models.{
  AccountKind, hot_wallet, payouts_in_flight, fee_income, network_fee_expense, Account,
  JournalEntry, Posting, eq_account_kind, hold_of, submit_of, settle_of, submit_reversal_of,
  release_of,
}
use crypto_processing_api.Ledger.Store.{Ledger, has_id}
use crypto_processing_api.Ledger.Accounts.{get_user_accounts, get_system_account}
use crypto_processing_api.Ledger.Entry.{PostingPair, EntryArgs, post_entry}
use crypto_processing_api.Fees.{FeeQuote, committed}
use crypto_processing_api.Withdrawals.Rows.{Withdrawal, Db, on_ledger, save}

-- DR user_available +G / CR user_hold -G
unfoldable pub hold_entry : Withdrawal → ℕ → ℕ → EntryArgs
hold_entry w available hold = record {
  kind = Models.EntryKind.withdrawal_hold;
  asset_id = w.asset_id;
  source_ref = hold_of w.id;
  postings = (available, w.amount_gross) ∷ (hold, neg w.amount_gross) ∷ [];
  reverses_entry_id = none;
}

-- DR payouts_in_flight +C / CR hot_wallet -C
unfoldable pub submit_entry : Withdrawal → ℕ → ℕ → ℤ → EntryArgs
submit_entry w in_flight hot c = record {
  kind = Models.EntryKind.withdrawal_submit;
  asset_id = w.asset_id;
  source_ref = submit_of w.id;
  postings = (in_flight, c) ∷ (hot, neg c) ∷ [];
  reverses_entry_id = none;
}

unfoldable pub post_submit_entry : Withdrawal → FeeQuote → Exec Db Withdrawal
post_submit_entry w quote = do
  hot ← on_ledger (get_system_account w.asset_id hot_wallet)
  in_flight ← on_ledger (get_system_account w.asset_id payouts_in_flight)
  entry ← on_ledger (post_entry (submit_entry w in_flight.id hot.id (committed quote)))
  save (record w { submit_entry_id = some entry.id })

-- `account.kind` of a posting is payouts_in_flight.
unfoldable pub is_in_flight : List Account → Posting → Bool
is_in_flight accounts p = elim (find (has_id p.account_id) accounts) [
  | some a ↦ eq_account_kind a.kind payouts_in_flight
  | none ↦ false
]

-- scalar_one()
unfoldable pub only : List Posting → Result ℤ
only (p ∷ []) = ok p.amount
only _ = err no_result_found

unfoldable pub committed_from_entry : ℕ → Exec Ledger ℤ
unfolding is_in_flight only
committed_from_entry entry l =
    (only (select (λ p. p.entry_id == entry && is_in_flight l.accounts p) l.postings), l)

-- `x or 0`
abbrev pub or_zero : Option ℤ → ℤ
or_zero none = pos 0
or_zero (some x) = x

abbrev pub or_else : Option ℤ → ℤ → ℤ
or_else none y = y
or_else (some x) y = x

-- `if amount: postings.append(...)`
abbrev pub unless_zero : ℤ → PostingPair → List PostingPair
unless_zero x p = if is_zero x then [] else p ∷ []

-- The settle postings: the fee that the wallet paid, and its drift from what was reserved.
unfoldable pub settle_postings : Withdrawal → ℤ → Option ℤ → ℕ → ℕ → ℕ → ℕ → ℕ → List PostingPair
settle_postings w committed actual hold in_flight expense income hot =
    let fee = or_zero w.fee_amount in
    let net = or_else w.amount_net (w.amount_gross -ℤ fee) in
    let estimated_wallet_fee = committed -ℤ net in
    let wallet_fee = or_else actual estimated_wallet_fee in
    let drift = wallet_fee -ℤ estimated_wallet_fee in
    (hold, w.amount_gross)
    ∷ (in_flight, neg committed)
    ∷ (unless_zero wallet_fee (expense, wallet_fee)
        ++ (unless_zero fee (income, neg fee) ++ unless_zero drift (hot, neg drift)))

unfoldable pub settle_entry : Withdrawal → List PostingPair → EntryArgs
settle_entry w postings = record {
  kind = Models.EntryKind.withdrawal_settle;
  asset_id = w.asset_id;
  source_ref = settle_of w.id;
  postings = postings;
  reverses_entry_id = none;
}

-- `actual_wallet_fee is not None and actual_wallet_fee < 0`
abbrev is_negative : Option ℤ → Bool
is_negative none = false
is_negative (some x) = ltb_ℤ x (pos 0)

-- The `hot_wallet` row is read only if there is drift; `expense` stands in for it otherwise, in a
-- posting that is then left out.
unfoldable pub hot_for_drift : ℕ → Bool → Account → Exec Ledger Account
hot_for_drift asset true expense = pure expense
hot_for_drift asset false expense = get_system_account asset hot_wallet

unfoldable pub drift_of : Withdrawal → ℤ → Option ℤ → ℤ
drift_of w committed actual =
    let fee = or_zero w.fee_amount in
    let net = or_else w.amount_net (w.amount_gross -ℤ fee) in
    let estimated_wallet_fee = committed -ℤ net in
    or_else actual estimated_wallet_fee -ℤ estimated_wallet_fee

unfoldable pub post_settle_entry : Withdrawal → Option ℤ → Exec Db Withdrawal
post_settle_entry w actual = do
  submit ← or_raise withdrawal_error w.submit_entry_id
  guard (is_negative actual) withdrawal_error
  c ← on_ledger (committed_from_entry submit)
  accounts ← on_ledger (get_user_accounts w.asset_id w.external_user_id)
  in_flight ← on_ledger (get_system_account w.asset_id payouts_in_flight)
  expense ← on_ledger (get_system_account w.asset_id network_fee_expense)
  income ← on_ledger (get_system_account w.asset_id fee_income)
  hot ← on_ledger (hot_for_drift w.asset_id (is_zero (drift_of w c actual)) expense)
  entry ← on_ledger (
      post_entry (
        settle_entry w
          (settle_postings w c actual accounts.1.id in_flight.id expense.id income.id hot.id)))
  save (record w { settle_entry_id = some entry.id })

unfoldable pub unsubmit_entry : Withdrawal → ℕ → ℕ → ℕ → ℤ → EntryArgs
unsubmit_entry w submit hot in_flight c = record {
  kind = Models.EntryKind.reversal;
  asset_id = w.asset_id;
  source_ref = submit_reversal_of w.id;
  postings = (hot, c) ∷ (in_flight, neg c) ∷ [];
  reverses_entry_id = some submit;
}

unfoldable pub post_unsubmit_of : Withdrawal → Option ℕ → Exec Db (Option JournalEntry)
post_unsubmit_of w none = pure none
post_unsubmit_of w (some submit) = do
  c ← on_ledger (committed_from_entry submit)
  hot ← on_ledger (get_system_account w.asset_id hot_wallet)
  in_flight ← on_ledger (get_system_account w.asset_id payouts_in_flight)
  entry ← on_ledger (post_entry (unsubmit_entry w submit hot.id in_flight.id c))
  pure (some entry)

unfoldable pub post_unsubmit_entry : Withdrawal → Exec Db (Option JournalEntry)
unfolding post_unsubmit_of
post_unsubmit_entry w = post_unsubmit_of w w.submit_entry_id

-- DR user_hold +G / CR user_available -G
unfoldable pub release_entry : Withdrawal → ℕ → ℕ → EntryArgs
release_entry w hold available = record {
  kind = Models.EntryKind.withdrawal_release;
  asset_id = w.asset_id;
  source_ref = release_of w.id;
  postings = (hold, w.amount_gross) ∷ (available, neg w.amount_gross) ∷ [];
  reverses_entry_id = none;
}

unfoldable pub post_release_entry : Withdrawal → Exec Db Withdrawal
post_release_entry w = do
  accounts ← on_ledger (get_user_accounts w.asset_id w.external_user_id)
  entry ← on_ledger (post_entry (release_entry w accounts.1.id accounts.0.id))
  save (record w { release_entry_id = some entry.id })
