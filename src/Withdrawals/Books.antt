-- ===== src/Withdrawals/Books.antt =====
-- Whatever is asked of the withdrawal service, the books stay consistent.
pub mod Operations
use crypto_processing_api.Prelude.{
  ℕ, ◌≡◌, refl, ℤ, Bool, true, false, Option, none, some, List, [], ◌∷◌, ◌++◌,
}
use crypto_processing_api.Errors.{Error, err}
use crypto_processing_api.Exec.{Exec, modify}
use crypto_processing_api.Exec.Keeps.{Keeps, Keeps-pure, Keeps-bind, Keeps-if, keeps_rules}
use crypto_processing_api.Models.{Status, Account}
use crypto_processing_api.Core.Text.{Text}
use crypto_processing_api.Fees.{FeeQuote}
use crypto_processing_api.Ledger.Store.{Ledger}
use crypto_processing_api.Ledger.Consistency.{IsConsistent}
use crypto_processing_api.Ledger.Consistency.Kept.{post_entry-IsConsistent}
use crypto_processing_api.Ledger.Consistency.Provision.{
  get_user_accounts-IsConsistent, lock_user_accounts-IsConsistent, get_system_account-IsConsistent,
  lock_asset_gate-IsConsistent,
}
use crypto_processing_api.Withdrawals.Rows.{
  Withdrawal, Asset, Actor, Db, EventType, on_ledger, lock, save, get_asset, emit,
}
use crypto_processing_api.Withdrawals.Holds.{
  Reason, record_hold, hold_locked, HoldRequest, announce, insert_withdrawal, place_hold,
}
use crypto_processing_api.Withdrawals.Entries.{
  post_submit_entry, committed_from_entry, hot_for_drift, post_settle_entry, post_unsubmit_of,
  post_unsubmit_entry, post_release_entry,
}
use crypto_processing_api.Withdrawals.Release.{
  release_once, release_hold, auto_release_with_proof, admin_release,
}
use crypto_processing_api.Withdrawals.Payouts.{
  BackendPayout, take_txid, settle_first, report_as, report, follow, apply_payout_state,
  record_submission,
}
use crypto_processing_api.Withdrawals.Admin.{
  update_where, row_count, swap, refuse, approve, reject, claim_for_submission, submit_manual,
}

-- The books of a session are consistent.
abbrev pub Books : Db → Type 0
Books s = IsConsistent s.ledger

pub on_ledger-Books :
    {A : Type 0} (m : Exec Ledger A) → Keeps IsConsistent m → Keeps Books (on_ledger m)
on_ledger-Books m k = record { at = λ s h. k.at s.ledger h }

-- A change that leaves the ledger alone.
pub modify-Books :
    (f : Db → Db) (same : (s : Db) → (f s).ledger ≡ s.ledger) → Keeps Books (modify f)
modify-Books f same = record { at = λ s h. rw (same s) h }

save-Books : (w : Withdrawal) → Keeps Books (save w)
unfolding save
save-Books w = record { at = λ s h. h }

pub lock-Books : (k : ℕ) → Keeps Books (lock k)
unfolding lock
lock-Books k = search keeps_rules depth 8

pub get_asset-Books : (k : ℕ) (b : Bool) → Keeps Books (get_asset k b)
unfolding get_asset
get_asset-Books k b = search keeps_rules depth 10

emit-Books :
    (t : EventType) (w : Withdrawal) (a : Asset) (r : Option Text) → Keeps Books (emit t w a r)
unfolding emit
emit-Books t w a r = Keeps-bind _ _ (search keeps_rules) λ payload. modify-Books _ (λ s. refl)

committed_from_entry-IsConsistent : (e : ℕ) → Keeps IsConsistent (committed_from_entry e)
unfolding committed_from_entry
committed_from_entry-IsConsistent e = record { at = λ s h. h }

hot_for_drift-IsConsistent :
    (asset : ℕ) (b : Bool) (a : Account) → Keeps IsConsistent (hot_for_drift asset b a)
unfolding hot_for_drift
hot_for_drift-IsConsistent asset true a = search keeps_rules
hot_for_drift-IsConsistent asset false a = search get_system_account-IsConsistent

ruleset books_rules = (
  keeps_rules, on_ledger-Books, save-Books, lock-Books, get_asset-Books, emit-Books,
  post_entry-IsConsistent, get_user_accounts-IsConsistent, lock_user_accounts-IsConsistent,
  get_system_account-IsConsistent, lock_asset_gate-IsConsistent, committed_from_entry-IsConsistent,
  hot_for_drift-IsConsistent,
)

pub post_submit_entry-Books : (w : Withdrawal) (q : FeeQuote) → Keeps Books (post_submit_entry w q)
unfolding post_submit_entry
post_submit_entry-Books w q = search books_rules depth 16

pub post_settle_entry-Books :
    (w : Withdrawal) (fee : Option ℤ) → Keeps Books (post_settle_entry w fee)
unfolding post_settle_entry
post_settle_entry-Books w fee = search books_rules depth 24

post_unsubmit_of-Books : (w : Withdrawal) (e : Option ℕ) → Keeps Books (post_unsubmit_of w e)
unfolding post_unsubmit_of
post_unsubmit_of-Books w none = search books_rules
post_unsubmit_of-Books w (some e) = search books_rules depth 16

pub post_unsubmit_entry-Books : (w : Withdrawal) → Keeps Books (post_unsubmit_entry w)
unfolding post_unsubmit_entry
post_unsubmit_entry-Books w = search post_unsubmit_of-Books

pub post_release_entry-Books : (w : Withdrawal) → Keeps Books (post_release_entry w)
unfolding post_release_entry
post_release_entry-Books w = search books_rules depth 12
