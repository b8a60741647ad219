-- ===== src/Withdrawals/Books/Operations.antt =====
-- The operations of the withdrawal service keep the books consistent.
use crypto_processing_api.Prelude.{ℕ, ℤ, Bool, true, false, Option, none, some, List, [], ◌∷◌, ◌++◌}
use crypto_processing_api.Errors.{Error, err}
use crypto_processing_api.Exec.{modify}
use crypto_processing_api.Exec.Keeps.{Keeps, Keeps-pure, Keeps-if}
use crypto_processing_api.Models.{Status, Account}
use crypto_processing_api.Core.Text.{Text}
use crypto_processing_api.Fees.{FeeQuote}
use crypto_processing_api.Withdrawals.Rows.{Withdrawal, Asset, Actor}
use crypto_processing_api.Withdrawals.Holds.{
  Reason, record_hold, hold_locked, HoldRequest, announce, insert_withdrawal, place_hold,
}
use crypto_processing_api.Withdrawals.Release.{
  release_once, release_hold, auto_release_with_proof, admin_release,
}
use crypto_processing_api.Withdrawals.Payouts.{
  BackendPayout, take_txid, settle_first, report_as, report, follow, apply_payout_state,
  record_submission,
}
use crypto_processing_api.Withdrawals.Admin.{
  update_where, row_count, swap, refuse, approve, reject, claim_for_submission, submit_manual,
}
use crypto_processing_api.Withdrawals.Books.{
  Books, books_rules, post_submit_entry-Books, post_settle_entry-Books, post_unsubmit_entry-Books,
  post_release_entry-Books,
}

release_once-Books :
    (e : Option ℕ) (w : Withdrawal) (actor : Actor) (t : Option Text)
    → Keeps Books (release_once e w actor t)
unfolding release_once
release_once-Books (some e) w actor t = search books_rules
release_once-Books none w actor t =
    search (books_rules, post_unsubmit_entry-Books, post_release_entry-Books) depth 16

pub release_hold-Books :
    (w : Withdrawal) (actor : Actor) (t : Option Text) → Keeps Books (release_hold w actor t)
unfolding release_hold
release_hold-Books w actor t = search (books_rules, release_once-Books) depth 8

pub auto_release_with_proof-Books :
    (w : Withdrawal) (actor : Actor) (proof : Text)
    → Keeps Books (auto_release_with_proof w actor proof)
unfolding auto_release_with_proof
auto_release_with_proof-Books w actor proof = search (books_rules, release_hold-Books) depth 16

pub admin_release-Books : (k : ℕ) (actor : Actor) (t : Text) → Keeps Books (admin_release k actor t)
unfolding admin_release
admin_release-Books k actor t = search (books_rules, release_hold-Books) depth 16

add_row-Books :
    (w : Withdrawal)
    → Keeps Books (modify (λ s. record s { withdrawals = s.withdrawals ++ w ∷ [] }))
add_row-Books w = record { at = λ s h. h }

insert_withdrawal-Books : (w : Withdrawal) → Keeps Books (insert_withdrawal w)
unfolding insert_withdrawal
insert_withdrawal-Books w = search (books_rules, add_row-Books) depth 12

announce-Books :
    (b : Bool) (w : Withdrawal) (a : Asset) (r : Option Text) → Keeps Books (announce b w a r)
unfolding announce
announce-Books true w a r = search books_rules
announce-Books false w a r = search books_rules

record_hold-Books :
    (r : HoldRequest) (k : ℕ) (a : Asset) (accounts : Account × Account) (d : Bool × List Reason)
    → Keeps Books (record_hold r k a accounts d)
unfolding record_hold
record_hold-Books r k a accounts d =
    search (books_rules, insert_withdrawal-Books, announce-Books) depth 20

hold_locked-Books :
    (r : HoldRequest) (k : ℕ) (a : Asset) (accounts : Account × Account)
    → Keeps Books (hold_locked r k a accounts)
unfolding hold_locked
hold_locked-Books r k a accounts = search (books_rules, record_hold-Books) depth 12

pub place_hold-Books : (r : HoldRequest) (k : ℕ) → Keeps Books (place_hold r k)
unfolding place_hold
place_hold-Books r k = search (books_rules, hold_locked-Books) depth 12

take_txid-Books : (w : Withdrawal) (p : BackendPayout) → Keeps Books (take_txid w p)
unfolding take_txid
take_txid-Books w p = search (books_rules, Keeps-if) depth 14

settle_first-Books :
    (t : Status) (w : Withdrawal) (fee : Option ℤ) → Keeps Books (settle_first t w fee)
unfolding settle_first
settle_first-Books t w fee = Keeps-if _ _ _ (post_settle_entry-Books w fee) (Keeps-pure w)

report_as-Books : (t : Status) (w : Withdrawal) (a : Asset) → Keeps Books (report_as t w a)
unfolding report_as
report_as-Books Status.broadcast w a = search books_rules depth 10
report_as-Books _ w a = search books_rules depth 10

report-Books : (b : Bool) (w : Withdrawal) (a : Asset) → Keeps Books (report b w a)
unfolding report
report-Books true w a = report_as-Books w.status w a
report-Books false w a = search books_rules

follow-Books :
    (t : Option Status) (w : Withdrawal) (a : Asset) (fee : Option ℤ)
    → Keeps Books (follow t w a fee)
unfolding follow
follow-Books none w a fee = search books_rules
follow-Books (some t) w a fee = search (books_rules, settle_first-Books, report-Books) depth 16

pub apply_payout_state-Books :
    (k : ℕ) (p : BackendPayout) (fee : Option ℤ) → Keeps Books (apply_payout_state k p fee)
unfolding apply_payout_state
apply_payout_state-Books k p fee = search (books_rules, take_txid-Books, follow-Books) depth 20

pub record_submission-Books :
    (w : Withdrawal) (k : ℕ) (q : FeeQuote) → Keeps Books (record_submission w k q)
unfolding record_submission
record_submission-Books w k q = search (books_rules, post_submit_entry-Books) depth 12

raise-Books : (e : Error) → Keeps {A = Unit {0}} Books (λ s. (err e, s))
raise-Books e = record { at = λ s h. h }

refuse-Books : (k : ℕ) (b : Bool) → Keeps Books (refuse k b)
unfolding refuse
refuse-Books k true = search books_rules
refuse-Books k false = search books_rules depth 12

swap-Books : (k : ℕ) (t : Status) (f : ℕ → Withdrawal → Withdrawal) → Keeps Books (swap k t f)
unfolding swap row_count update_where
swap-Books k t f = search (books_rules, refuse-Books) depth 12

pub approve-Books : (k : ℕ) (actor : Actor) → Keeps Books (approve k actor)
unfolding approve
approve-Books k actor = search (books_rules, swap-Books) depth 8

pub reject-Books : (k : ℕ) (actor : Actor) (r : Option Text) → Keeps Books (reject k actor r)
unfolding reject
reject-Books k actor r = search (books_rules, swap-Books, release_hold-Books) depth 16

pub claim_for_submission-Books : (k : ℕ) → Keeps Books (claim_for_submission k)
unfolding claim_for_submission update_where
claim_for_submission-Books k = record { at = λ s h. h }

pub submit_manual-Books :
    (w : Withdrawal) (q : FeeQuote) (k : ℕ) → Keeps Books (submit_manual w q k)
unfolding submit_manual
submit_manual-Books w q k = search (books_rules, post_submit_entry-Books) depth 24
