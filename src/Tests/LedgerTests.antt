-- ===== src/Tests/LedgerTests.antt =====
-- The ledger on the sample exchange.
use mathlib.Core.Option
use crypto_processing_api.Prelude.{
  false, ℕ, pos, negsuc, ◌+ℤ◌, sum_of, ◌≡◌, ◌↔◌, refl, none, some, [], ◌∷◌, find,
}
use crypto_processing_api.Errors.{Error, ok, err, already_posted, insufficient_funds, no_overdraft}
use crypto_processing_api.Exec.Keeps.{Keeps}
use crypto_processing_api.Exec.Atomic.{Atomic}
use crypto_processing_api.Models
use crypto_processing_api.Models.{
  JournalEntry, user_hold, user_available, eq_entry_kind, eq_source_ref, eq_account_kind, hold_of,
}
use crypto_processing_api.Ledger.Store.{
  Ledger, has_id, has_key, has_source, fits_bigint, sign_allowed, check_account, add_to, check_row,
  check_rows, update_balance,
}
use crypto_processing_api.Ledger.Accounts.{
  get_or_create_account, insert_account, lock_each, lock_accounts, sorted, insert_sorted,
}
use crypto_processing_api.Ledger.Accounts.Order.{IsAscending, count, lock_accounts-IsAscending}
use crypto_processing_api.Ledger.Entry.{
  is_dangling, all_fit, EntryArgs, add_delta, collect_deltas, insert_item, sorted_items,
  check_assets, apply_delta, apply_deltas, new_entry, posting_of, insert_entry, write_entry,
  translate, post_entry,
}
use crypto_processing_api.Exec.{savepoint}
use crypto_processing_api.Ledger.Entry.Deltas.{total_at, pair_at}
use crypto_processing_api.Ledger.Entry.Balances.{shift}
use crypto_processing_api.Ledger.Entry.Outcome.{posted, post_entry-Atomic, Accepted}
use crypto_processing_api.Ledger.Entry.Replay.{post_entry_balances, post_entry_replayed}
use crypto_processing_api.Ledger.Audit.{assert_ledger_consistent}
use crypto_processing_api.Ledger.Book.{after, book}
use crypto_processing_api.Ledger.Book.Posted.{post_entry_refines}
use crypto_processing_api.Ledger.Consistency.{IsConsistent}
use crypto_processing_api.Ledger.Consistency.Kept.{post_entry-IsConsistent}
use crypto_processing_api.Ledger.Consistency.Checks.{AddsUp, assert_ledger_consistent_iff}
use crypto_processing_api.Samples.{account, funded}

-- 400 of the user's 1000 units, held.
abbrev hold_args : EntryArgs
hold_args = record {
  kind = Models.EntryKind.withdrawal_hold;
  asset_id = 1;
  source_ref = hold_of 11;
  postings = (1, pos 400) ∷ (2, negsuc 399) ∷ [];
  reverses_entry_id = none;
}

held_runs : post_entry hold_args funded ≡ (ok (new_entry hold_args 2), posted hold_args funded)
unfolding post_entry posted shift collect_deltas add_delta lock_accounts lock_each sorted
    insert_sorted check_assets savepoint write_entry is_dangling all_fit insert_entry has_source
    has_id eq_entry_kind eq_source_ref apply_deltas apply_delta sorted_items insert_item
    update_balance check_rows check_row add_to check_account sign_allowed fits_bigint translate
    new_entry posting_of sum_of ◌+ℤ◌ total_at pair_at
held_runs = refl

-- More than the user has is refused.
abbrev greedy_args : EntryArgs
greedy_args = record hold_args { postings = (1, pos 1001) ∷ (2, negsuc 1000) ∷ [] }

greedy_refused : post_entry greedy_args funded ≡ (err (insufficient_funds no_overdraft), funded)
unfolding post_entry posted shift collect_deltas add_delta lock_accounts lock_each sorted
    insert_sorted check_assets savepoint write_entry is_dangling all_fit insert_entry has_source
    has_id eq_entry_kind eq_source_ref apply_deltas apply_delta sorted_items insert_item
    update_balance check_rows check_row add_to check_account sign_allowed fits_bigint translate
    new_entry posting_of sum_of ◌+ℤ◌ total_at pair_at
greedy_refused = refl

post_entry-IsConsistent_example : Keeps IsConsistent (post_entry hold_args)
post_entry-IsConsistent_example = post_entry-IsConsistent hold_args

post_entry-Atomic_example : Atomic (post_entry greedy_args)
post_entry-Atomic_example = post_entry-Atomic greedy_args

post_entry_replayed_example :
    post_entry hold_args (posted hold_args funded)
    ≡ (err (already_posted (some (new_entry hold_args 2).id)), posted hold_args funded)
post_entry_replayed_example = post_entry_replayed hold_args funded held_runs

post_entry_balances_example :
    find (has_id 1) (posted hold_args funded).accounts
    ≡ Option.map (shift hold_args.postings) (find (has_id 1) funded.accounts)
post_entry_balances_example = post_entry_balances hold_args funded 1 held_runs

assert_ledger_consistent_iff_example :
    (assert_ledger_consistent funded ≡ (ok tt, funded)) ↔ AddsUp funded
assert_ledger_consistent_iff_example = assert_ledger_consistent_iff funded

found_again :
    get_or_create_account 1 user_available (some 7) funded
    ≡ (ok (account 1 user_available (some 7) (negsuc 999)), funded)
unfolding get_or_create_account insert_account has_key eq_account_kind
found_again = refl

accepted : Accepted hold_args funded
unfolding post_entry posted shift collect_deltas add_delta lock_accounts lock_each sorted
    insert_sorted check_assets savepoint write_entry is_dangling all_fit insert_entry has_source
    has_id eq_entry_kind eq_source_ref apply_deltas apply_delta sorted_items insert_item
    update_balance check_rows check_row add_to check_account sign_allowed fits_bigint translate
    new_entry posting_of sum_of ◌+ℤ◌ total_at pair_at
accepted = record {
  deltas = (1, pos 400) ∷ (2, negsuc 399) ∷ [];
  locked =
      account 1 user_available (some 7) (negsuc 999) ∷ account 2 user_hold (some 7) (pos 0) ∷ [];
  rows = (posted hold_args funded).accounts;
  enough = refl;
  collected = refl;
  balanced = refl;
  held = refl;
  one_asset = refl;
  fresh = refl;
  applied = refl;
}

both_locked : lock_accounts (2 ∷ 1 ∷ []) funded ≡ (
  ok (account 1 user_available (some 7) (negsuc 999) ∷ account 2 user_hold (some 7) (pos 0) ∷ []),
  funded,
)
unfolding lock_accounts lock_each sorted insert_sorted has_id
both_locked = refl

lock_accounts-IsAscending_example :
    IsAscending (1 ∷ 2 ∷ [])
    × ((k : ℕ) → count k (1 ∷ 2 ∷ []) ≡ count k (2 ∷ 1 ∷ []))
    × (funded ≡ funded)
lock_accounts-IsAscending_example =
    lock_accounts-IsAscending (2 ∷ 1 ∷ []) funded funded
      (account 1 user_available (some 7) (negsuc 999) ∷ account 2 user_hold (some 7) (pos 0) ∷ [])
      both_locked

post_entry_refines_example :
    ((e : JournalEntry) (l' : Ledger)
      → post_entry hold_args funded ≡ (ok e, l')
      → ((book funded).is_posted hold_args.kind hold_args.source_ref ≡ false)
        × (sum_of (λ p. p.1) hold_args.postings ≡ pos 0)
        × (book l' ≡ after hold_args (book funded)))
    × ((e : Error) (l' : Ledger)
        → post_entry hold_args funded ≡ (err e, l')
        → book l' ≡ book funded)
post_entry_refines_example = post_entry_refines hold_args funded
