-- ===== src/Tests/ReversalTests.antt =====
-- A reservation and its reversal, in the sample exchange.
use crypto_processing_api.Prelude.{
  ◌≡◌, refl, pos, neg, ◌+ℤ◌, sum_of, some, [], ◌∷◌, All, ◌<◌, find, arith,
}
use crypto_processing_api.Errors.{ok}
use crypto_processing_api.Exec.{savepoint}
use crypto_processing_api.Models.{
  JournalEntry, eq_account_kind, eq_entry_kind, eq_source_ref, submitting, failed,
}
use crypto_processing_api.Ledger.Store.{
  has_id, has_key, has_source, fits_bigint, sign_allowed, check_account, add_to, check_row,
  check_rows, update_balance,
}
use crypto_processing_api.Ledger.Accounts.{
  get_system_account, lock_each, lock_accounts, sorted, insert_sorted,
}
use crypto_processing_api.Ledger.Entry.{
  is_dangling, all_fit, add_delta, collect_deltas, insert_item, sorted_items, check_assets,
  apply_delta, apply_deltas, new_entry, posting_of, insert_entry, write_entry, translate,
  post_entry,
}
use crypto_processing_api.Ledger.Entry.Balances.{shift}
use crypto_processing_api.Ledger.Entry.Outcome.{posted}
use crypto_processing_api.Ledger.Consistency.{HasUniqueIds}
use crypto_processing_api.Fees.{FeeQuote, FeeSource, committed}
use crypto_processing_api.Withdrawals.Rows.{Withdrawal, Db, save, stored}
use crypto_processing_api.Withdrawals.Entries.{
  submit_entry, unsubmit_entry, post_submit_entry, post_unsubmit_entry, post_unsubmit_of,
  committed_from_entry, is_in_flight, only,
}
use crypto_processing_api.Withdrawals.Entries.Reversed.{unsubmit_undoes_submit}
use crypto_processing_api.Samples.{funded, row, session}

abbrev quoted : FeeQuote
quoted = record { fee = pos 30; net = pos 370; wallet_fee = pos 30; source = FeeSource.static }

abbrev start : Db
start = session funded (row submitting ∷ [])

abbrev sent : Db
sent = (post_submit_entry (row submitting) quoted start).1

abbrev sent_row : Withdrawal
sent_row = record (row submitting) { submit_entry_id = some 2 }

sent_runs : post_submit_entry (row submitting) quoted start ≡ (ok sent_row, sent)
unfolding post_submit_entry get_system_account post_entry posted shift collect_deltas add_delta
    lock_accounts lock_each sorted insert_sorted check_assets savepoint write_entry is_dangling
    all_fit insert_entry has_source has_id has_key eq_account_kind eq_entry_kind eq_source_ref
    apply_deltas apply_delta sorted_items insert_item update_balance check_rows check_row add_to
    check_account sign_allowed fits_bigint translate new_entry posting_of sum_of ◌+ℤ◌ neg
    submit_entry committed save stored
sent_runs = refl

-- The row that is reversed has failed since.
abbrev failed_row : Withdrawal
failed_row = record (row failed) { submit_entry_id = some 2 }

abbrev reversed : Db
reversed = (post_unsubmit_entry failed_row sent).1

abbrev reversal : JournalEntry
reversal = new_entry (unsubmit_entry (row failed) 2 3 4 (pos 400)) 3

reversed_runs : post_unsubmit_entry failed_row sent ≡ (ok (some reversal), reversed)
unfolding post_submit_entry post_unsubmit_entry post_unsubmit_of committed_from_entry is_in_flight
    only get_system_account post_entry posted shift collect_deltas add_delta lock_accounts lock_each
    sorted insert_sorted check_assets savepoint write_entry is_dangling all_fit insert_entry
    has_source has_id has_key eq_account_kind eq_entry_kind eq_source_ref apply_deltas apply_delta
    sorted_items insert_item update_balance check_rows check_row add_to check_account sign_allowed
    fits_bigint translate new_entry posting_of sum_of ◌+ℤ◌ neg submit_entry unsubmit_entry committed
    save stored
reversed_runs = refl

funded-HasUniqueIds : HasUniqueIds funded.accounts
funded-HasUniqueIds = ground arith

funded_postings : All (λ p. p.entry_id < funded.next_entry_id) funded.postings
funded_postings = (omega arith, (omega arith, tt))

unsubmit_undoes_submit_example :
    find (has_id 3) reversed.ledger.accounts ≡ find (has_id 3) funded.accounts
unsubmit_undoes_submit_example =
    unsubmit_undoes_submit (row submitting) failed_row sent_row quoted start sent sent reversed
      (some reversal) funded-HasUniqueIds funded_postings sent_runs refl refl refl reversed_runs 3
