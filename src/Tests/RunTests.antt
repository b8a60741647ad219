-- ===== src/Tests/RunTests.antt =====
-- Whole runs of the operations on the sample exchange.
use crypto_processing_api.Prelude.{
  ltb_ℤ, pos, neg, ◌+ℤ◌, sum_of, ◌≡◌, refl, none, some, [], ◌∷◌, find, true, false,
}
use crypto_processing_api.Errors.{ok, err, illegal_transition}
use crypto_processing_api.Models.{
  eq_account_kind, eq_entry_kind, eq_source_ref, pending_approval, approved, refunded,
}
use crypto_processing_api.Ledger.Store.{
  Ledger, has_id, has_key, has_source, fits_bigint, sign_allowed, check_account, add_to, check_row,
  check_rows, update_balance,
}
use crypto_processing_api.Ledger.Accounts.{
  get_or_create_account, insert_account, get_user_accounts, lock_each, lock_accounts, sorted,
  insert_sorted, lock_asset_gate, lock_user_accounts, locked_row,
}
use crypto_processing_api.Exec.{savepoint}
use crypto_processing_api.Ledger.Entry.Balances.{shift}
use crypto_processing_api.Ledger.Entry.{
  is_dangling, all_fit, add_delta, collect_deltas, insert_item, sorted_items, check_assets,
  apply_delta, apply_deltas, new_entry, posting_of, insert_entry, write_entry, translate,
  post_entry,
}
use crypto_processing_api.Ledger.Entry.Outcome.{posted}
use crypto_processing_api.Ledger.Entry.Deltas.{pair_at, total_at}
use crypto_processing_api.Withdrawals.Rows.{
  has_withdrawal_id, auto_actor, Asset, Withdrawal, admin, Db, lock, save, stored, get_asset,
}
use crypto_processing_api.Withdrawals.Entries.{
  hold_entry, release_entry, post_unsubmit_entry, post_unsubmit_of, post_release_entry,
}
use crypto_processing_api.Withdrawals.Entries.Effects.{release_undoes_hold}
use crypto_processing_api.Withdrawals.Holds.{
  exceeds, announce, joined, in_window, insert_withdrawal, new_withdrawal, decide, hold_locked,
  record_hold, velocity_sum, route, place_hold, HoldOutcome,
}
use crypto_processing_api.Withdrawals.Holds.Limits.{WithinLimits}
use crypto_processing_api.Withdrawals.Holds.Placed.{place_hold-WithinLimits}
use crypto_processing_api.Withdrawals.Holds.Window.{place_hold_within_caps}
use crypto_processing_api.Withdrawals.Release.{
  release_permitted, release_hold, release_once, refund, through, intermediate,
}
use crypto_processing_api.Withdrawals.Transitions.{
  is_auto_releasable, is_attested_releasable, transition, allowed, eq_status,
}
use crypto_processing_api.Withdrawals.Release.Stored.{release_hold-refunded}
use crypto_processing_api.Withdrawals.Release.Permitted.{MayRelease, release_hold-MayRelease}
use crypto_processing_api.Withdrawals.Admin.{swap, refuse, row_count, update_where, approve}
use crypto_processing_api.Withdrawals.Admin.Winner.{approve_once}
use crypto_processing_api.Samples.{funded, request, row, session}

-- A hold and its release, in the ledger.
held : post_entry (hold_entry (row approved) 1 2) funded ≡ (
  ok (new_entry (hold_entry (row approved) 1 2) 2),
  posted (hold_entry (row approved) 1 2) funded,
)
unfolding post_entry posted shift collect_deltas add_delta lock_accounts lock_each sorted
    insert_sorted check_assets savepoint write_entry is_dangling all_fit insert_entry has_source
    has_id eq_entry_kind eq_source_ref apply_deltas apply_delta sorted_items insert_item
    update_balance check_rows check_row add_to check_account sign_allowed fits_bigint translate
    new_entry posting_of sum_of ◌+ℤ◌ total_at pair_at neg hold_entry
held = refl

abbrev held_ledger : Ledger
held_ledger = posted (hold_entry (row approved) 1 2) funded

abbrev released_ledger : Ledger
released_ledger = posted (release_entry (row approved) 2 1) held_ledger

given_back :
    post_entry (release_entry (row approved) 2 1) held_ledger
    ≡ (ok (new_entry (release_entry (row approved) 2 1) 3), released_ledger)
unfolding post_entry posted shift collect_deltas add_delta lock_accounts lock_each sorted
    insert_sorted check_assets savepoint write_entry is_dangling all_fit insert_entry has_source
    has_id eq_entry_kind eq_source_ref apply_deltas apply_delta sorted_items insert_item
    update_balance check_rows check_row add_to check_account sign_allowed fits_bigint translate
    new_entry posting_of sum_of ◌+ℤ◌ total_at pair_at neg hold_entry release_entry
given_back = refl

release_undoes_hold_example :
    find (has_id 1) released_ledger.accounts ≡ find (has_id 1) funded.accounts
release_undoes_hold_example =
    release_undoes_hold (row approved) 1 2 funded held_ledger released_ledger
      (new_entry (hold_entry (row approved) 1 2) 2) (new_entry (release_entry (row approved) 2 1) 3)
      held given_back 1

-- The same release, by the service.
abbrev holding : Db
holding = session held_ledger (row approved ∷ [])

abbrev after_release : Db
after_release = (release_hold (row approved) (admin 1) none holding).1

abbrev released_row : Withdrawal
released_row = record (row refunded) {
  release_entry_id = some 3;
  released_by = some (admin 1);
  updated_at = 200;
}

released : release_hold (row approved) (admin 1) none holding ≡ (ok released_row, after_release)
unfolding post_entry posted shift collect_deltas add_delta lock_accounts lock_each sorted
    insert_sorted check_assets savepoint write_entry is_dangling all_fit insert_entry has_source
    has_id eq_entry_kind eq_source_ref apply_deltas apply_delta sorted_items insert_item
    update_balance check_rows check_row add_to check_account sign_allowed fits_bigint translate
    new_entry posting_of sum_of ◌+ℤ◌ total_at pair_at neg hold_entry release_entry release_hold
    release_permitted is_attested_releasable is_auto_releasable release_once refund through
    intermediate transition allowed eq_status get_user_accounts get_or_create_account insert_account
    has_key eq_account_kind post_unsubmit_entry post_unsubmit_of post_release_entry save stored
released = refl

release_hold-MayRelease_example : MayRelease approved none
release_hold-MayRelease_example =
    release_hold-MayRelease (row approved) (admin 1) none holding after_release released_row
      released

found_approved : find (has_withdrawal_id 11) holding.withdrawals ≡ some (row approved)
found_approved = refl

release_hold-refunded_example :
    (find (has_withdrawal_id 11) after_release.withdrawals ≡ some released_row)
    × (released_row.status ≡ refunded)
release_hold-refunded_example =
    release_hold-refunded (row approved) (admin 1) none holding after_release released_row
      found_approved refl released

-- A request within the limits.
abbrev outcome : HoldOutcome
outcome = record {
  withdrawal = record (new_withdrawal request 11 false 200) { hold_entry_id = some 2 };
  auto_approved = true;
  reason = none;
}

abbrev after_hold : Db
after_hold = (place_hold request 11 (session funded [])).1

placed : place_hold request 11 (session funded []) ≡ (ok outcome, after_hold)
unfolding post_entry posted shift collect_deltas add_delta lock_accounts lock_each sorted
    insert_sorted check_assets savepoint write_entry is_dangling all_fit insert_entry has_source
    has_id eq_entry_kind eq_source_ref apply_deltas apply_delta sorted_items insert_item
    update_balance check_rows check_row add_to check_account sign_allowed fits_bigint translate
    new_entry posting_of sum_of ◌+ℤ◌ total_at pair_at neg hold_entry place_hold hold_locked
    record_hold decide route announce joined velocity_sum in_window get_asset lock_asset_gate
    lock_user_accounts locked_row get_user_accounts get_or_create_account insert_account has_key
    eq_account_kind insert_withdrawal new_withdrawal save stored
placed = refl

found_placed : find (has_withdrawal_id 11) after_hold.withdrawals ≡ some outcome.withdrawal
unfolding post_entry posted shift collect_deltas add_delta lock_accounts lock_each sorted
    insert_sorted check_assets savepoint write_entry is_dangling all_fit insert_entry has_source
    has_id eq_entry_kind eq_source_ref apply_deltas apply_delta sorted_items insert_item
    update_balance check_rows check_row add_to check_account sign_allowed fits_bigint translate
    new_entry posting_of sum_of ◌+ℤ◌ total_at pair_at neg hold_entry place_hold hold_locked
    record_hold decide route announce joined velocity_sum in_window get_asset lock_asset_gate
    lock_user_accounts locked_row get_user_accounts get_or_create_account insert_account has_key
    eq_account_kind insert_withdrawal new_withdrawal save stored
found_placed = refl

place_hold-WithinLimits_example :
    (asset : Asset) × ((get_asset 1 true (session funded [])).0 ≡ ok asset)
    × WithinLimits false
        (pos 400)
        asset
        (velocity_sum [] 1 none 200)
        (velocity_sum [] 1 (some 7) 200)
    × (outcome.withdrawal.approved_by ≡ some auto_actor)
unfolding new_withdrawal
place_hold-WithinLimits_example =
    place_hold-WithinLimits request 11 (session funded []) after_hold outcome outcome.withdrawal
      placed found_placed refl

place_hold_within_caps_example :
    (asset : Asset) × ((get_asset 1 true (session funded [])).0 ≡ ok asset)
    × (ltb_ℤ asset.withdrawal_daily_cap (velocity_sum after_hold.withdrawals 1 none 200) ≡ false)
    × (exceeds asset.withdrawal_user_daily_cap (velocity_sum after_hold.withdrawals 1 (some 7) 200)
        ≡ false)
unfolding new_withdrawal
place_hold_within_caps_example =
    place_hold_within_caps request 11 (session funded []) after_hold outcome outcome.withdrawal
      placed found_placed refl

-- Two admins.
abbrev waiting : Db
waiting = session funded (row pending_approval ∷ [])

abbrev after_approval : Db
after_approval = (approve 11 (admin 1) waiting).1

abbrev approved_row : Withdrawal
approved_row = record (row approved) { approved_by = some (admin 1); updated_at = 200 }

approved_once : approve 11 (admin 1) waiting ≡ (ok approved_row, after_approval)
unfolding approve swap refuse row_count update_where lock eq_status
approved_once = refl

approve_once_example :
    approve 11 (admin 2) after_approval ≡ (err illegal_transition, after_approval)
approve_once_example =
    approve_once 11 (admin 1) (admin 2) waiting after_approval approved_row approved_once
