-- ===== src/Commands/Served.antt =====
-- The books after any sequence of sessions.
use crypto_processing_api.Prelude.{sum_of, ◌≡◌, refl, List, [], ◌∷◌}
use crypto_processing_api.Errors.{Result, ok, err}
use crypto_processing_api.Exec.{savepoint, rolled_back}
use crypto_processing_api.Exec.Keeps.{Keeps, keeps_rules}
use crypto_processing_api.Ledger.Store.{empty}
use crypto_processing_api.Ledger.Audit.{derived_balance, entry_total, assert_ledger_consistent}
use crypto_processing_api.Ledger.Book.{nothing_posted}
use crypto_processing_api.Ledger.Consistency.{IsConsistent}
use crypto_processing_api.Ledger.Consistency.Kept.{post_entry-IsConsistent}
use crypto_processing_api.Ledger.Consistency.Checks.{assert_ledger_consistent_passes}
use crypto_processing_api.Ledger.Consistency.Provision.{ensure_system_accounts-IsConsistent}
use crypto_processing_api.Withdrawals.Rows.{Db}
use crypto_processing_api.Withdrawals.Books.{Books, on_ledger-Books, lock-Books}
use crypto_processing_api.Withdrawals.Books.Operations.{
  place_hold-Books, approve-Books, reject-Books, claim_for_submission-Books,
  record_submission-Books, submit_manual-Books, apply_payout_state-Books,
  auto_release_with_proof-Books, admin_release-Books,
}
use crypto_processing_api.Deposits.Books.{
  lock_deposit-Books, create_deposit-Books, ensure_invoice-Books, mark_failed-Books,
  apply_invoice_state-Books, refresh_deposit-Books, resolve_review-Books,
}
use crypto_processing_api.Commands.{Command, execute, serve}
use crypto_processing_api.Commands.Command.{
  provision, post, place, approve_it, reject_it, claim, record_it, submit_it, follow_payout,
  release_with_proof, release_by_admin, open_deposit, open_invoice, fail_deposit, apply_invoice,
  refresh, resolve, tick,
}

ruleset command_rules = (
  keeps_rules, on_ledger-Books, lock-Books, place_hold-Books, approve-Books, reject-Books,
  claim_for_submission-Books, record_submission-Books, submit_manual-Books,
  apply_payout_state-Books, auto_release_with_proof-Books, admin_release-Books, lock_deposit-Books,
  create_deposit-Books, ensure_invoice-Books, mark_failed-Books, apply_invoice_state-Books,
  refresh_deposit-Books, resolve_review-Books, post_entry-IsConsistent,
  ensure_system_accounts-IsConsistent,
)

execute-Books : (c : Command) → Keeps Books (execute c)
unfolding execute
execute-Books (provision asset) = search command_rules depth 8
execute-Books (post args) = search command_rules depth 8
execute-Books (place r k) = search command_rules depth 8
execute-Books (approve_it k actor) = search command_rules depth 8
execute-Books (reject_it k actor reason) = search command_rules depth 8
execute-Books (claim k) = search command_rules depth 8
execute-Books (record_it k payout quote) = search command_rules depth 8
execute-Books (submit_it k quote reference) = search command_rules depth 8
execute-Books (follow_payout k payout fee) = search command_rules depth 8
execute-Books (release_with_proof k actor proof) = search command_rules depth 8
execute-Books (release_by_admin k actor attestation) = search command_rules depth 8
execute-Books (open_deposit k user asset expected) = search command_rules depth 8
execute-Books (open_invoice gateway settings adopt_first k) = search command_rules depth 8
execute-Books (fail_deposit k) = search command_rules depth 8
execute-Books (apply_invoice args k) = search command_rules depth 8
execute-Books (refresh gateway k actor tolerance) = search command_rules depth 8
execute-Books (resolve gateway k action payment actor) = search command_rules depth 8
execute-Books (tick now) = record { at = λ s h. h }

rolled_back-Books :
    (s : Db) (r : Result (Unit {0}) × Db) → Books s → Books r.1 → Books (rolled_back s r).1
rolled_back-Books s (ok a, s') h k = k
rolled_back-Books s (err e, s') h k = h

-- No sequence of sessions, whatever it asks for, makes consistent books inconsistent.
pub serve-IsConsistent :
    (cs : List Command) (s : Db) → IsConsistent s.ledger → IsConsistent (serve cs s).ledger
unfolding serve savepoint
serve-IsConsistent [] s h = h
serve-IsConsistent (c ∷ cs) s h =
    serve-IsConsistent cs (savepoint (execute c) s).1
      (rolled_back-Books s (execute c s) h ((execute-Books c).at s h))

pub empty-IsConsistent : IsConsistent empty
unfolding entry_total sum_of derived_balance
empty-IsConsistent = record {
  unique_ids = tt;
  account_ids = tt;
  posting_ids = tt;
  derived = tt;
  balanced = λ e. refl;
  residual = λ asset. refl;
  allowed = tt;
  sources = tt;
  history = nothing_posted;
}

-- The three checks of the books pass after any sequence of sessions that starts from an empty
-- ledger.
pub serve-assert_ledger_consistent :
    (cs : List Command) (s : Db)
    → s.ledger ≡ empty
    → assert_ledger_consistent (serve cs s).ledger ≡ (ok tt, (serve cs s).ledger)
serve-assert_ledger_consistent cs s h =
    assert_ledger_consistent_passes (serve cs s).ledger
      (serve-IsConsistent cs s (rw h empty-IsConsistent))
