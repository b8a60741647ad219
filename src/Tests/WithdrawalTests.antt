-- ===== src/Tests/WithdrawalTests.antt =====
-- Withdrawals on the sample exchange.
use crypto_processing_api.Commands.Paid.{Report, follow_all, serve_final}
use crypto_processing_api.Withdrawals.Payouts.{PayoutState, BackendPayout, in_flight, completed}
use crypto_processing_api.Withdrawals.Transitions.{eq_status}
use crypto_processing_api.Withdrawals.Transitions.Graph.{is_returning}
use crypto_processing_api.Prelude.{
  find, none, pos, neg, ◌+ℤ◌, sum_of, ◌≡◌, ◌↔◌, refl, some, List, [], ◌∷◌, false,
}
use crypto_processing_api.Errors.{ok}
use crypto_processing_api.Models.{failed, confirmed, approved, submitted}
use crypto_processing_api.Core.Text.{codes}
use crypto_processing_api.Ledger.Store.{empty}
use crypto_processing_api.Ledger.Entry.Deltas.{total_at}
use crypto_processing_api.Ledger.Audit.{assert_ledger_consistent}
use crypto_processing_api.Withdrawals.Rows.{admin, has_withdrawal_id, Db, Withdrawal}
use crypto_processing_api.Withdrawals.Entries.{submit_entry, settle_postings, or_zero}
use crypto_processing_api.Withdrawals.Entries.Sums.{net_of, fee_paid, settle_postings_balanced_iff}
use crypto_processing_api.Withdrawals.Entries.Effects.{settled_effect}
use crypto_processing_api.Withdrawals.Admin.{claim_for_submission}
use crypto_processing_api.Withdrawals.Admin.Winner.{claim_for_submission_once}
use crypto_processing_api.Commands
use crypto_processing_api.Commands.{Command, serve}
use crypto_processing_api.Commands.Served.{serve-assert_ledger_consistent}
use crypto_processing_api.Samples.{funded, request, row, session}

-- The user asks for 400, an admin releases, and somebody asks for a payout that is not there.
abbrev commands : List Command
commands =
    Commands.provision 1
    ∷ Commands.place request 11
    ∷ Commands.release_by_admin 11 (admin 1) (codes "lost")
    ∷ Commands.claim 11
    ∷ []

serve-assert_ledger_consistent_example :
    assert_ledger_consistent (serve commands (session empty [])).ledger
    ≡ (ok tt, (serve commands (session empty [])).ledger)
serve-assert_ledger_consistent_example =
    serve-assert_ledger_consistent commands (session empty []) refl

settle_postings_balanced_iff_example :
    (sum_of (λ p. p.1) (settle_postings (row submitted) (pos 400) (some (pos 35)) 2 4 6 5 3)
      ≡ pos 0)
    ↔ (or_zero (some (pos 30)) +ℤ net_of (row submitted) ≡ pos 400)
settle_postings_balanced_iff_example =
    settle_postings_balanced_iff (row submitted) (pos 400) (some (pos 35)) 2 4 6 5 3

settled_effect_example :
    (total_at 3 (submit_entry (row submitted) 4 3 (pos 400)).postings
        +ℤ total_at 3 (settle_postings (row submitted) (pos 400) (some (pos 35)) 2 4 6 5 3)
      ≡ neg (net_of (row submitted) +ℤ fee_paid (row submitted) (pos 400) (some (pos 35))))
    × (total_at 4 (submit_entry (row submitted) 4 3 (pos 400)).postings
          +ℤ total_at 4 (settle_postings (row submitted) (pos 400) (some (pos 35)) 2 4 6 5 3)
        ≡ pos 0)
settled_effect_example =
    settled_effect (row submitted) (pos 400) (some (pos 35)) 2 4 6 5 3
      (refl, (refl, (refl, (refl, tt)))) (refl, (refl, (refl, (refl, tt))))

claim_for_submission_once_example :
    claim_for_submission 11 (claim_for_submission 11 (session funded (row approved ∷ []))).1
    ≡ (ok false, (claim_for_submission 11 (session funded (row approved ∷ []))).1)
claim_for_submission_once_example =
    claim_for_submission_once 11 (session funded (row approved ∷ []))

-- A cancelled payout, and then reports of it that come late.
abbrev cancelled_row : Db
cancelled_row = session funded (row failed ∷ [])

abbrev late_payout : PayoutState → BackendPayout
late_payout state = record { id = 8; state = state; txid = none; withdrawal_id = some 11 }

abbrev late_reports : List Report
late_reports =
    record { at = 300; withdrawal_id = 11; payout = late_payout in_flight; fee = none }
    ∷ record { at = 400; withdrawal_id = 11; payout = late_payout completed; fee = none }
    ∷ []

serve_final_example :
    (v : Withdrawal) × (find
        (has_withdrawal_id 11)
        (serve (follow_all late_reports) cancelled_row).withdrawals
      ≡ some v)
    × (is_returning v.status ≡ is_returning failed)
    × (eq_status v.status confirmed ≡ eq_status failed confirmed)
unfolding is_returning
serve_final_example = serve_final late_reports 11 cancelled_row (row failed) refl refl
