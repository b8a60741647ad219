-- ===== src/Commands.antt =====
-- The calls that the API and the workers make of the service, each in a session of its own: the
-- session commits when the call returns, and is rolled back when it raises.
pub mod Served
pub mod Paid
use crypto_processing_api.Prelude.{ℕ, ℤ, ◌≡◌, refl, Bool, Option, none, some, List, [], ◌∷◌}
use crypto_processing_api.Errors.{Result, ok, err}
use crypto_processing_api.Exec.{Exec, modify, pure, savepoint, rolled_back, ◌>>=◌, ◌>>◌}
use crypto_processing_api.Core.Text.{Text}
use crypto_processing_api.Fees.{FeeQuote}
use crypto_processing_api.Ledger.Accounts.{ensure_system_accounts}
use crypto_processing_api.Ledger.Entry.{EntryArgs, post_entry}
use crypto_processing_api.Fees.{Rate}
use crypto_processing_api.Deposits.Rows.{Gateway}
use crypto_processing_api.Deposits.Invoices.{
  DepositSettings, lock_deposit, create_deposit, ensure_invoice, mark_failed,
}
use crypto_processing_api.Deposits.Apply.{ApplyArgs, apply_invoice_state, refresh_deposit}
use crypto_processing_api.Deposits.Resolve.{ResolveAction, resolve_review}
use crypto_processing_api.Withdrawals.Rows.{Withdrawal, Actor, Db, on_ledger, lock}
use crypto_processing_api.Withdrawals.Holds.{HoldRequest, place_hold}
use crypto_processing_api.Withdrawals.Release.{auto_release_with_proof, admin_release}
use crypto_processing_api.Withdrawals.Payouts.{BackendPayout, apply_payout_state, record_submission}
use crypto_processing_api.Withdrawals.Admin.{approve, reject, claim_for_submission, submit_manual}

pub data Command : Type 0 where
  provision : ℕ → Command
  post : EntryArgs → Command
  place : HoldRequest → ℕ → Command
  approve_it : ℕ → Actor → Command
  reject_it : ℕ → Actor → Option Text → Command
  claim : ℕ → Command
  record_it : ℕ → ℕ → FeeQuote → Command
  submit_it : ℕ → FeeQuote → ℕ → Command
  follow_payout : ℕ → BackendPayout → Option ℤ → Command
  release_with_proof : ℕ → Actor → Text → Command
  release_by_admin : ℕ → Actor → Text → Command
  open_deposit : ℕ → ℕ → ℕ → Option ℕ → Command
  open_invoice : Gateway → DepositSettings → Bool → ℕ → Command
  fail_deposit : ℕ → Command
  apply_invoice : ApplyArgs → ℕ → Command
  refresh : Gateway → ℕ → Actor → Rate → Command
  resolve : Gateway → ℕ → ResolveAction → Option ℕ → Actor → Command
  -- time passes
  tick : ℕ → Command

-- The call returns nothing that the session keeps.
abbrev pub discard : {A : Type 0} → Exec Db A → Exec Db (Unit {0})
discard m = m >> pure tt

unfoldable pub execute : Command → Exec Db (Unit {0})
execute (provision asset) = discard (on_ledger (ensure_system_accounts asset))
execute (post args) = discard (on_ledger (post_entry args))
execute (place r k) = discard (place_hold r k)
execute (approve_it k actor) = discard (approve k actor)
execute (reject_it k actor reason) = discard (reject k actor reason)
execute (claim k) = discard (claim_for_submission k)
execute (record_it k payout quote) = do w ← lock k; discard (record_submission w payout quote)
execute (submit_it k quote reference) = do w ← lock k; discard (submit_manual w quote reference)
execute (follow_payout k payout fee) = discard (apply_payout_state k payout fee)
execute (release_with_proof k actor proof) = do
  w ← lock k
  discard (auto_release_with_proof w actor proof)
execute (release_by_admin k actor attestation) = discard (admin_release k actor attestation)
execute (open_deposit k user asset expected) = discard (create_deposit k user asset expected)
execute (open_invoice gateway settings adopt_first k) = do
  d ← lock_deposit k
  discard (ensure_invoice gateway settings adopt_first d)
execute (fail_deposit k) = do d ← lock_deposit k; mark_failed d
execute (apply_invoice args k) = discard (apply_invoice_state args k)
execute (refresh gateway k actor tolerance) = discard (refresh_deposit gateway k actor tolerance)
execute (resolve gateway k action payment actor) =
    discard (resolve_review gateway k action payment actor)
execute (tick now) = modify (λ s. record s { now = now })

-- One session after another; what a call raises goes to its caller and stops nobody else.
unfoldable pub serve : List Command → Db → Db
unfolding execute
serve [] s = s
serve (c ∷ cs) s = serve cs (savepoint (execute c) s).1
