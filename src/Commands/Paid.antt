-- ===== src/Commands/Paid.antt =====
-- What payout reports do to the status of a withdrawal.
use crypto_processing_api.Prelude.{
  ℕ, ◌≡◌, sym, ◌∙◌, ℤ, Bool, true, false, ◌||◌, Option, some, List, [], ◌∷◌, find, Bool-cases, inl,
  inr,
}
use crypto_processing_api.Errors.{Result, ok, err}
use crypto_processing_api.Exec.{savepoint, rolled_back}
use crypto_processing_api.Exec.Keeps.{Keeps-then, Keeps-pure}
use crypto_processing_api.Models.{Status, confirmed}
use crypto_processing_api.Withdrawals.Rows.{Withdrawal, Db, has_withdrawal_id}
use crypto_processing_api.Withdrawals.Transitions.{eq_status, allowed}
use crypto_processing_api.Withdrawals.Transitions.Graph.{
  is_returning, returning_step, returning-unconfirmed, confirmed_closed,
}
use crypto_processing_api.Withdrawals.Payouts.{BackendPayout, apply_payout_state}
use crypto_processing_api.Withdrawals.Payouts.Final.{Stands, apply_payout_state-Stands}
use crypto_processing_api.Commands.{Command, execute, serve}
use crypto_processing_api.Commands.Command.{tick, follow_payout}

-- What is reported of a payout, at a time, for a withdrawal, and the fee that was paid.
pub record Report : Type 0 where
  pub at : ℕ
  pub withdrawal_id : ℕ
  pub payout : BackendPayout
  pub fee : Option ℤ

-- Each report is followed in a session of its own.
unfoldable pub follow_all : List Report → List Command
follow_all [] = []
follow_all (r ∷ reports) =
    tick r.at ∷ follow_payout r.withdrawal_id r.payout r.fee ∷ follow_all reports

module _ (P : Status → Bool)
    (closed : (s t : Status) → P s ≡ true → allowed s t ≡ true → P t ≡ true) (k : ℕ) where
  rolled_back-Stands :
      (s : Db) (r : Result (Unit {0}) × Db)
      → Stands P closed k s
      → Stands P closed k r.1
      → Stands P closed k (rolled_back s r).1
  rolled_back-Stands s (ok a, s') h g = g
  rolled_back-Stands s (err e, s') h g = h

  serve-Stands :
      (reports : List Report) (s : Db)
      → Stands P closed k s
      → Stands P closed k (serve (follow_all reports) s)
  unfolding serve follow_all savepoint execute
  serve-Stands [] s h = h
  serve-Stands (r ∷ reports) s h =
      let t : Db = record s { now = r.at } in
      let later : Stands P closed k t = h in
      serve-Stands reports (savepoint (execute (follow_payout r.withdrawal_id r.payout r.fee)) t).1
        (rolled_back-Stands t (execute (follow_payout r.withdrawal_id r.payout r.fee) t) later (
          (Keeps-then (apply_payout_state r.withdrawal_id r.payout r.fee) _
              (apply_payout_state-Stands P closed k r.withdrawal_id r.payout r.fee)
              (Keeps-pure tt)).at
            t later))

not_back : (t : Status) → eq_status t confirmed ≡ true → is_returning t ≡ false
not_back t h = elim (Bool-cases (is_returning t)) [
  | inl back ↦ absurd (cc (returning-unconfirmed t back, h))
  | inr out ↦ out
]

-- Whatever payouts are reported, of whichever withdrawals, in whatever order and with whatever
-- errors: a withdrawal that is stored as rejected, failed or refunded stays in one of these statuses, and
-- one that is stored as confirmed stays confirmed.
pub serve_final :
    (reports : List Report) (k : ℕ) (s : Db) (w : Withdrawal)
    → find (has_withdrawal_id k) s.withdrawals ≡ some w
    → (is_returning w.status || eq_status w.status confirmed) ≡ true
    → (v : Withdrawal) × (find (has_withdrawal_id k) (serve (follow_all reports) s).withdrawals
        ≡ some v)
      × (is_returning v.status ≡ is_returning w.status)
      × (eq_status v.status confirmed ≡ eq_status w.status confirmed)
serve_final reports k s w found final = elim (Bool-cases (is_returning w.status)) [
  | inl back ↦
      let (v, there, p) = serve-Stands is_returning returning_step k reports s (w, found, back) in
      (
        v,
        there,
        p ∙ sym back,
        returning-unconfirmed v.status p ∙ sym (returning-unconfirmed w.status back),
      )
  | inr out ↦
      let paid : eq_status w.status confirmed ≡ true = rw out at final in
      let (v, there, p) =
        serve-Stands (λ t. eq_status t confirmed) confirmed_closed k reports s (w, found, paid) in
      (v, there, not_back v.status p ∙ sym out, p ∙ sym paid)
]
