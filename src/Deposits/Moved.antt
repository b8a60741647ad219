-- ===== src/Deposits/Moved.antt =====
-- How BTCPay's view of an invoice moves the stored status of a deposit.
use crypto_processing_api.Prelude.{
  ◌≡◌, refl, sym, subst, ap, ◌∙◌, inl, inr, ℕ, ◌||◌, not, some, find, find-true, Bool-cases, ==_iff,
}
use crypto_processing_api.Errors.{Result, ok, invoice_mismatch}
use crypto_processing_api.Exec.{guard}
use crypto_processing_api.Exec.Keeps.{continue-eq-ok, guard-eq-ok}
use crypto_processing_api.Withdrawals.Rows.{Db}
use crypto_processing_api.Deposits.Rows.{Deposit}
use crypto_processing_api.Deposits.Status.{is_terminal, is_known}
use crypto_processing_api.Deposits.Invoices.{has_deposit_id, lock_deposit}
use crypto_processing_api.Deposits.Apply.{
  ApplyArgs, is_other_invoice, follow_invoice, apply_to, apply_invoice_state,
}
use crypto_processing_api.Deposits.Results.{ApplyResult}
use crypto_processing_api.Deposits.Graph.{Steps}
use crypto_processing_api.Deposits.SettledAt.{IsSettledAt}
use crypto_processing_api.Deposits.Replayed.{follow_invoice-IsSettledAt, apply_to-untouched}

-- The stored row of the deposit, and its status on the graph.
abbrev IsMoved : Deposit → ℕ → Db → Type 0
IsMoved d k s =
    (d' : Deposit) × (find (has_deposit_id k) s.deposits ≡ some d') × Steps d.status d'.status

apply_to-IsMoved :
    (args : ApplyArgs) (k : ℕ) (d : Deposit) (s : Db) {r : ApplyResult} {s' : Db}
    → find (has_deposit_id k) s.deposits ≡ some d
    → apply_to args d s ≡ (ok r, s')
    → IsMoved d k s'
unfolding apply_to
apply_to-IsMoved args k d s {r} {s'} found h =
    elim (Bool-cases (is_terminal d.status || not (is_known args.invoice.status))) [
      | inl quiet ↦
          let stays : s ≡ s' =
            sym (apply_to-untouched args args.actor d s quiet)
            ∙ ap (λ (q : Result ApplyResult × Db). q.1) h in
          subst (IsMoved d k) stays (d, found, inl refl)
      | inr live ↦
          let (u, s₁, passed, h₁) =
            continue-eq-ok
              (guard (is_other_invoice d.btcpay_invoice_id args.invoice.id) invoice_mismatch s) _
              (rw live at h) in
          let same =
            (guard-eq-ok (is_other_invoice d.btcpay_invoice_id args.invoice.id) invoice_mismatch s
              passed).1 in
          let at : IsSettledAt args k d.status s' =
            follow_invoice-IsSettledAt args k d s
              ((==_iff d.id k).0 (find-true (has_deposit_id k) s.deposits found)) found
              (subst (λ t. follow_invoice args d t ≡ (ok r, s')) (sym same) h₁) in
          (at.last, at.found, at.steps)
    ]

-- A call that returns leaves the stored status of the deposit as it was, or moves it along the graph of
-- `_ALLOWED_TARGETS`.
pub apply_invoice_state-Steps :
    (args : ApplyArgs) (k : ℕ) (d : Deposit) (s : Db) {r : ApplyResult} {s' : Db}
    → find (has_deposit_id k) s.deposits ≡ some d
    → apply_invoice_state args k s ≡ (ok r, s')
    → (d' : Deposit) × (find (has_deposit_id k) s'.deposits ≡ some d') × Steps d.status d'.status
unfolding apply_invoice_state lock_deposit
apply_invoice_state-Steps args k d s {r} {s'} found h =
    apply_to-IsMoved args k d s found (rw found at h)
