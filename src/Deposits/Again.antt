-- ===== src/Deposits/Again.antt =====
-- The loop over payments that have been credited leaves the ledger alone.
use crypto_processing_api.Prelude.{
  ◌≡◌, refl, sym, ◌∙◌, ap, subst, ℕ, Bool, true, false, ◌&&◌, some, List, [], ◌∷◌, find, All,
  All-imp, Bool-cases, inl, inr, arith,
}
use crypto_processing_api.Errors.{Result, ok}
use crypto_processing_api.Exec.Keeps.{continue-eq-ok}
use crypto_processing_api.Exec.Preserves.{continue-view}
use crypto_processing_api.Withdrawals.Rows.{Db}
use crypto_processing_api.Deposits.Rows.{DepositPayment}
use crypto_processing_api.Deposits.Status.{Parsed, is_settled_payment}
use crypto_processing_api.Deposits.Payments.{
  is_row_of, is_uncredited, upsert_payment, credit_if, credit_recorded, Round, Progress,
  apply_payment, apply_payments,
}
use crypto_processing_api.Deposits.LedgerFree.{ledger_of, upsert_payment-LedgerFree}
use crypto_processing_api.Deposits.Loop.{apply_payment-SameDeposit}
use crypto_processing_api.Deposits.Credited.{
  is_needed, upsert_payment-found, credit_recorded-IsCredited,
}
use crypto_processing_api.Deposits.Kept.{
  Kept, upsert_payment-Kept, apply_payment-Kept, apply_payments-Kept,
}

-- Each payment that is to be credited has been.
abbrev pub AllCredited : Bool → ℕ → List Parsed → Db → Type 0
AllCredited creditable k ps s = All (λ x. is_needed creditable x ≡ true → Kept k x.id s) ps

apply_payment-IsCredited :
    (r : Round) (x : Parsed) (p : Progress) (s : Db) {p' : Progress} {s' : Db}
    → apply_payment r x p s ≡ (ok p', s')
    → is_needed r.creditable x ≡ true
    → Kept p.deposit.id x.id s'
unfolding apply_payment
apply_payment-IsCredited r x p s h needed =
    let (there, s₁, recorded, rest) =
      continue-eq-ok (upsert_payment p.deposit.id x.id x.amount r.late s) (credit_recorded r x p)
        h in
    credit_recorded-IsCredited p.deposit.id r x p there s₁ needed
      (upsert_payment-found p.deposit.id x.id x.amount r.late s recorded) rest

-- After the loop has returned, each payment that was to be credited has been.
pub apply_payments-AllCredited :
    (r : Round) (ps : List Parsed) (p : Progress) (s : Db) {p' : Progress} {s' : Db}
    → apply_payments r ps p s ≡ (ok p', s')
    → AllCredited r.creditable p.deposit.id ps s'
unfolding apply_payments
apply_payments-AllCredited r [] p s h = tt
apply_payments-AllCredited r (x ∷ ps) p s {p'} {s'} h =
    let (p₁, s₁, first, rest) = continue-eq-ok (apply_payment r x p s) (apply_payments r ps) h in
    let same = (apply_payment-SameDeposit r x p).at s first in
    (
      λ needed. subst (Kept p.deposit.id x.id) (ap (λ (t : Result Progress × Db). t.1) rest) (
          (apply_payments-Kept p.deposit.id x.id r ps p₁).at s₁
            (apply_payment-IsCredited r x p s first needed)),
      subst (λ k. AllCredited r.creditable k ps s') same.id
          (apply_payments-AllCredited r ps p₁ s₁ rest),
    )

-- A payment that has been credited is not credited again.
credit_recorded-again :
    (r : Round) (x : Parsed) (p : Progress) (there : DepositPayment × Bool) (k : ℕ) (s : Db)
    → (is_needed r.creditable x ≡ true → Kept k x.id s)
    → find (is_row_of k x.id) s.deposit_payments ≡ some there.0
    → (credit_recorded r x p there s).1.ledger ≡ s.ledger
unfolding credit_recorded credit_if
credit_recorded-again r x p (row, is_new) k s h found =
    let skipped : (r.creditable && (is_settled_payment x.status && is_uncredited row)) ≡ false =
      elim (Bool-cases (is_needed r.creditable x)) [
        | inl needed ↦
            let c = h needed in
            let same : row ≡ c.row = cc (found, c.found) in
            let done : is_uncredited row ≡ false = rw same c.done in ground (arith, done, needed)
        | inr idle ↦ ground (arith, idle)
      ] in
    rw skipped refl

apply_payment-again :
    (r : Round) (x : Parsed) (p : Progress) (s : Db)
    → (is_needed r.creditable x ≡ true → Kept p.deposit.id x.id s)
    → (apply_payment r x p s).1.ledger ≡ s.ledger
unfolding apply_payment
apply_payment-again r x p s h =
    continue-view ledger_of (upsert_payment p.deposit.id x.id x.amount r.late s)
      (credit_recorded r x p)
      (λ there s₁ recorded.
        credit_recorded-again r x p there p.deposit.id s₁
          (λ needed.
            subst (Kept p.deposit.id x.id)
              (ap (λ (t : Result (DepositPayment × Bool) × Db). t.1) recorded)
              ((upsert_payment-Kept p.deposit.id x.id p.deposit.id x.id x.amount r.late).at s
                (h needed)))
          (upsert_payment-found p.deposit.id x.id x.amount r.late s recorded))
    ∙ (upsert_payment-LedgerFree p.deposit.id x.id x.amount r.late).at s

AllCredited-kept :
    (r : Round) (x : Parsed) (p : Progress) (k : ℕ) (ps : List Parsed) (s : Db) {p₁ : Progress}
    {s₁ : Db}
    → apply_payment r x p s ≡ (ok p₁, s₁)
    → AllCredited r.creditable k ps s
    → AllCredited r.creditable k ps s₁
AllCredited-kept r x p k ps s first h =
    All-imp _ _
      (λ y c needed.
        subst (Kept k y.id) (ap (λ (t : Result Progress × Db). t.1) first)
          ((apply_payment-Kept k y.id r x p).at s (c needed)))
      ps h

-- A loop over payments that have all been credited leaves the ledger alone.
pub apply_payments-again :
    (r : Round) (ps : List Parsed) (p : Progress) (s : Db)
    → AllCredited r.creditable p.deposit.id ps s
    → (apply_payments r ps p s).1.ledger ≡ s.ledger
unfolding apply_payments
apply_payments-again r [] p s h = refl
apply_payments-again r (x ∷ ps) p s h =
    continue-view ledger_of (apply_payment r x p s) (apply_payments r ps) (λ p₁ s₁ first.
      apply_payments-again r ps p₁ s₁ (
        subst (λ k. AllCredited r.creditable k ps s₁)
          (sym ((apply_payment-SameDeposit r x p).at s first).id)
          (AllCredited-kept r x p p.deposit.id ps s first h.1)))
    ∙ apply_payment-again r x p s h.0
