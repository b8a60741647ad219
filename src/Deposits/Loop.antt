-- ===== src/Deposits/Loop.antt =====
-- What the loop over the payments leaves of the deposit, and when it credits nothing.
use crypto_processing_api.Prelude.{◌≡◌, refl, ◌∙◌, ℕ, Bool, true, false, List, [], ◌∷◌}
use crypto_processing_api.Exec.Keeps.{Returns, Returns-pure, Returns-bind, continue-eq-ok}
use crypto_processing_api.Exec.Preserves.{Preserves, Preserves-bind, preserves_rules}
use crypto_processing_api.Models.{Actor}
use crypto_processing_api.Deposits.Rows.{Deposit, DepositPayment}
use crypto_processing_api.Deposits.Status.{Parsed}
use crypto_processing_api.Deposits.Payments.{
  upsert_payment, credit_payment, credit_if, Round, Progress, noted, counted, credit_recorded,
  apply_payment, apply_payments,
}
use crypto_processing_api.Deposits.LedgerFree.{ledger_of, upsert_payment-LedgerFree}

-- The loop changes the total and the time of the last payment alone.
pub record SameDeposit (d d' : Deposit) : Type 0 where
  pub id : d'.id ≡ d.id
  pub status : d'.status ≡ d.status
  pub amount_expected : d'.amount_expected ≡ d.amount_expected
  pub btcpay_invoice_id : d'.btcpay_invoice_id ≡ d.btcpay_invoice_id
  pub asset_id : d'.asset_id ≡ d.asset_id

pub SameDeposit-self : (d : Deposit) → SameDeposit d d
SameDeposit-self d = record {
  id = refl;
  status = refl;
  amount_expected = refl;
  btcpay_invoice_id = refl;
  asset_id = refl;
}

SameDeposit-trans : {a b c : Deposit} → SameDeposit a b → SameDeposit b c → SameDeposit a c
SameDeposit-trans p q = record {
  id = q.id ∙ p.id;
  status = q.status ∙ p.status;
  amount_expected = q.amount_expected ∙ p.amount_expected;
  btcpay_invoice_id = q.btcpay_invoice_id ∙ p.btcpay_invoice_id;
  asset_id = q.asset_id ∙ p.asset_id;
}

noted-SameDeposit :
    (b : Bool) (k now : ℕ) (p : Progress) → SameDeposit p.deposit (noted b k now p).deposit
unfolding noted
noted-SameDeposit true k now p = record {
  id = refl;
  status = refl;
  amount_expected = refl;
  btcpay_invoice_id = refl;
  asset_id = refl;
}
noted-SameDeposit false k now p = SameDeposit-self p.deposit

counted-SameDeposit :
    (row : DepositPayment) (p : Progress) → SameDeposit p.deposit (counted row p).deposit
unfolding counted
counted-SameDeposit row p = record {
  id = refl;
  status = refl;
  amount_expected = refl;
  btcpay_invoice_id = refl;
  asset_id = refl;
}

credit_if-SameDeposit :
    (b : Bool) (asset : ℕ) (row : DepositPayment) (invoice : ℕ) (actor : Actor) (p : Progress)
    → Returns (λ p'. SameDeposit p.deposit p'.deposit) (credit_if b asset row invoice actor p)
unfolding credit_if
credit_if-SameDeposit true asset row invoice actor p =
    Returns-bind (credit_payment p.deposit asset row invoice actor) _
      λ credited. Returns-pure (counted credited p) (counted-SameDeposit credited p)
credit_if-SameDeposit false asset row invoice actor p = Returns-pure p (SameDeposit-self p.deposit)

credit_recorded-SameDeposit :
    (r : Round) (payment : Parsed) (p : Progress) (there : DepositPayment × Bool)
    → Returns (λ p'. SameDeposit p.deposit p'.deposit) (credit_recorded r payment p there)
unfolding credit_recorded
credit_recorded-SameDeposit r payment p (row, is_new) = record {
  at = λ s h.
      SameDeposit-trans (noted-SameDeposit is_new payment.id s.now p)
        ((credit_if-SameDeposit _ r.asset_id row r.invoice_id r.actor _).at s h);
}

pub apply_payment-SameDeposit :
    (r : Round) (payment : Parsed) (p : Progress)
    → Returns (λ p'. SameDeposit p.deposit p'.deposit) (apply_payment r payment p)
unfolding apply_payment
apply_payment-SameDeposit r payment p =
    Returns-bind (upsert_payment p.deposit.id payment.id payment.amount r.late) _
      (credit_recorded-SameDeposit r payment p)

pub apply_payments-SameDeposit :
    (r : Round) (ps : List Parsed) (p : Progress)
    → Returns (λ p'. SameDeposit p.deposit p'.deposit) (apply_payments r ps p)
unfolding apply_payments
apply_payments-SameDeposit r [] p = Returns-pure p (SameDeposit-self p.deposit)
apply_payments-SameDeposit r (x ∷ ps) p = record {
  at = λ s h.
      let (p₁, s₁, first, rest) = continue-eq-ok (apply_payment r x p s) (apply_payments r ps) h in
      SameDeposit-trans ((apply_payment-SameDeposit r x p).at s first)
        ((apply_payments-SameDeposit r ps p₁).at s₁ rest);
}

-- A round that may not credit leaves the ledger alone.
credit_recorded-LedgerFree :
    (r : Round) (payment : Parsed) (p : Progress) (there : DepositPayment × Bool)
    → r.creditable ≡ false
    → Preserves ledger_of (credit_recorded r payment p there)
unfolding credit_recorded credit_if
credit_recorded-LedgerFree r payment p (row, is_new) barred = record { at = λ s. rw barred refl }

pub apply_payments-LedgerFree :
    (r : Round) (ps : List Parsed) (p : Progress)
    → r.creditable ≡ false
    → Preserves ledger_of (apply_payments r ps p)
unfolding apply_payments apply_payment
apply_payments-LedgerFree r [] p barred = search preserves_rules
apply_payments-LedgerFree r (x ∷ ps) p barred =
    Preserves-bind _ _
      (Preserves-bind _ _ (upsert_payment-LedgerFree p.deposit.id x.id x.amount r.late)
        λ there. credit_recorded-LedgerFree r x p there barred)
      λ p₁. apply_payments-LedgerFree r ps p₁ barred
