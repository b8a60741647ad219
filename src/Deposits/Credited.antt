-- ===== src/Deposits/Credited.antt =====
-- A payment that has been credited is not credited again.
use crypto_processing_api.Prelude.{
  ◌≡◌, refl, sym, ◌∙◌, ap, subst, ℕ, Bool, true, false, ◌&&◌, not, some, List, map, find, ==_self,
  ◌==◌, Bool-cases, inl, inr, arith,
}
use crypto_processing_api.Errors.{Result, ok, integrity_error, other_constraint, no_result_found}
use crypto_processing_api.Exec.{Exec, guard, or_raise, pure}
use crypto_processing_api.Exec.Keeps.{continue-eq-ok, or_raise-eq-ok}
use crypto_processing_api.Exec.Preserves.{Preserves, preserves_rules}
use crypto_processing_api.Models.{Actor}
use crypto_processing_api.Ledger.Store.{Ledger}
use crypto_processing_api.Withdrawals.Rows.{Db, on_ledger}
use crypto_processing_api.Deposits.Rows.{Deposit, DepositPayment}
use crypto_processing_api.Deposits.Status.{Parsed, is_settled_payment}
use crypto_processing_api.Deposits.Kept.{find-stored, Kept}
use crypto_processing_api.Deposits.Payments.{
  is_row_of, is_some_row, is_uncredited, new_payment, insert_payment, upsert_payment,
  stored_payment, credited_row, store_credit, credited_entry, credit_payment, credit_if,
  credit_recorded, Round, Progress,
}

-- The row that `_upsert_payment` returns is the one in the table.
pub upsert_payment-found :
    (d p amount : ℕ) (late : Bool) (s : Db) {there : DepositPayment × Bool} {s' : Db}
    → upsert_payment d p amount late s ≡ (ok there, s')
    → find (is_row_of d p) s'.deposit_payments ≡ some there.0
unfolding upsert_payment
upsert_payment-found d p amount late s {there} {s'} h =
    let (u, s₁, g, h₁) =
      continue-eq-ok (guard (amount == 0) (integrity_error other_constraint) s) _ h in
    let b = is_some_row (find (is_row_of d p) s₁.deposit_payments) in
    let s₂ = insert_payment b (new_payment d p amount late) s₁ in
    let (row, s₃, g₁, h₂) =
      continue-eq-ok (or_raise no_result_found (find (is_row_of d p) s₂.deposit_payments) s₂)
        (λ row. pure (row, not b)) h₁ in
    let (found, same) =
      or_raise-eq-ok no_result_found (find (is_row_of d p) s₂.deposit_payments) s₂ g₁ in
    let same' : s₃ ≡ s' = cc in
    let pair : (row, not b) ≡ there = cc in
    let fst : row ≡ there.0 = ap (λ (r : DepositPayment × Bool). r.0) pair in
    ap (λ (t : Db). find (is_row_of d p) t.deposit_payments) (sym (same ∙ same'))
    ∙ found
    ∙ ap some fst

rows_of : Db → List DepositPayment
rows_of s = s.deposit_payments

on_ledger-rows : {A : Type 0} (m : Exec Ledger A) → Preserves rows_of (on_ledger m)
unfolding rows_of
on_ledger-rows m = record { at = λ s. refl }

credited_entry-rows :
    (d : Deposit) (asset : ℕ) (row : DepositPayment) (invoice : ℕ)
    → Preserves rows_of (credited_entry d asset row invoice)
unfolding credited_entry
credited_entry-rows d asset row invoice = search (preserves_rules, on_ledger-rows) depth 16

-- The row of the payment, once stored, is the credited one.
stored_self :
    (k j : ℕ) (row : DepositPayment) (entry : ℕ) (actor : Actor) (now : ℕ)
    → is_uncredited (stored_payment (credited_row row entry actor now) row) ≡ false
unfolding stored_payment credited_row
stored_self k j row entry actor now =
    rw (==_self row.deposit_id, ==_self row.btcpay_payment_id) refl

credit_payment-IsCredited :
    (k j : ℕ) (d : Deposit) (asset : ℕ) (row : DepositPayment) (invoice : ℕ) (actor : Actor)
    (s : Db) {c : DepositPayment} {s' : Db}
    → find (is_row_of k j) s.deposit_payments ≡ some row
    → credit_payment d asset row invoice actor s ≡ (ok c, s')
    → Kept k j s'
unfolding credit_payment store_credit
credit_payment-IsCredited k j d asset row invoice actor s {c} {s'} found h =
    let (entry, s₁, posted, rest) = continue-eq-ok (credited_entry d asset row invoice s) _ h in
    let kept : s₁.deposit_payments ≡ s.deposit_payments =
      ap (λ (r : Result ℕ × Db). r.1.deposit_payments) (sym posted)
      ∙ unfold rows_of in (credited_entry-rows d asset row invoice).at s in
    let left : s'.deposit_payments
        ≡ map (stored_payment (credited_row row entry actor s₁.now)) s₁.deposit_payments =
      ap (λ (r : Result DepositPayment × Db). r.1.deposit_payments) (sym rest) in
    record {
      row = stored_payment (credited_row row entry actor s₁.now) row;
      found =
          rw (left, kept)
            (find-stored k j (credited_row row entry actor s₁.now) s.deposit_payments found);
      done = stored_self k j row entry actor s₁.now;
    }

-- A payment that is to be credited.
abbrev pub is_needed : Bool → Parsed → Bool
is_needed creditable payment = creditable && is_settled_payment payment.status

pub credit_recorded-IsCredited :
    (k : ℕ) (r : Round) (x : Parsed) (p : Progress) (there : DepositPayment × Bool) (s : Db)
    {p' : Progress} {s' : Db}
    → is_needed r.creditable x ≡ true
    → find (is_row_of k x.id) s.deposit_payments ≡ some there.0
    → credit_recorded r x p there s ≡ (ok p', s')
    → Kept k x.id s'
unfolding credit_recorded credit_if
credit_recorded-IsCredited k r x p (row, is_new) s {p'} {s'} needed found h =
    elim (Bool-cases (is_uncredited row)) [
      | inl unpaid ↦
          let due : (r.creditable && (is_settled_payment x.status && is_uncredited row)) ≡ true =
            ground (arith, needed, unpaid) in
          let (c, s₁, credited, rest) =
            continue-eq-ok (credit_payment _ r.asset_id row r.invoice_id r.actor s) _
              (rw due at h) in
          let same : s₁ ≡ s' = cc in
          subst (Kept k x.id) same (
            credit_payment-IsCredited k x.id _ r.asset_id row r.invoice_id r.actor s found credited)
      | inr closed ↦
          let due : (r.creditable && (is_settled_payment x.status && is_uncredited row)) ≡ false =
            ground (arith, needed, closed) in
          let same : s ≡ s' = cc (rw due at h) in
          subst (Kept k x.id) same (record { row = row; found = found; done = closed })
    ]
