-- ===== src/Ledger/Consistency/Checks.antt =====
-- `assert_ledger_consistent` accepts exactly the books whose entries, balances and assets add up,
-- and so every ledger that is consistent.
use crypto_processing_api.Prelude.{
  ◌≡◌, ◌↔◌, refl, ap, pos, is_zero, is_zero→eq, eqb_ℤ→eq, eqb_ℤ-of_eq, Bool, true, false, not, List,
  [], ◌∷◌, map, All, All-imp, every, sum_of, select, Bool-cases, inl, inr, arith,
}
use crypto_processing_api.Errors.{ok}
use crypto_processing_api.Ledger.Store.{Ledger}
use crypto_processing_api.Ledger.Audit.{
  derived_balance, entry_total, unbalanced_entries, balance_drifts, balance_in, custody_report,
  custody_reports, CustodyReport, is_nonempty, assert_ledger_consistent,
}
use crypto_processing_api.Ledger.Consistency.{IsConsistent}

-- What the three checks look for.
pub record AddsUp (l : Ledger) : Type 0 where
  pub entries : All (λ e. entry_total l.postings e.id ≡ pos 0) l.entries
  pub balances : All (λ a. a.balance ≡ derived_balance l.postings a.id) l.accounts
  pub assets : All (λ a. sum_of (balance_in a.asset_id) l.accounts ≡ pos 0) l.accounts

module _ {A : Type 0} (test : A → Bool) where
  select_none :
      (xs : List A)
      → is_nonempty (select (λ x. not (test x)) xs) ≡ false
      → All (λ x. test x ≡ true) xs
  select_none [] h = tt
  select_none (x ∷ xs) h = elim (Bool-cases (test x)) [
    | inl pass ↦ (pass, select_none xs (rw pass at h))
    | inr fail ↦ absurd (cc (rw fail at h))
  ]

  none_select :
      (xs : List A)
      → All (λ x. test x ≡ true) xs
      → is_nonempty (select (λ x. not (test x)) xs) ≡ false
  none_select [] h = refl
  none_select (x ∷ xs) h = rw h.0 (none_select xs h.1)

module _ {A : Type 0} (l : Ledger) (make : A → CustodyReport) where
  select-map-none :
      (xs : List A)
      → is_nonempty (select (λ r. not (is_zero r.residual)) (map make xs)) ≡ false
      → All (λ x. (make x).residual ≡ pos 0) xs
  select-map-none [] h = tt
  select-map-none (x ∷ xs) h = elim (Bool-cases (is_zero (make x).residual)) [
    | inl pass ↦ (is_zero→eq _ pass, select-map-none xs (rw pass at h))
    | inr fail ↦ absurd (cc (rw fail at h))
  ]

  none-select-map :
      (xs : List A)
      → All (λ x. (make x).residual ≡ pos 0) xs
      → is_nonempty (select (λ r. not (is_zero r.residual)) (map make xs)) ≡ false
  none-select-map [] h = refl
  none-select-map (x ∷ xs) h = rw h.0 (none-select-map xs h.1)

residuals_found : Ledger → Bool
residuals_found l = is_nonempty (select (λ r. not (is_zero r.residual)) (custody_reports l))

-- The guards that the three checks pass.
passes_guards :
    (l : Ledger)
    → assert_ledger_consistent l ≡ (ok tt, l)
    → (is_nonempty (unbalanced_entries l) ≡ false)
      × (is_nonempty (balance_drifts l) ≡ false)
      × (residuals_found l ≡ false)
unfolding assert_ledger_consistent residuals_found
passes_guards l h = ground arith

guards_pass :
    (l : Ledger)
    → is_nonempty (unbalanced_entries l) ≡ false
    → is_nonempty (balance_drifts l) ≡ false
    → residuals_found l ≡ false
    → assert_ledger_consistent l ≡ (ok tt, l)
unfolding assert_ledger_consistent residuals_found
guards_pass l h k r = rw (h, k, r) refl

-- The checks pass exactly when the books add up; they change nothing.
pub assert_ledger_consistent_iff :
    (l : Ledger) → (assert_ledger_consistent l ≡ (ok tt, l)) ↔ AddsUp l
unfolding unbalanced_entries balance_drifts residuals_found custody_reports custody_report
assert_ledger_consistent_iff l = (
  λ h.
      let (imbalances, drifts, residuals) = passes_guards l h in
      record {
        entries =
            All-imp _ _ (λ e t. is_zero→eq _ t) l.entries (select_none _ l.entries imbalances);
        balances = All-imp _ _ (λ a t. eqb_ℤ→eq _ _ t) l.accounts (select_none _ l.accounts drifts);
        assets = select-map-none l (λ a. custody_report l.accounts a.asset_id) l.accounts residuals;
      },
  λ u.
      guards_pass l
        (none_select _ l.entries (All-imp _ _ (λ e t. ap is_zero t) l.entries u.entries))
        (none_select _ l.accounts (All-imp _ _ (λ a t. eqb_ℤ-of_eq t) l.accounts u.balances))
        (none-select-map l (λ a. custody_report l.accounts a.asset_id) l.accounts u.assets),
)

-- A consistent ledger passes the checks.
pub assert_ledger_consistent_passes :
    (l : Ledger) → IsConsistent l → assert_ledger_consistent l ≡ (ok tt, l)
assert_ledger_consistent_passes l h = (assert_ledger_consistent_iff l).1 record {
  entries = every (λ e. entry_total l.postings e.id ≡ pos 0) (λ e. h.balanced e.id) l.entries;
  balances = h.derived;
  assets =
      every (λ a. sum_of (balance_in a.asset_id) l.accounts ≡ pos 0) (λ a. h.residual a.asset_id)
        l.accounts;
}
