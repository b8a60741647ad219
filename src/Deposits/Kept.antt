-- ===== src/Deposits/Kept.antt =====
-- A payment that has been credited stays so.
use mathlib.Core.Option
use crypto_processing_api.Prelude.{
  ◌≡◌, refl, ◌∙◌, ap, ℕ, Bool, true, false, some, List, [], ◌∷◌, ◌++◌, map, find, find-map,
  Bool-cases, inl, inr, arith,
}
use crypto_processing_api.Exec.{Exec, modify}
use crypto_processing_api.Exec.Keeps.{Keeps, Keeps-bind, keeps_rules}
use crypto_processing_api.Models.{Actor}
use crypto_processing_api.Ledger.Store.{Ledger}
use crypto_processing_api.Withdrawals.Rows.{Db, on_ledger}
use crypto_processing_api.Deposits.Rows.{Deposit, DepositPayment}
use crypto_processing_api.Deposits.Status.{Parsed}
use crypto_processing_api.Deposits.Payments.{
  is_row_of, is_uncredited, insert_payment, upsert_payment, stored_payment, credited_row,
  store_credit, credited_entry, credit_payment, credit_if, credit_recorded, Round, Progress,
  apply_payment, apply_payments,
}

-- The payment has a row that has been credited.
pub record IsCredited (k j : ℕ) (rows : List DepositPayment) : Type 0 where
  pub row : DepositPayment
  pub found : find (is_row_of k j) rows ≡ some row
  pub done : is_uncredited row ≡ false

-- A stored row keeps its key.
is_row_of-stored :
    (k j : ℕ) (row other : DepositPayment)
    → is_row_of k j (stored_payment row other) ≡ is_row_of k j other
unfolding stored_payment
is_row_of-stored k j row other = ground arith

pub find-stored :
    (k j : ℕ) (row : DepositPayment) (rows : List DepositPayment) {x : DepositPayment}
    → find (is_row_of k j) rows ≡ some x
    → find (is_row_of k j) (map (stored_payment row) rows) ≡ some (stored_payment row x)
find-stored k j row rows found =
    find-map (is_row_of k j) (stored_payment row) (is_row_of-stored k j row) rows
    ∙ ap (Option.map (stored_payment row)) found

pub stored-credited :
    (row x : DepositPayment)
    → is_uncredited row ≡ false
    → is_uncredited x ≡ false
    → is_uncredited (stored_payment row x) ≡ false
unfolding stored_payment
stored-credited row x h g = ground (arith, h, g)

find-more :
    (p : DepositPayment → Bool) (xs ys : List DepositPayment) {x : DepositPayment}
    → find p xs ≡ some x
    → find p (xs ++ ys) ≡ some x
find-more p [] ys h = absurd (cc)
find-more p (z ∷ xs) ys h = elim (Bool-cases (p z)) [
  | inl hit ↦ rw hit (rw hit at h)
  | inr miss ↦ rw miss (find-more p xs ys (rw miss at h))
]

abbrev pub Kept : ℕ → ℕ → Db → Type 0
Kept k j s = IsCredited k j s.deposit_payments

insert_payment-Kept :
    (k j : ℕ) (b : Bool) (row : DepositPayment) → Keeps (Kept k j) (modify (insert_payment b row))
unfolding insert_payment
insert_payment-Kept k j true row = record { at = λ s h. h }
insert_payment-Kept k j false row = record {
  at = λ s h. record {
    row = h.row;
    found = find-more (is_row_of k j) s.deposit_payments (row ∷ []) h.found;
    done = h.done;
  };
}

pub upsert_payment-Kept :
    (k j d p amount : ℕ) (late : Bool) → Keeps (Kept k j) (upsert_payment d p amount late)
unfolding upsert_payment
upsert_payment-Kept k j d p amount late = search (keeps_rules, insert_payment-Kept) depth 24

store_credit-Kept :
    (k j : ℕ) (row : DepositPayment) (e : ℕ) (actor : Actor)
    → Keeps (Kept k j) (store_credit row e actor)
unfolding store_credit credited_row
store_credit-Kept k j row e actor = record {
  at = λ s h. record {
    row = stored_payment (credited_row row e actor s.now) h.row;
    found = find-stored k j (credited_row row e actor s.now) s.deposit_payments h.found;
    done = stored-credited (credited_row row e actor s.now) h.row refl h.done;
  };
}

on_ledger-Kept : (k j : ℕ) {A : Type 0} (m : Exec Ledger A) → Keeps (Kept k j) (on_ledger m)
on_ledger-Kept k j m = record { at = λ s h. h }

credit_payment-Kept :
    (k j : ℕ) (d : Deposit) (asset : ℕ) (row : DepositPayment) (invoice : ℕ) (actor : Actor)
    → Keeps (Kept k j) (credit_payment d asset row invoice actor)
unfolding credit_payment credited_entry
credit_payment-Kept k j d asset row invoice actor =
    search (keeps_rules, on_ledger-Kept, store_credit-Kept) depth 24

credit_if-Kept :
    (k j : ℕ) (b : Bool) (asset : ℕ) (row : DepositPayment) (invoice : ℕ) (actor : Actor)
    (p : Progress)
    → Keeps (Kept k j) (credit_if b asset row invoice actor p)
unfolding credit_if
credit_if-Kept k j true asset row invoice actor p =
    search (keeps_rules, credit_payment-Kept) depth 8
credit_if-Kept k j false asset row invoice actor p = search keeps_rules

credit_recorded-Kept :
    (k j : ℕ) (r : Round) (payment : Parsed) (p : Progress) (there : DepositPayment × Bool)
    → Keeps (Kept k j) (credit_recorded r payment p there)
unfolding credit_recorded
credit_recorded-Kept k j r payment p (row, is_new) = record {
  at = λ s h. (credit_if-Kept k j _ r.asset_id row r.invoice_id r.actor _).at s h;
}

-- What has been credited stays so.
pub apply_payment-Kept :
    (k j : ℕ) (r : Round) (payment : Parsed) (p : Progress)
    → Keeps (Kept k j) (apply_payment r payment p)
unfolding apply_payment
apply_payment-Kept k j r payment p =
    Keeps-bind _ _ (upsert_payment-Kept k j p.deposit.id payment.id payment.amount r.late)
      (credit_recorded-Kept k j r payment p)

pub apply_payments-Kept :
    (k j : ℕ) (r : Round) (ps : List Parsed) (p : Progress)
    → Keeps (Kept k j) (apply_payments r ps p)
unfolding apply_payments
apply_payments-Kept k j r [] p = search keeps_rules
apply_payments-Kept k j r (x ∷ ps) p =
    Keeps-bind _ _ (apply_payment-Kept k j r x p) (apply_payments-Kept k j r ps)
