-- ===== src/Errors.antt =====
-- The exceptions of the services, as values. A raise that carries something a handler reads
-- carries it here too: `AlreadyPosted` the id of the entry (src/crypto_processing_api/ledger/service.py).
use crypto_processing_api.Prelude.{
  ℕ, Bool, true, false, Option, none, some, ◌≡◌, refl, ◌⊎◌, inl, inr,
}

-- The constraints by whose name `post_entry` tells integrity errors apart, and any other one.
pub data Constraint : Type 0 where
  ux_entry_source no_overdraft no_negative_asset other_constraint : Constraint

pub data Error : Type 0 where
  -- ledger/service.py
  unbalanced_entry zero_posting account_not_found asset_mismatch : Error
  already_posted : Option ℕ → Error
  insufficient_funds : Constraint → Error
  -- PostgreSQL: a BIGINT out of range, and a violated constraint
  out_of_range : Error
  integrity_error : Constraint → Error
  -- ledger/invariants.py
  invariant_violation : Error
  -- core/amounts.py, services/fees.py
  amount_error dust_amount : Error
  -- decimal.Overflow, which is no AmountError
  decimal_overflow : Error
  -- services/withdrawals.py
  withdrawal_error withdrawal_not_found amount_too_small insufficient_balance : Error
  illegal_transition release_not_permitted no_result_found : Error
  -- services/deposits.py
  deposit_error unknown_asset asset_unavailable deposit_not_found invoice_mismatch : Error
  deposit_illegal_transition payment_not_found : Error
  -- what the gateway to BTCPay raises: BTCPayNotFound, and any other BTCPayError
  gateway_not_found gateway_error : Error
  -- core/idempotency.py
  invalid_idempotency_key request_mismatch request_in_flight : Error

pub data Result {ℓ} (A : Type ℓ) : Type ℓ where
  ok : A → Result A
  err : Error → Result A

-- What follows a pure call that may have raised.
abbrev pub bind {ℓ κ} : {A : Type ℓ} {B : Type κ} → Result A → (A → Result B) → Result B
bind (ok a) f = f a
bind (err e) f = err e

module _ {ℓ} {A : Type ℓ} where
  abbrev pub from_option : Error → Option A → Result A
  from_option e none = err e
  from_option e (some a) = ok a

-- `if b: raise e`
abbrev pub raise_if : Bool → Error → Result (Unit {0})
raise_if true e = err e
raise_if false e = ok tt

-- A call that returned came through each of its parts.
module _ {ℓ κ} {A : Type ℓ} {B : Type κ} where
  pub bind-eq-ok :
      (r : Result A) (f : A → Result B) {b : B}
      → bind r f ≡ ok b
      → (a : A) × (r ≡ ok a) × (f a ≡ ok b)
  bind-eq-ok (ok a) f h = (a, refl, h)
  bind-eq-ok (err e) f h = absurd (cc)

module _ {ℓ} {A : Type ℓ} where
  pub Result-cases : (r : Result A) → ((a : A) × (r ≡ ok a)) ⊎ ((e : Error) × (r ≡ err e))
  Result-cases (ok a) = inl (a, refl)
  Result-cases (err e) = inr (e, refl)

  pub from_option-eq-ok : (e : Error) (o : Option A) {a : A} → from_option e o ≡ ok a → o ≡ some a
  from_option-eq-ok e none h = absurd (cc)
  from_option-eq-ok e (some a) h = cc
