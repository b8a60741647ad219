-- ===== src/Exec/Keeps.antt =====
-- How a call that returned went, step by step; and invariants of calls, with a rule for each way to
-- build one.
use crypto_processing_api.Prelude.{
  if◌then◌else◌, Bool, true, false, Option, none, some, ◌≡◌, refl, subst,
}
use crypto_processing_api.Errors.{Error, Result, ok, err}
use crypto_processing_api.Exec.{
  Exec, pure, raise, lift, gets, or_raise, guard, continue, ◌>>=◌, ◌>>◌,
}

module _ {ℓ} {S A B : Type ℓ} where
  -- Inversion of a bind that returned.
  pub continue-eq-ok :
      (r : Result A × S) (f : A → Exec S B) {b : B} {s' : S}
      → continue r f ≡ (ok b, s')
      → (a : A) × (s₁ : S) × (r ≡ (ok a, s₁)) × (f a s₁ ≡ (ok b, s'))
  continue-eq-ok (ok a, s) f h = (a, s, refl, h)
  continue-eq-ok (err e, s) f h = absurd (cc)

module _ {ℓ} {S : Type ℓ} where
  pub guard-eq-ok :
      (b : Bool) (e : Error) (s : S) {u : Unit {ℓ}} {s' : S}
      → guard b e s ≡ (ok u, s')
      → (b ≡ false) × (s ≡ s')
  guard-eq-ok true e s h = absurd (cc)
  guard-eq-ok false e s h = (refl, (cc))

module _ {ℓ} {S A : Type ℓ} where
  pub or_raise-eq-ok :
      (e : Error) (o : Option A) (s : S) {a : A} {s' : S}
      → or_raise e o s ≡ (ok a, s')
      → (o ≡ some a) × (s ≡ s')
  or_raise-eq-ok e none s h = absurd (cc)
  or_raise-eq-ok e (some a) s h = ((cc), (cc))

  pub lift-eq-ok :
      (r : Result A) (s : S) {a : A} {s' : S} → lift r s ≡ (ok a, s') → (r ≡ ok a) × (s ≡ s')
  lift-eq-ok r s h = ((cc), (cc))

-- `m` keeps `P`, whether it returns or raises.
pub record Keeps {ℓ κ} {S A : Type ℓ} (P : S → Type κ) (m : Exec S A) : Type (ℓ ⊔ κ) where
  pub at : (s : S) → P s → P (m s).1

module _ {ℓ κ} {S A : Type ℓ} {P : S → Type κ} where
  pub Keeps-pure : (a : A) → Keeps P (pure a)
  Keeps-pure a = record { at = λ s h. h }

  pub Keeps-raise : (e : Error) → Keeps P (raise {A = A} e)
  Keeps-raise e = record { at = λ s h. h }

  pub Keeps-lift : (r : Result A) → Keeps P (lift r)
  Keeps-lift r = record { at = λ s h. h }

  pub Keeps-gets : (f : S → A) → Keeps P (gets f)
  Keeps-gets f = record { at = λ s h. h }

  pub Keeps-or_raise : (e : Error) (o : Option A) → Keeps P (or_raise e o)
  Keeps-or_raise e none = record { at = λ s h. h }
  Keeps-or_raise e (some a) = record { at = λ s h. h }

module _ {ℓ κ} {S : Type ℓ} {P : S → Type κ} where
  pub Keeps-guard : (b : Bool) (e : Error) → Keeps P (guard {S = S} b e)
  Keeps-guard true e = record { at = λ s h. h }
  Keeps-guard false e = record { at = λ s h. h }

module _ {ℓ κ} {S A B : Type ℓ} {P : S → Type κ} where
  Keeps-continue :
      (r : Result A × S) (f : A → Exec S B) → ((a : A) → Keeps P (f a)) → P r.1 → P (continue r f).1
  Keeps-continue (ok a, s) f kf h = (kf a).at s h
  Keeps-continue (err e, s) f kf h = h

  pub Keeps-bind :
      (m : Exec S A) (f : A → Exec S B) → Keeps P m → ((a : A) → Keeps P (f a)) → Keeps P (m >>= f)
  Keeps-bind m f km kf = record { at = λ s h. Keeps-continue (m s) f kf (km.at s h) }

  pub Keeps-then : (m : Exec S A) (k : Exec S B) → Keeps P m → Keeps P k → Keeps P (m >> k)
  Keeps-then m k km kk = record { at = λ s h. Keeps-continue (m s) (λ _. k) (λ _. kk) (km.at s h) }

module _ {ℓ κ} {S A : Type ℓ} {P : S → Type κ} where
  pub Keeps-if : (b : Bool) (m k : Exec S A) → Keeps P m → Keeps P k → Keeps P (if b then m else k)
  Keeps-if true m k km kk = km
  Keeps-if false m k km kk = kk

pub ruleset keeps_rules = (
  Keeps-pure, Keeps-raise, Keeps-lift, Keeps-gets, Keeps-or_raise, Keeps-guard, Keeps-bind,
  Keeps-then,
)

-- Whatever `m` returns has the property `Q`.
pub record Returns {ℓ κ} {S A : Type ℓ} (Q : A → Type κ) (m : Exec S A) : Type (ℓ ⊔ κ) where
  pub at : (s : S) {a : A} {s' : S} → m s ≡ (ok a, s') → Q a

module _ {ℓ κ} {S A : Type ℓ} {Q : A → Type κ} where
  pub Returns-pure : (a : A) → Q a → Returns {S = S} Q (pure a)
  Returns-pure a q = record { at = λ s {a = b} h. let same : a ≡ b = cc in subst Q same q }

module _ {ℓ κ} {S A B : Type ℓ} {Q : B → Type κ} where
  pub Returns-bind :
      (m : Exec S A) (f : A → Exec S B) → ((a : A) → Returns Q (f a)) → Returns Q (m >>= f)
  Returns-bind m f kf = record {
    at = λ s h. let (a, s₁, _, rest) = continue-eq-ok (m s) f h in (kf a).at s₁ rest;
  }

  pub Returns-then : (m : Exec S A) (k : Exec S B) → Returns Q k → Returns Q (m >> k)
  Returns-then m k kk = record {
    at = λ s h. let (a, s₁, _, rest) = continue-eq-ok (m s) (λ _. k) h in kk.at s₁ rest;
  }

module _ {ℓ κ} {S A : Type ℓ} {Q : A → Type κ} where
  pub Returns-if :
      (b : Bool) (m k : Exec S A) → Returns Q m → Returns Q k → Returns Q (if b then m else k)
  Returns-if true m k qm qk = qm
  Returns-if false m k qm qk = qk

module _ {ℓ κ ι} {S A B : Type ℓ} {Q : B → Type κ} (R : A → Type ι) where
  -- What follows may rely on what the call returned.
  pub Returns-bind_returned :
      (m : Exec S A) (f : A → Exec S B)
      → Returns R m
      → ((a : A) → R a → Returns Q (f a))
      → Returns Q (m >>= f)
  Returns-bind_returned m f rm kf = record {
    at = λ s h.
        let (a, s₁, first, rest) = continue-eq-ok (m s) f h in (kf a (rm.at s first)).at s₁ rest;
  }

module _ {ℓ κ ι} {S A B : Type ℓ} {P : S → Type κ} (R : A → Type ι) where
  Keeps-continue_returned :
      (r : Result A × S) (f : A → Exec S B)
      → ((a : A) (s₁ : S) → r ≡ (ok a, s₁) → Keeps P (f a))
      → P r.1
      → P (continue r f).1
  Keeps-continue_returned (ok a, s) f kf h = (kf a s refl).at s h
  Keeps-continue_returned (err e, s) f kf h = h

  -- What follows may rely on what the call returned.
  pub Keeps-bind_returned :
      (m : Exec S A) (f : A → Exec S B)
      → Keeps P m
      → Returns R m
      → ((a : A) → R a → Keeps P (f a))
      → Keeps P (m >>= f)
  Keeps-bind_returned m f km rm kf = record {
    at = λ s h. Keeps-continue_returned (m s) f (λ a s₁ e. kf a (rm.at s e)) (km.at s h);
  }
