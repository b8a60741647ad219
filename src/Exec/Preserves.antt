-- ===== src/Exec/Preserves.antt =====
-- Calls that leave one part of the session alone, whether they return or raise.
use crypto_processing_api.Prelude.{
  Bool, true, false, Option, none, some, ◌≡◌, refl, sym, ◌∙◌, subst, if◌then◌else◌,
}
use crypto_processing_api.Errors.{Error, Result, ok, err}
use crypto_processing_api.Exec.{
  Exec, pure, raise, lift, gets, or_raise, guard, continue, ◌>>=◌, ◌>>◌,
}
use crypto_processing_api.Exec.Keeps.{Keeps, Returns}

pub record Preserves {ℓ κ} {S A : Type ℓ} {V : Type κ} (view : S → V) (m : Exec S A)
    : Type (ℓ ⊔ κ) where
  pub at : (s : S) → view (m s).1 ≡ view s

module _ {ℓ κ} {S A : Type ℓ} {V : Type κ} {view : S → V} where
  pub Preserves-pure : (a : A) → Preserves view (pure a)
  Preserves-pure a = record { at = λ s. refl }

  pub Preserves-raise : (e : Error) → Preserves view (raise {A = A} e)
  Preserves-raise e = record { at = λ s. refl }

  pub Preserves-lift : (r : Result A) → Preserves view (lift r)
  Preserves-lift r = record { at = λ s. refl }

  pub Preserves-gets : (f : S → A) → Preserves view (gets f)
  Preserves-gets f = record { at = λ s. refl }

  pub Preserves-or_raise : (e : Error) (o : Option A) → Preserves view (or_raise e o)
  Preserves-or_raise e none = record { at = λ s. refl }
  Preserves-or_raise e (some a) = record { at = λ s. refl }

  pub Preserves-if :
      (b : Bool) (m k : Exec S A)
      → Preserves view m
      → Preserves view k
      → Preserves view (if b then m else k)
  Preserves-if true m k pm pk = pm
  Preserves-if false m k pm pk = pk

module _ {ℓ κ} {S : Type ℓ} {V : Type κ} {view : S → V} where
  pub Preserves-guard : (b : Bool) (e : Error) → Preserves view (guard {S = S} b e)
  Preserves-guard true e = record { at = λ s. refl }
  Preserves-guard false e = record { at = λ s. refl }

module _ {ℓ κ} {S A B : Type ℓ} {V : Type κ} {view : S → V} where
  Preserves-continue :
      (r : Result A × S) (f : A → Exec S B)
      → ((a : A) → Preserves view (f a))
      → view (continue r f).1 ≡ view r.1
  Preserves-continue (ok a, s) f pf = (pf a).at s
  Preserves-continue (err e, s) f pf = refl

  pub Preserves-bind :
      (m : Exec S A) (f : A → Exec S B)
      → Preserves view m
      → ((a : A) → Preserves view (f a))
      → Preserves view (m >>= f)
  Preserves-bind m f pm pf = record { at = λ s. Preserves-continue (m s) f pf ∙ pm.at s }

  pub Preserves-then :
      (m : Exec S A) (k : Exec S B) → Preserves view m → Preserves view k → Preserves view (m >> k)
  Preserves-then m k pm pk = record {
    at = λ s. Preserves-continue (m s) (λ _. k) (λ _. pk) ∙ pm.at s;
  }

module _ {ℓ κ ι} {S A B : Type ℓ} {V : Type κ} {view : S → V} (Q : A → Type ι) where
  Preserves-continue_returned :
      (r : Result A × S) (f : A → Exec S B)
      → ((a : A) (s₁ : S) → r ≡ (ok a, s₁) → Preserves view (f a))
      → view (continue r f).1 ≡ view r.1
  Preserves-continue_returned (ok a, s) f pf = (pf a s refl).at s
  Preserves-continue_returned (err e, s) f pf = refl

  -- What follows may rely on what the call returned.
  pub Preserves-bind_returned :
      (m : Exec S A) (f : A → Exec S B)
      → Preserves view m
      → Returns Q m
      → ((a : A) → Q a → Preserves view (f a))
      → Preserves view (m >>= f)
  Preserves-bind_returned m f pm qm pf = record {
    at = λ s. Preserves-continue_returned (m s) f (λ a s₁ h. pf a (qm.at s h)) ∙ pm.at s;
  }

pub ruleset preserves_rules = (
  Preserves-pure, Preserves-raise, Preserves-lift, Preserves-gets, Preserves-or_raise,
  Preserves-guard, Preserves-if, Preserves-bind, Preserves-then,
)

-- What follows a call leaves the part alone that the call came to.
module _ {ℓ κ} {S A B : Type ℓ} {V : Type κ} (view : S → V) where
  pub continue-view :
      (r : Result A × S) (f : A → Exec S B)
      → ((a : A) (s₁ : S) → r ≡ (ok a, s₁) → view (f a s₁).1 ≡ view s₁)
      → view (continue r f).1 ≡ view r.1
  continue-view (ok a, s) f h = h a s refl
  continue-view (err e, s) f h = refl

-- What speaks of that part alone is kept.
module _ {ℓ κ ι} {S A : Type ℓ} {V : Type κ} (view : S → V) (P : V → Type ι) (m : Exec S A) where
  pub Keeps-of_Preserves : Preserves view m → Keeps (λ s. P (view s)) m
  Keeps-of_Preserves pm = record { at = λ s h. subst P (sym (pm.at s)) h }
