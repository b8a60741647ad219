-- ===== src/Exec/Atomic.antt =====
-- Calls that only read, and calls that leave the session alone when they raise.
use crypto_processing_api.Prelude.{
  Bool, true, false, Option, none, some, ◌≡◌, refl, sym, ◌∙◌, subst,
}
use crypto_processing_api.Errors.{Error, Result, ok, err}
use crypto_processing_api.Exec.{Exec, pure, lift, gets, or_raise, guard, continue, ◌>>=◌, ◌>>◌}
use crypto_processing_api.Exec.Keeps.{Keeps}

pub record ReadOnly {ℓ} {S A : Type ℓ} (m : Exec S A) : Type ℓ where
  pub at : (s : S) → (m s).1 ≡ s

pub record Atomic {ℓ} {S A : Type ℓ} (m : Exec S A) : Type ℓ where
  pub at : (s : S) {e : Error} {s' : S} → m s ≡ (err e, s') → s' ≡ s

module _ {ℓ} {S A : Type ℓ} where
  pub ReadOnly-pure : (a : A) → ReadOnly {S = S} (pure a)
  ReadOnly-pure a = record { at = λ s. refl }

  pub ReadOnly-lift : (r : Result A) → ReadOnly {S = S} (lift r)
  ReadOnly-lift r = record { at = λ s. refl }

  pub ReadOnly-gets : (f : S → A) → ReadOnly (gets f)
  ReadOnly-gets f = record { at = λ s. refl }

  pub ReadOnly-or_raise : (e : Error) (o : Option A) → ReadOnly {S = S} (or_raise e o)
  ReadOnly-or_raise e none = record { at = λ s. refl }
  ReadOnly-or_raise e (some a) = record { at = λ s. refl }

  pub Atomic-of_ReadOnly : (m : Exec S A) → ReadOnly m → Atomic m
  Atomic-of_ReadOnly m h = record { at = λ s p. cc (h.at s) }

module _ {ℓ} {S : Type ℓ} where
  pub ReadOnly-guard : (b : Bool) (e : Error) → ReadOnly (guard {S = S} b e)
  ReadOnly-guard true e = record { at = λ s. refl }
  ReadOnly-guard false e = record { at = λ s. refl }

module _ {ℓ} {S A B : Type ℓ} where
  Atomic-continue :
      (s : S) (r : Result A × S) (f : A → Exec S B) {e : Error} {s' : S}
      → ((a : A) → Atomic (f a))
      → r.1 ≡ s
      → continue r f ≡ (err e, s')
      → s' ≡ s
  Atomic-continue s (ok a, s₁) f af same h = (af a).at s₁ h ∙ same
  Atomic-continue s (err e₁, s₁) f af same h = sym (cc) ∙ same

  pub Atomic-bind :
      (m : Exec S A) (f : A → Exec S B) → ReadOnly m → ((a : A) → Atomic (f a)) → Atomic (m >>= f)
  Atomic-bind m f rm af = record { at = λ s h. Atomic-continue s (m s) f af (rm.at s) h }

  pub Atomic-then : (m : Exec S A) (k : Exec S B) → ReadOnly m → Atomic k → Atomic (m >> k)
  Atomic-then m k rm ak = record {
    at = λ s h. Atomic-continue s (m s) (λ _. k) (λ _. ak) (rm.at s) h;
  }

pub ruleset atomic_rules = (
  ReadOnly-pure, ReadOnly-lift, ReadOnly-gets, ReadOnly-or_raise, ReadOnly-guard, Atomic-bind,
  Atomic-then, Atomic-of_ReadOnly,
)

module _ {ℓ κ} {S A : Type ℓ} (P : S → Type κ) (m : Exec S A) where
  Keeps-of_outcome :
      (s : S) (r : Result A × S)
      → P s
      → ((e : Error) (s' : S) → r ≡ (err e, s') → s' ≡ s)
      → ((a : A) (s' : S) → r ≡ (ok a, s') → P s')
      → P r.1
  Keeps-of_outcome s (ok a, s') h un f = f a s' refl
  Keeps-of_outcome s (err e, s') h un f = subst P (sym (un e s' refl)) h

  -- A call that changes nothing when it raises keeps what it keeps when it returns.
  pub Keeps-of_Atomic :
      Atomic m → ((s : S) (a : A) (s' : S) → P s → m s ≡ (ok a, s') → P s') → Keeps P m
  Keeps-of_Atomic am f = record {
    at = λ s h. Keeps-of_outcome s (m s) h (λ e s' p. am.at s p) (λ a s' p. f s a s' h p);
  }
