-- ===== src/Prelude/Finds.antt =====
-- What `find` finds after a list has changed.
use mathlib.Core.Path.{◌≡◌, refl}
use mathlib.Core.Logic.{inl, inr}
use mathlib.Core.Bool.{Bool, true}
use mathlib.Core.Option
use mathlib.Core.Option.{Option, none, some}
use mathlib.Core.List.{List, [], ◌∷◌, ◌++◌, map}
use native.Mathlib.Omega.{arith}
use crypto_processing_api.Prelude.Tests.{if◌then◌else◌, Bool-cases}
use crypto_processing_api.Prelude.Lists.{find}

pub find-append {ℓ} :
    {A : Type ℓ} (p : A → Bool) (xs : List A) (x : A)
    → find p xs ≡ none
    → find p (xs ++ x ∷ []) ≡ (if p x then some x else none)
find-append p [] x h = refl
find-append p (y ∷ xs) x h = elim (Bool-cases (p y)) [
  | inl t ↦ absurd (cc (rw t at h))
  | inr f ↦ rw f (find-append p xs x (rw f at h))
]

pub find-map :
    {A : Type 0} (p : A → Bool) (f : A → A) (same : (a : A) → p (f a) ≡ p a) (xs : List A)
    → find p (map f xs) ≡ Option.map f (find p xs)
find-map p f same [] = refl
find-map p f same (x ∷ xs) = elim (Bool-cases (p x)) [
  | inl t ↦ rw (same x, t) refl
  | inr g ↦ rw (same x, g) (find-map p f same xs)
]

pub find-true : {A : Type 0} (p : A → Bool) (xs : List A) {a : A} → find p xs ≡ some a → p a ≡ true
find-true p [] h = absurd (cc)
find-true p (x ∷ xs) h = elim (Bool-cases (p x)) [
  | inl hit ↦ ground arith
  | inr miss ↦ find-true p xs (rw miss at h)
]
