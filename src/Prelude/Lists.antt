-- ===== src/Prelude/Lists.antt =====
-- Predicates and sums over lists.
use mathlib.Core.Path.{◌≡◌, refl, ap₂}
use mathlib.Core.Bool.{Bool}
use mathlib.Core.Option.{Option, none, some}
use mathlib.Core.List.{List, [], ◌∷◌, ◌++◌, map}
use Prim.Native.Nat.{ℕ, suc}
use crypto_processing_api.Prelude.Tests.{if◌then◌else◌}
use crypto_processing_api.Prelude.Int.{ℤ, pos, ◌+ℤ◌, int_laws}

module _ {ℓ κ} {A : Type ℓ} where
  -- A predicate on every element.
  abbrev pub All : (A → Type κ) → List A → Type κ
  All P [] = Unit
  All P (x ∷ xs) = P x × All P xs

module _ {ℓ κ} {A : Type ℓ} (P : A → Type κ) where
  pub All-append : (xs ys : List A) → All P xs → All P ys → All P (xs ++ ys)
  All-append [] ys hx hy = hy
  All-append (x ∷ xs) ys hx hy = (hx.0, All-append xs ys hx.1 hy)

module _ {ℓ κ ι} {A : Type ℓ} (P : A → Type κ) (Q : A → Type ι) (f : (x : A) → P x → Q x) where
  pub All-imp : (xs : List A) → All P xs → All Q xs
  All-imp [] h = tt
  All-imp (x ∷ xs) h = (f x h.0, All-imp xs h.1)

module _ {ℓ} {A : Type ℓ} where
  abbrev pub length : List A → ℕ
  length [] = 0
  length (x ∷ xs) = suc (length xs)

  -- The first element that passes a test: `select ... limit 1` and `scalar_one_or_none`.
  abbrev pub find : (A → Bool) → List A → Option A
  find p [] = none
  find p (x ∷ xs) = if p x then some x else find p xs

  -- The elements that pass a test: `select ... where`.
  abbrev pub select : (A → Bool) → List A → List A
  select p [] = []
  select p (x ∷ xs) = if p x then x ∷ select p xs else select p xs

  -- `func.sum` of a column.
  unfoldable pub sum_of : (A → ℤ) → List A → ℤ
  sum_of f [] = pos 0
  sum_of f (x ∷ xs) = f x +ℤ sum_of f xs

  pub sum_of-nil : (f : A → ℤ) → sum_of f [] ≡ pos 0
  unfolding sum_of
  sum_of-nil f = refl

  pub sum_of-cons : (f : A → ℤ) (x : A) (xs : List A) → sum_of f (x ∷ xs) ≡ f x +ℤ sum_of f xs
  unfolding sum_of
  sum_of-cons f x xs = refl

  pub sum_of-append :
      (f : A → ℤ) (xs ys : List A) → sum_of f (xs ++ ys) ≡ sum_of f xs +ℤ sum_of f ys
  unfolding sum_of
  sum_of-append f [] ys = omega int_laws
  sum_of-append f (x ∷ xs) ys = rw (sum_of-append f xs ys) (omega int_laws)

module _ {ℓ κ ι} {A : Type ℓ} {B : Type κ} {C : Type ι} where
  pub map-map_of :
      (f : B → C) (g : A → B) (h : A → C) (e : (a : A) → f (g a) ≡ h a) (xs : List A)
      → map f (map g xs) ≡ map h xs
  map-map_of f g h e [] = refl
  map-map_of f g h e (x ∷ xs) = ap₂ ◌∷◌ (e x) (map-map_of f g h e xs)

module _ {ℓ κ} {A : Type ℓ} {B : Type κ} where
  pub map-cong : (f g : A → B) (e : (a : A) → f a ≡ g a) (xs : List A) → map f xs ≡ map g xs
  map-cong f g e [] = refl
  map-cong f g e (x ∷ xs) = ap₂ ◌∷◌ (e x) (map-cong f g e xs)

module _ {ℓ} {A : Type ℓ} where
  pub map-same : (f : A → A) (e : (a : A) → f a ≡ a) (xs : List A) → map f xs ≡ xs
  map-same f e [] = refl
  map-same f e (x ∷ xs) = ap₂ ◌∷◌ (e x) (map-same f e xs)

module _ {ℓ κ ι} {A : Type ℓ} {B : Type κ} (P : B → Type ι) (f : A → B) where
  pub All-map : (xs : List A) → All (λ x. P (f x)) xs → All P (map f xs)
  All-map [] h = tt
  All-map (x ∷ xs) h = (h.0, All-map xs h.1)

  pub All-of_map : (xs : List A) → All P (map f xs) → All (λ x. P (f x)) xs
  All-of_map [] h = tt
  All-of_map (x ∷ xs) h = (h.0, All-of_map xs h.1)

module _ {ℓ κ} {A : Type ℓ} (P : A → Type κ) (f : (x : A) → P x) where
  pub every : (xs : List A) → All P xs
  every [] = tt
  every (x ∷ xs) = (f x, every xs)
