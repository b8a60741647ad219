-- ===== src/Prelude/Keyed.antt =====
-- Rows of a table by their key, and what writing a row back does to them.
use mathlib.Core.Path.{◌≡◌, refl, sym, ap, ◌∙◌}
use mathlib.Core.Logic.{inl, inr}
use mathlib.Core.Bool.{true, false}
use mathlib.Core.List.{List, [], ◌∷◌, map}
use Prim.Native.Nat.{ℕ}
use native.Mathlib.Omega.{arith}
use crypto_processing_api.Prelude.Tests.{if◌then◌else◌, Bool-cases, ◌==◌}
use crypto_processing_api.Prelude.Lists.{select}

pub ==-refl : (a b : ℕ) → a ≡ b → (a == b) ≡ true
==-refl a b h = ground arith

==-same : (a b k : ℕ) → (a == b) ≡ true → (b == k) ≡ false → (a == k) ≡ false
==-same a b k h g = ground arith

module _ {A : Type 0} (key : A → ℕ) where
  -- The rows with a key.
  abbrev pub keyed : ℕ → List A → List A
  keyed k xs = select (λ x. key x == k) xs

  -- A row, after `e` has been put_back.
  abbrev pub put_back : A → A → A
  put_back e row = if key row == key e then e else row

  put_back-same : (e f : A) → (key f == key e) ≡ true → put_back e f ≡ e
  put_back-same e f h = rw h refl

  put_back-other : (e f : A) → (key f == key e) ≡ false → put_back e f ≡ f
  put_back-other e f h = rw h refl

  pub keyed-skip :
      (k : ℕ) (e : A) (xs : List A) → (key e == k) ≡ false → keyed k (e ∷ xs) ≡ keyed k xs
  keyed-skip k e xs h = rw h refl

  keyed-cons :
      (k : ℕ) (e : A) (xs ys : List A)
      → keyed k xs ≡ keyed k ys
      → keyed k (e ∷ xs) ≡ keyed k (e ∷ ys)
  keyed-cons k e xs ys h = ap (λ r. if key e == k then e ∷ r else r) h

  -- A row that is put_back back leaves the rows of another id alone.
  pub keyed-put_back :
      (k : ℕ) (e : A) (xs : List A)
      → (key e == k) ≡ false
      → keyed k (map (put_back e) xs) ≡ keyed k xs
  keyed-put_back k e [] h = refl
  keyed-put_back k e (f ∷ xs) h = elim (Bool-cases (key f == key e)) [
    | inl same ↦
        ap (λ x. keyed k (x ∷ map (put_back e) xs)) (put_back-same e f same)
        ∙ keyed-skip k e (map (put_back e) xs) h
        ∙ keyed-put_back k e xs h
        ∙ sym (keyed-skip k f xs (==-same (key f) (key e) k same h))
    | inr other ↦
        ap (λ x. keyed k (x ∷ map (put_back e) xs)) (put_back-other e f other)
        ∙ keyed-cons k f (map (put_back e) xs) xs (keyed-put_back k e xs h)
  ]

  keyed-hit :
      (k : ℕ) (e : A) (xs : List A) → (key e == k) ≡ true → keyed k (e ∷ xs) ≡ e ∷ keyed k xs
  keyed-hit k e xs h = rw h refl

  -- The one row of an id, when it comes first.
  pub keyed-alone :
      (k : ℕ) (f e : A) (xs : List A)
      → (key f == k) ≡ true
      → keyed k (f ∷ xs) ≡ e ∷ []
      → (f ≡ e) × (keyed k xs ≡ [])
  keyed-alone k f e xs hit h = let c = sym (keyed-hit k f xs hit) ∙ h in (cc, cc)

  keyed-put_back-none :
      (k : ℕ) (e : A) (xs : List A)
      → key e ≡ k
      → keyed k xs ≡ []
      → keyed k (map (put_back e) xs) ≡ []
  keyed-put_back-none k e [] same h = refl
  keyed-put_back-none k e (f ∷ xs) same h = elim (Bool-cases (key f == k)) [
    | inl hit ↦ absurd (cc (rw hit at h))
    | inr miss ↦
        ap (λ x. keyed k (x ∷ map (put_back e) xs))
          (put_back-other e f (ap (λ i. key f == i) same ∙ miss))
        ∙ keyed-skip k f (map (put_back e) xs) miss
        ∙ keyed-put_back-none k e xs same (rw miss at h)
  ]

  -- A row that is put_back back replaces the one of its id.
  pub keyed-replaced :
      (e e' : A) (xs : List A)
      → key e' ≡ key e
      → keyed (key e) xs ≡ e ∷ []
      → keyed (key e) (map (put_back e') xs) ≡ e' ∷ []
  keyed-replaced e e' [] same h = absurd (cc)
  keyed-replaced e e' (f ∷ xs) same h = elim (Bool-cases (key f == key e)) [
    | inl hit ↦
        let (_, rest) = keyed-alone (key e) f e xs hit h in
        ap (λ x. keyed (key e) (x ∷ map (put_back e') xs))
          (put_back-same e' f (ap (λ i. key f == i) same ∙ hit))
        ∙ keyed-hit (key e) e' (map (put_back e') xs) (==-refl (key e') (key e) same)
        ∙ ap (λ r. e' ∷ r) (keyed-put_back-none (key e) e' xs same rest)
    | inr miss ↦
        ap (λ x. keyed (key e) (x ∷ map (put_back e') xs))
          (put_back-other e' f (ap (λ i. key f == i) same ∙ miss))
        ∙ keyed-skip (key e) f (map (put_back e') xs) miss
        ∙ keyed-replaced e e' xs same (rw miss at h)
  ]
