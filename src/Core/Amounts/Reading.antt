-- ===== src/Core/Amounts/Reading.antt =====
-- What the reading of a decimal does on the digits that `from_units` writes.
use Prim.Native.Nat.{ℕ, zero, suc, ◌+◌, ◌*◌, ◌/◌, ◌%◌, ◌^◌, ◌≤◌, ◌<◌}
use native.Mathlib.Nat.{pow-suc}
use mathlib.Core.Path.{ap₂}
use crypto_processing_api.Prelude.{
  ◌≡◌, refl, ap, Bool-cases, inl, inr, ltb→lt, lt→ltb, ◌∙◌, Bool, true, false, ◌||◌, not, [], ◌∷◌,
  ◌++◌, ◌==◌, ltb, select, length, All, All-append, arith,
}
use crypto_processing_api.Core.Text.{Text, is_space, lstrip, kept, rstrip, strip}
use crypto_processing_api.Core.Decimal.{is_digit, take_digits}
use crypto_processing_api.Core.Amounts.{digits_on, digits, fixed_digits}

-- A digit or the point.
abbrev pub is_plain : ℕ → Bool
is_plain c = is_digit c || c == 46

abbrev pub IsPlain : Text → Type 0
IsPlain = All (λ c. is_plain c ≡ true)

is_space-plain : (c : ℕ) → is_plain c ≡ true → is_space c ≡ false
unfolding is_space is_digit
is_space-plain c h = ground arith

underscore-plain : (c : ℕ) → is_plain c ≡ true → (not (c == 95)) ≡ true
unfolding is_digit
underscore-plain c h = ground arith

lstrip-plain : (t : Text) → IsPlain t → lstrip t ≡ t
unfolding lstrip
lstrip-plain [] h = refl
lstrip-plain (c ∷ t) h = rw (is_space-plain c h.0) refl

kept-plain : (c : ℕ) (t : Text) → is_plain c ≡ true → kept c t ≡ c ∷ t
unfolding kept
kept-plain c [] h = rw (is_space-plain c h) refl
kept-plain c (d ∷ t) h = refl

rstrip-plain : (t : Text) → IsPlain t → rstrip t ≡ t
unfolding rstrip
rstrip-plain [] h = refl
rstrip-plain (c ∷ t) h = rw (rstrip-plain t h.1) (kept-plain c t h.0)

-- Neither the white space nor the underscores that a reading takes out are in it.
pub strip-plain : (t : Text) → IsPlain t → strip t ≡ t
unfolding strip
strip-plain t h = rw (lstrip-plain t h) (rstrip-plain t h)

pub select-plain : (t : Text) → IsPlain t → select (λ c. not (c == 95)) t ≡ t
select-plain [] h = refl
select-plain (c ∷ t) h = rw (underscore-plain c h.0, select-plain t h.1) refl

pub is_digit_of : (n : ℕ) → is_digit (48 + n % 10) ≡ true
unfolding is_digit
is_digit_of n = ground arith

pub fixed_digits-IsPlain : (w n : ℕ) → IsPlain (fixed_digits w n)
unfolding fixed_digits
fixed_digits-IsPlain zero n = tt
fixed_digits-IsPlain (suc w) n =
    All-append (λ c. is_plain c ≡ true) (fixed_digits w (n / 10)) _
      (fixed_digits-IsPlain w (n / 10)) (rw (is_digit_of n) refl, tt)

append_assoc : (xs ys zs : Text) → (xs ++ ys) ++ zs ≡ xs ++ (ys ++ zs)
append_assoc [] ys zs = refl
append_assoc (x ∷ xs) ys zs = ap (λ t. x ∷ t) (append_assoc xs ys zs)

take_one :
    (acc k n : ℕ) (t : Text)
    → take_digits acc k ((48 + n % 10) ∷ t) ≡ take_digits (acc * 10 + n % 10) (k + 1) t
unfolding take_digits
take_one acc k n t =
    rw (is_digit_of n) (ap (λ d. take_digits (acc * 10 + d) (k + 1) t) (omega arith))

small_tenth : (w n : ℕ) → n < 10 ^ suc w → n / 10 < 10 ^ w
small_tenth w n h = let step = pow-suc 10 w in omega (arith, rw step at h)

places : (acc w n : ℕ) → (acc * 10 ^ w + n / 10) * 10 + n % 10 ≡ acc * 10 ^ suc w + n
places acc w n = rw (pow-suc 10 w) (grind arith)

-- `w` digits continue a number by `w` places.
pub take_digits-fixed_digits :
    (w n acc k : ℕ) (t : Text)
    → n < 10 ^ w
    → take_digits acc k (fixed_digits w n ++ t) ≡ take_digits (acc * 10 ^ w + n) (k + w) t
unfolding fixed_digits
take_digits-fixed_digits zero n acc k t h =
    ap₂ (λ v j. take_digits v j t) (omega arith) (omega arith)
take_digits-fixed_digits (suc w) n acc k t h =
    ap (take_digits acc k) (append_assoc (fixed_digits w (n / 10)) _ t)
    ∙ take_digits-fixed_digits w (n / 10) acc k ((48 + n % 10) ∷ t) (small_tenth w n h)
    ∙ take_one (acc * 10 ^ w + n / 10) (k + w) n t
    ∙ ap₂ (λ v j. take_digits v j t) (places acc w n) (omega arith)

-- The digits of a number are its digits at some width.
pub record IsWritten (n : ℕ) (t : Text) : Type 0 where
  pub width : ℕ
  pub same : t ≡ fixed_digits (suc width) n
  pub small : n < 10 ^ suc width

small_tens : (w n : ℕ) → n / 10 < 10 ^ w → n < 10 ^ suc w
small_tens w n h = rw (pow-suc 10 w) (omega arith)

one_place : (n : ℕ) → n < 10 → ((48 + n) ∷ []) ≡ fixed_digits 1 n
unfolding fixed_digits
one_place n h = ap (λ d. d ∷ []) (omega arith)

one_more : (n : ℕ) (t : Text) → IsWritten (n / 10) t → IsWritten n (t ++ (48 + n % 10) ∷ [])
unfolding fixed_digits
one_more n t r = record {
  width = suc r.width;
  same = ap (λ xs. xs ++ (48 + n % 10) ∷ []) r.same;
  small = small_tens (suc r.width) n r.small;
}

digits_on-IsWritten : (fuel n : ℕ) → n < fuel → IsWritten n (digits_on fuel n)
unfolding digits_on
digits_on-IsWritten zero n h = absurd (omega arith)
digits_on-IsWritten (suc fuel) n h = elim (Bool-cases (ltb n 10)) [
  | inl one_digit ↦ rw one_digit (record {
    width = 0;
    same = one_place n (ltb→lt n 10 one_digit);
    small = ltb→lt n 10 one_digit;
  })
  | inr more ↦
      let ge : 10 ≤ n = ground arith in
      rw more (
        one_more n (digits_on fuel (n / 10))
          (digits_on-IsWritten fuel (n / 10) (omega (arith, ge))))
]

pub digits-IsWritten : (n : ℕ) → IsWritten n (digits n)
unfolding digits
digits-IsWritten n = digits_on-IsWritten (n + 1) n (omega arith)

-- A number below 10^w has at most w digits.
length-append : (xs : Text) (c : ℕ) → length (xs ++ c ∷ []) ≡ suc (length xs)
length-append [] c = refl
length-append (x ∷ xs) c = ap suc (length-append xs c)

length-digits_on : (fuel w n : ℕ) → n < 10 ^ suc w → length (digits_on fuel n) ≤ suc w
unfolding digits_on
length-digits_on zero w n h = omega arith
length-digits_on (suc fuel) zero n h = rw (lt→ltb n 10 h) (omega arith)
length-digits_on (suc fuel) (suc w) n h =
    let rest = length-digits_on fuel w (n / 10) (small_tenth (suc w) n h) in
    elim (Bool-cases (ltb n 10)) [
      | inl one_digit ↦ rw one_digit (omega arith)
      | inr more ↦
          rw (more, length-append (digits_on fuel (n / 10)) (48 + n % 10)) (omega (arith, rest))
    ]

pub length-digits : (w n : ℕ) → n < 10 ^ suc w → length (digits n) ≤ suc w
unfolding digits
length-digits w n h = length-digits_on (n + 1) w n h
