-- ===== src/Core/Amounts/RoundTrip.antt =====
-- `to_units` reads what `from_units` writes.
use Prim.Native.Nat.{ℕ, zero, suc, ◌+◌, ◌-◌, ◌*◌, ◌/◌, ◌%◌, ◌^◌, ◌≤◌}
use native.Mathlib.Nat.{div-add-mod', mod-lt, mod-one, div-one, one-le-pow}
use mathlib.Core.Path.{ap₂}
use crypto_processing_api.Prelude.{
  ◌≡◌, refl, sym, ap, ◌∙◌, true, false, ◌&&◌, not, some, [], ◌∷◌, ◌++◌, ◌==◌, ltb, leb, length,
  arith, pos, All-append,
}
use crypto_processing_api.Errors.{ok}
use crypto_processing_api.Core.Text.{Text}
use crypto_processing_api.Core.Decimal.{
  Decimal, Run, take_digits, split_sign, read_exponent, read_fraction, read_number, read_decimal,
  is_representable, scaleb, is_digit,
}
use crypto_processing_api.Core.Amounts.{digits, fixed_digits, fraction, from_units, held_units}
use crypto_processing_api.Core.Amounts.Units.{
  is_integral, integer, whole_units, decimal_to_units, to_units, max_units,
}
use crypto_processing_api.Core.Amounts.Reading.{
  is_plain, IsPlain, IsWritten, digits-IsWritten, fixed_digits-IsPlain, take_digits-fixed_digits,
  strip-plain, select-plain, length-digits,
}
use crypto_processing_api.Core.Amounts.Exact.{IsHeld, finalize-IsHeld}

-- The decimal that is read: the number of units, with the digits behind the point counted.
abbrev pub written : ℕ → ℕ → Decimal
written n decimals = record { negative = false; coefficient = n; up = 0; down = decimals + 0 }

-- What `from_units` writes is not changed before it is read, and has no sign.
text : ℕ → ℕ → Text
text n decimals = digits (n / 10 ^ decimals) ++ fraction decimals (n % 10 ^ decimals)

fraction-IsPlain : (decimals n : ℕ) → IsPlain (fraction decimals n)
unfolding fraction is_digit
fraction-IsPlain zero n = tt
fraction-IsPlain (suc decimals) n = (refl, fixed_digits-IsPlain (suc decimals) n)

text-IsPlain : (n decimals : ℕ) → IsPlain (text n decimals)
unfolding text
text-IsPlain n decimals =
    let r = digits-IsWritten (n / 10 ^ decimals) in
    rw r.same (
      All-append (λ c. is_plain c ≡ true) (fixed_digits (suc r.width) (n / 10 ^ decimals)) _
        (fixed_digits-IsPlain (suc r.width) (n / 10 ^ decimals))
        (fraction-IsPlain decimals (n % 10 ^ decimals)))

-- A text that begins with a digit or the point has no sign.
split_sign-plain : (t : Text) → IsPlain t → split_sign t ≡ (false, t)
unfolding split_sign is_digit
split_sign-plain [] h = refl
split_sign-plain (c ∷ t) h = let first : is_plain c ≡ true = h.0 in ground arith

read_decimal-plain : (t : Text) → IsPlain t → read_decimal t ≡ read_number false t
unfolding read_decimal
read_decimal-plain t h = rw (strip-plain t h, select-plain t h, split_sign-plain t h) refl

append_nil : (xs : Text) → xs ++ [] ≡ xs
append_nil [] = refl
append_nil (x ∷ xs) = ap (λ t. x ∷ t) (append_nil xs)

-- A run of digits ends at the point, and at the end of the text.
ends_at_fraction :
    (v k decimals n : ℕ)
    → take_digits v k (fraction decimals n)
      ≡ record { value = v; count = k; rest = fraction decimals n }
unfolding fraction take_digits is_digit
ends_at_fraction v k zero n = refl
ends_at_fraction v k (suc d) n = refl

run : ℕ → ℕ → Text → Run
run v k t = record { value = v; count = k; rest = t }

-- The digits before the point, and those behind it.
whole_part :
    (n decimals : ℕ) (r : IsWritten (n / 10 ^ decimals) (digits (n / 10 ^ decimals)))
    → take_digits 0 0 (text n decimals)
      ≡ run (n / 10 ^ decimals) (suc r.width) (fraction decimals (n % 10 ^ decimals))
unfolding text run
whole_part n decimals r =
    ap (λ t. take_digits 0 0 (t ++ fraction decimals (n % 10 ^ decimals))) r.same
    ∙ take_digits-fixed_digits (suc r.width) (n / 10 ^ decimals) 0 0
        (fraction decimals (n % 10 ^ decimals)) r.small
    ∙ ends_at_fraction (0 * 10 ^ suc r.width + n / 10 ^ decimals) (0 + suc r.width) decimals
        (n % 10 ^ decimals)
    ∙ ap₂ (λ v k. run v k (fraction decimals (n % 10 ^ decimals))) (omega arith) (omega arith)

fraction_part :
    (n decimals : ℕ)
    → read_fraction (n / 10 ^ decimals) (fraction decimals (n % 10 ^ decimals)) ≡ run n decimals []
unfolding fraction read_fraction run take_digits
fraction_part n zero = ap (λ v. run v 0 []) (div-one n)
fraction_part n (suc d) =
    ap (take_digits (n / 10 ^ suc d) 0) (sym (append_nil (fixed_digits (suc d) (n % 10 ^ suc d))))
    ∙ take_digits-fixed_digits (suc d) (n % 10 ^ suc d) (n / 10 ^ suc d) 0 []
        (mod-lt n (one-le-pow (suc d) 10 (omega arith)))
    ∙ ap₂ (λ v k. run v k []) (div-add-mod' n (10 ^ suc d)) (omega arith)

some_digits : (w k : ℕ) → (suc w + k == 0) ≡ false
some_digits w k = ground arith

-- A number of units as big as they get is read exactly.
few_digits : (n : ℕ) → n ≤ max_units → length (digits n) ≤ 16
few_digits n h = length-digits 15 n (omega (arith, h))

within_limits :
    (k d : ℕ)
    → k ≤ 16
    → d ≤ 32767
    → (leb (0 + k) (1000000000000000000 + (d + 0)) && leb (d + 0) (0 + 1999999999999999997)) ≡ true
within_limits k d h b = ground arith

is_representable-written :
    (n decimals : ℕ)
    → n ≤ max_units
    → decimals ≤ 32767
    → is_representable (written n decimals) ≡ true
unfolding is_representable
is_representable-written n decimals h b =
    within_limits (length (digits n)) decimals (few_digits n h) b

read_number-text :
    (n decimals : ℕ)
    → n ≤ max_units
    → decimals ≤ 32767
    → read_number false (text n decimals) ≡ some (written n decimals)
unfolding read_number run read_exponent
read_number-text n decimals h b =
    let r = digits-IsWritten (n / 10 ^ decimals) in
    rw
      (
        whole_part n decimals r,
        fraction_part n decimals,
        some_digits r.width decimals,
        is_representable-written n decimals h b,
      )
      refl

-- Nothing is rounded, and nothing overflows.
no_overflow : (c k d : ℕ) → k ≤ 16 → (not (c == 0) && ltb (1000000 + (d + 0)) (k + (0 + d))) ≡ false
no_overflow c k d h = ground arith

written-IsHeld :
    (n decimals : ℕ) → n ≤ max_units → IsHeld (record (written n decimals) { up = 0 + decimals })
written-IsHeld n decimals h = record {
  few_digits = omega (arith, few_digits n h);
  not_tiny = omega arith;
}

scaleb-written :
    (n decimals : ℕ)
    → n ≤ max_units
    → scaleb (written n decimals) decimals ≡ ok (record (written n decimals) { up = 0 + decimals })
unfolding scaleb
scaleb-written n decimals h =
    finalize-IsHeld (record (written n decimals) { up = 0 + decimals })
      (written-IsHeld n decimals h)
    ∙ rw (no_overflow n (length (digits n)) decimals (few_digits n h)) refl

whole_units-written :
    (n decimals : ℕ)
    → n ≤ max_units
    → whole_units (record (written n decimals) { up = 0 + decimals }) ≡ ok n
unfolding whole_units is_integral integer
whole_units-written n decimals h =
    let level : decimals + 0 - (0 + decimals) ≡ 0 = omega arith in
    let level' : 0 + decimals - (decimals + 0) ≡ 0 = omega arith in
    let same : n * 1 / 1 ≡ n = omega arith in
    let integral : (n % 1 == 0) ≡ true = rw (mod-one n) refl in
    let within : ltb max_units n ≡ false = ground arith in
    rw (level, level', same, integral, within) refl

to_units-text :
    (n decimals : ℕ) → n ≤ max_units → decimals ≤ 32767 → to_units (text n decimals) decimals ≡ ok n
unfolding to_units decimal_to_units
to_units-text n decimals h b =
    rw
      (
        read_decimal-plain (text n decimals) (text-IsPlain n decimals),
        read_number-text n decimals h b,
        scaleb-written n decimals h,
      )
      (whole_units-written n decimals h)

few_none : (k : ℕ) → k ≤ 16 → (k - 28 == 0) ≡ true
few_none k h = ground arith

-- So small a number is not rounded.
held_units-few : (n : ℕ) → n ≤ max_units → held_units n ≡ n
unfolding held_units
held_units-few n h =
    let short : (length (digits n) - 28 == 0) ≡ true =
      few_none (length (digits n)) (few_digits n h) in
    rw short refl

-- What `from_units` writes for at most `MAX_UNITS` units of an asset, whose decimals are a
-- SMALLINT, `to_units` reads as those units.
pub to_units-from_units :
    (n decimals : ℕ) (t : Text)
    → n ≤ max_units
    → decimals ≤ 32767
    → from_units (pos n) decimals ≡ ok t
    → to_units t decimals ≡ ok n
unfolding from_units text
to_units-from_units n decimals t h b e =
    let same : text n decimals ≡ t = cc (rw (held_units-few n h) at e) in
    rw (← same) (to_units-text n decimals h b)
