-- ===== src/Core/Amounts/Units.antt =====
-- `to_units` of src/crypto_processing_api/core/amounts.py.
use Prim.Native.Nat.{ℕ, ◌-◌, ◌*◌, ◌/◌, ◌%◌, ◌^◌}
use crypto_processing_api.Prelude.{
  ◌≡◌, refl, Bool, ◌&&◌, not, Option, none, some, if◌then◌else◌, ◌==◌, ltb,
}
use crypto_processing_api.Errors.{Result, ok, err, bind, amount_error, decimal_overflow}
use crypto_processing_api.Core.Text.{Text, codes, strip}
use crypto_processing_api.Core.Amounts.{digits}
use crypto_processing_api.Core.Decimal.{
  Decimal, read_decimal, scaleb, read_number, take_digits, split_sign, read_fraction, read_exponent,
  is_representable,
}

abbrev pub max_units : ℕ
max_units = 2100000000000000

-- A decimal that is not an integer has a digit below the point: `scaled` is not
-- `scaled.to_integral_value()`.
unfoldable pub is_integral : Decimal → Bool
is_integral x = x.coefficient % 10 ^ (x.down - x.up) == 0

-- int(scaled), for a decimal that is integral
unfoldable pub integer : Decimal → ℕ
integer x = x.coefficient * 10 ^ (x.up - x.down) / 10 ^ (x.down - x.up)

unfoldable pub whole_units : Decimal → Result ℕ
whole_units scaled =
    if not (is_integral scaled)
    then err amount_error
    else if ltb max_units (integer scaled)
    then err amount_error
    else ok (integer scaled)

-- From `amount.is_finite()` on; an amount below zero has a sign and a coefficient.
unfoldable pub decimal_to_units : Decimal → ℕ → Result ℕ
unfolding whole_units is_integral integer
decimal_to_units amount decimals =
    if amount.negative && not (amount.coefficient == 0)
    then err amount_error
    else bind (scaleb amount decimals) whole_units

units_of_read : Option Decimal → ℕ → Result ℕ
units_of_read none decimals = err amount_error
units_of_read (some amount) decimals = decimal_to_units amount decimals

-- `to_units(value, decimals)` of a text; of an empty text there is no decimal either.
unfoldable pub to_units : Text → ℕ → Result ℕ
unfolding units_of_read
to_units value decimals = units_of_read (read_decimal value) decimals

-- One digit more than the asset has.
too_precise : to_units (codes "0.000000001") 8 ≡ err amount_error
unfolding to_units decimal_to_units scaleb read_decimal read_number take_digits split_sign strip
    read_fraction read_exponent is_representable digits
too_precise = refl

-- More digits than the context has are rounded away before the test for an integral value.
rounded_away : to_units (codes "1.00000000000000000000000000001") 8 ≡ ok 100000000
unfolding to_units decimal_to_units scaleb read_decimal read_number take_digits split_sign strip
    read_fraction read_exponent is_representable digits
rounded_away = refl

-- An exponent beyond the context's raises no `AmountError`.
beyond_context : to_units (codes "1E+1000000") 8 ≡ err decimal_overflow
unfolding to_units decimal_to_units scaleb read_decimal read_number take_digits split_sign strip
    read_fraction read_exponent is_representable digits
beyond_context = refl

half_a_bitcoin : to_units (codes " 0.50000000") 8 ≡ ok 50000000
unfolding to_units decimal_to_units scaleb read_decimal read_number take_digits split_sign strip
    read_fraction read_exponent is_representable digits
half_a_bitcoin = refl
