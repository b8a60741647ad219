-- ===== src/Tests/AmountTests.antt =====
-- Amounts at concrete texts.
use crypto_processing_api.Prelude.{
  ◌≡◌, ◌≤◌, refl, pos, false, ◌&&◌, not, ◌==◌, ◌*◌, ◌^◌, ◌+◌, arith,
}
use crypto_processing_api.Errors.{ok}
use crypto_processing_api.Core.Text.{codes}
use crypto_processing_api.Core.Decimal.{Decimal, scaleb}
use crypto_processing_api.Core.Amounts.{from_units, digits}
use crypto_processing_api.Core.Amounts.Units.{to_units, decimal_to_units, max_units}
use crypto_processing_api.Core.Amounts.Exact.{decimal_to_units_exact}
use crypto_processing_api.Core.Amounts.RoundTrip.{to_units-from_units}

one_and_a_half : from_units (pos 150000000) 8 ≡ ok (codes "1.50000000")
unfolding from_units
one_and_a_half = refl

to_units-from_units_example : to_units (codes "1.50000000") 8 ≡ ok 150000000
to_units-from_units_example =
    to_units-from_units 150000000 8 (codes "1.50000000") (omega arith) (omega arith) one_and_a_half

-- 1.5
abbrev amount : Decimal
amount = record { negative = false; coefficient = 15; up = 0; down = 1 }

in_units : decimal_to_units amount 8 ≡ ok 150000000
unfolding decimal_to_units scaleb digits
in_units = refl

decimal_to_units_exact_example :
    (150000000 * 10 ^ 1 ≡ 15 * 10 ^ (0 + 8))
    × (150000000 ≤ max_units)
    × ((false && not (15 == 0)) ≡ false)
unfolding digits
decimal_to_units_exact_example =
    decimal_to_units_exact amount 8 150000000
      (record { few_digits = omega arith; not_tiny = omega arith }) in_units
