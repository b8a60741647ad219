-- ===== src/Core/Amounts.antt =====
-- `from_units` and `msat_to_sat_round_up` of src/crypto_processing_api/core/amounts.py.
pub mod Rounding
pub mod Units
pub mod Exact
pub mod Reading
pub mod RoundTrip
use Prim.Native.Nat.{ℕ, zero, suc, ◌+◌, ◌-◌, ◌*◌, ◌/◌, ◌%◌, ◌^◌, ◌≤◌, ◌<◌}
use crypto_processing_api.Prelude.{
  ◌≡◌, refl, ℤ, pos, negsuc, List, [], ◌∷◌, ◌++◌, if◌then◌else◌, ◌==◌, ltb, arith, length, true,
  false, ◌||◌, ◌&&◌,
}
use crypto_processing_api.Core.Text.{Text}
use crypto_processing_api.Errors.{Result, ok, err, amount_error}

-- The decimal digits of a number, most significant first. `n + 1` rounds are more than enough,
-- since each one divides by ten.
unfoldable pub digits_on : ℕ → ℕ → Text
digits_on zero n = []
digits_on (suc fuel) n =
    let rest = digits_on fuel (n / 10) in
    if ltb n 10 then (48 + n) ∷ [] else rest ++ (48 + n % 10) ∷ []

unfoldable pub digits : ℕ → Text
unfolding digits_on
digits n = digits_on (n + 1) n

-- Exactly so many digits, with leading zeros.
unfoldable pub fixed_digits : ℕ → ℕ → Text
fixed_digits zero n = []
fixed_digits (suc width) n = fixed_digits width (n / 10) ++ (48 + n % 10) ∷ []

-- The digits behind the point; a format with no decimals has no point.
unfoldable pub fraction : ℕ → ℕ → Text
fraction zero n = []
fraction (suc decimals) n = b'.' ∷ fixed_digits (suc decimals) n

-- n / 10^k, half to even.
unfoldable pub rounded : ℕ → ℕ → ℕ
rounded n k =
    let q = n / 10 ^ k in
    let twice = n % 10 ^ k * 2 in
    if ltb (10 ^ k) twice || (twice == 10 ^ k && q % 2 == 1) then q + 1 else q

-- `Decimal(units).scaleb(-decimals)` has at most 28 digits; these are the units that it stands for.
unfoldable pub held_units : ℕ → ℕ
unfolding rounded digits
held_units n = let k = length (digits n) - 28 in if k == 0 then n else rounded n k * 10 ^ k

-- f"{Decimal(units).scaleb(-decimals):.{decimals}f}"
unfoldable pub from_units : ℤ → ℕ → Result Text
unfolding digits fixed_digits fraction held_units
from_units (pos n) decimals =
    let m = held_units n in ok (digits (m / 10 ^ decimals) ++ fraction decimals (m % 10 ^ decimals))
from_units (negsuc n) decimals = err amount_error

abbrev pub msat_per_sat : ℕ
msat_per_sat = 1000

-- -(-millisatoshi // MSAT_PER_SAT), with Python's floor division: for a numerator -n that is not
-- positive, -n // d is -((n + d - 1) / d).
unfoldable pub msat_to_sat_round_up : ℤ → Result ℕ
msat_to_sat_round_up (pos n) = ok ((n + (msat_per_sat - 1)) / msat_per_sat)
msat_to_sat_round_up (negsuc n) = err amount_error

one_and_a_half :
    from_units (pos 150000000) 8
    ≡ ok (b'1' ∷ b'.' ∷ b'5' ∷ b'0' ∷ b'0' ∷ b'0' ∷ b'0' ∷ b'0' ∷ b'0' ∷ b'0' ∷ [])
unfolding from_units
one_and_a_half = refl
