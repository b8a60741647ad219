-- ===== src/Core/Decimal.antt =====
-- `decimal.Decimal` as the amounts use it: the reading of a text, and `scaleb` in the default
-- context (28 digits, half to even, exponents from -999999 to 999999).
--
-- A decimal is (-1)^negative * coefficient * 10^(up - down). The digits of a text are the ASCII
-- ones.
use Prim.Native.Nat.{ℕ, zero, suc, ◌+◌, ◌-◌, ◌*◌}
use crypto_processing_api.Prelude.{
  Bool, true, false, ◌&&◌, ◌||◌, not, Option, none, some, [], ◌∷◌, if◌then◌else◌, ◌==◌, ltb, leb,
  length, select,
}
use crypto_processing_api.Errors.{Result, ok, err, decimal_overflow}
use crypto_processing_api.Core.Text.{Text, strip}
use crypto_processing_api.Core.Amounts.{rounded, digits}

pub record Decimal : Type 0 where
  pub negative : Bool
  pub coefficient : ℕ
  pub up : ℕ
  pub down : ℕ

unfoldable pub is_digit : ℕ → Bool
is_digit c = leb 48 c && leb c 57

-- A run of digits at the head of a text: the number they continue, how many there are, the rest.
pub record Run : Type 0 where
  pub value : ℕ
  pub count : ℕ
  pub rest : Text

unfoldable pub take_digits : ℕ → ℕ → Text → Run
unfolding is_digit
take_digits value count [] = record { value = value; count = count; rest = [] }
take_digits value count (c ∷ t) =
    let more = take_digits (value * 10 + (c - 48)) (count + 1) t in
    if is_digit c then more else record { value = value; count = count; rest = c ∷ t }

-- [-+]?
unfoldable pub split_sign : Text → Bool × Text
split_sign [] = (false, [])
split_sign (c ∷ t) = if c == 43 then (false, t) else if c == 45 then (true, t) else (false, c ∷ t)

-- [-+]?\d+ to the end of the text: the exponent, as what it adds above and below.
exponent_of : Bool → ℕ → ℕ → Text → Option (ℕ × ℕ)
exponent_of negative v zero t = none
exponent_of negative v (suc n) (c ∷ t) = none
exponent_of negative v (suc n) [] = some (if negative then (0, v) else (v, 0))

-- (E[-+]?\d+)? to the end of the text, in either case.
unfoldable pub read_exponent : Text → Option (ℕ × ℕ)
unfolding exponent_of
read_exponent [] = some (0, 0)
read_exponent (c ∷ t) =
    if c == 69 || c == 101
    then (let (negative, t') = split_sign t in
        let run = take_digits 0 0 t' in exponent_of negative run.value run.count run.rest)
    else none

-- The digits behind a point, if there is one: the coefficient so far, how many digits there were.
unfoldable pub read_fraction : ℕ → Text → Run
read_fraction value [] = record { value = value; count = 0; rest = [] }
read_fraction value (c ∷ t) =
    if c == 46 then take_digits value 0 t else record { value = value; count = 0; rest = c ∷ t }

-- A decimal that is held exactly: the limits of the C implementation on 64 bits.
unfoldable pub is_representable : Decimal → Bool
is_representable x =
    leb (x.up + length (digits x.coefficient)) (1000000000000000000 + x.down)
    && leb x.down (x.up + 1999999999999999997)

if_representable : Decimal → Option Decimal
if_representable x = if is_representable x then some x else none

with_exponent : Bool → Run → Option (ℕ × ℕ) → Option Decimal
with_exponent negative r none = none
with_exponent negative r (some (up, down)) =
    if_representable
      (record { negative = negative; coefficient = r.value; up = up; down = r.count + down })

-- There has to be a digit before or behind the point.
unfoldable pub read_number : Bool → Text → Option Decimal
unfolding with_exponent if_representable
read_number negative t =
    let whole = take_digits 0 0 t in
    let all = read_fraction whole.value whole.rest in
    if whole.count + all.count == 0
    then none
    else with_exponent negative all (read_exponent all.rest)

-- `Decimal(text)`: nothing where the text is not a number, and where it is an infinity or a NaN,
-- which the callers refuse alike.
unfoldable pub read_decimal : Text → Option Decimal
read_decimal t =
    let (negative, t') = split_sign (select (λ c. not (c == 95)) (strip t)) in
    read_number negative t'

-- How many digits go in a rounding to 28 digits, and down to the exponent -1000026.
unfoldable pub dropped : Decimal → ℕ
dropped x =
    let excess = length (digits x.coefficient) - 28 in
    let below = x.down - x.up - 1000026 in if leb excess below then below else excess

-- Rounding to the context.
unfoldable pub finalize : Decimal → Result Decimal
unfolding dropped rounded
finalize x =
    let k = dropped x in
    let q = rounded x.coefficient k in
    if not (q == 0) && ltb (1000000 + x.down) (length (digits q) + x.up + k)
    then err decimal_overflow
    else ok (record { negative = x.negative; coefficient = q; up = x.up + k; down = x.down })

unfoldable pub scaleb : Decimal → ℕ → Result Decimal
unfolding finalize
scaleb x n = finalize (record x { up = x.up + n })
