-- ===== src/Core/Amounts/Rounding.antt =====
-- Rounding up.
use Prim.Native.Nat.{ℕ, ◌+◌, ◌*◌, ◌/◌, ◌≤◌, ◌<◌}
use crypto_processing_api.Prelude.{◌≡◌, pos, arith}
use crypto_processing_api.Errors.{ok}
use crypto_processing_api.Core.Amounts.{msat_to_sat_round_up, msat_per_sat}

-- An amount of millisatoshi is worth at most the satoshi that it is rounded to, by less than one.
msat_to_sat_round_up_bounds :
    (msat sat : ℕ)
    → msat_to_sat_round_up (pos msat) ≡ ok sat
    → (msat ≤ sat * msat_per_sat) × (sat * msat_per_sat < msat + msat_per_sat)
unfolding msat_to_sat_round_up
msat_to_sat_round_up_bounds msat sat h =
    let rounded : (msat + 999) / 1000 ≡ sat = cc in (omega (arith, rounded), omega (arith, rounded))
