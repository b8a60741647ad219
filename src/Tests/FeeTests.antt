-- ===== src/Tests/FeeTests.antt =====
-- Fees and rounding at concrete amounts.
use Prim.Native.Nat.{◌+◌, ◌*◌, ◌≤◌, ◌<◌}
use native.Mathlib.Omega.{arith}
use crypto_processing_api.Prelude.{pos, ◌-ℤ◌, ◌≡◌, refl, none, some}
use crypto_processing_api.Errors.{ok}
use crypto_processing_api.Core.Amounts.{msat_to_sat_round_up}
use crypto_processing_api.Fees.{
  Rate, FeeQuote, FeeSettings, FeeMode, btcpay, asset_flat_fee, miner_fee, estimate_sat_per_vb,
  quote_btc_fee, flat_fee_quote,
}
use crypto_processing_api.Fees.Quotes.{IsSound, quote_btc_fee-IsSound, miner_fee_bounds}

-- 2.5 satoshis per byte, 141 bytes.
abbrev rate : Rate
rate = record { numerator = 5; denominator = 2 }

abbrev settings : FeeSettings
settings = record {
  btc_payout_vsize_vb = 141;
  btc_dust_threshold_sat = 294;
  btc_fallback_fee_sat_per_vb = rate;
  withdrawal_fee_mode = FeeMode.deduct;
}

abbrev quote : FeeQuote
quote = record { fee = pos 353; net = pos 9647; wallet_fee = pos 353; source = btcpay }

abbrev flat_quote : FeeQuote
flat_quote = record { fee = pos 100; net = pos 900; wallet_fee = pos 0; source = asset_flat_fee }

quoted : quote_btc_fee (some rate) none settings (pos 10000) ≡ ok quote
unfolding quote_btc_fee estimate_sat_per_vb miner_fee ◌-ℤ◌
quoted = refl

flat_quoted : flat_fee_quote (pos 1000) (pos 100) (pos 10) ≡ ok flat_quote
unfolding flat_fee_quote ◌-ℤ◌
flat_quoted = refl

quote_btc_fee-IsSound_example : IsSound (pos 10000) (pos 294) quote
quote_btc_fee-IsSound_example =
    quote_btc_fee-IsSound (some rate) none settings (pos 10000) quote quoted

miner_fee_bounds_example :
    (5 * 141 ≤ miner_fee rate 141 * 2) × (miner_fee rate 141 * 2 < 5 * 141 + 2)
miner_fee_bounds_example = miner_fee_bounds rate 141 (omega arith)

rounded : msat_to_sat_round_up (pos 1500) ≡ ok 2
unfolding msat_to_sat_round_up
rounded = refl
