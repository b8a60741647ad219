-- ===== src/Fees.antt =====
-- Withdrawal fees: src/crypto_processing_api/services/fees.py.
pub mod Quotes
use Prim.Native.Nat.{ℕ, ◌+◌, ◌-◌, ◌*◌, ◌/◌}
use crypto_processing_api.Prelude.{
  ℤ, pos, ◌+ℤ◌, ◌-ℤ◌, ltb_ℤ, leb_ℤ, Bool, true, false, Option, none, some, if◌then◌else◌,
}
use crypto_processing_api.Errors.{Result, ok, err, bind, dust_amount}

-- Where the number came from.
pub data FeeSource : Type 0 where
  btcpay mempool_space static asset_flat_fee adopted_from_payout : FeeSource

-- The feerate is carried as its exact decimal value, `numerator / denominator` satoshis per byte:
-- `Decimal(str(rate))` is such a fraction.
pub record Rate : Type 0 where
  pub numerator : ℕ
  pub denominator : ℕ

pub record FeeQuote : Type 0 where
  pub fee : ℤ
  pub net : ℤ
  pub wallet_fee : ℤ
  pub source : FeeSource

-- `FeeQuote.committed`
unfoldable pub committed : FeeQuote → ℤ
committed q = q.net +ℤ q.wallet_fee

pub data FeeMode : Type 0 where
  deduct absorb : FeeMode

-- The settings that price a withdrawal.
pub record FeeSettings : Type 0 where
  pub btc_payout_vsize_vb : ℕ
  pub btc_dust_threshold_sat : ℕ
  pub btc_fallback_fee_sat_per_vb : Rate
  pub withdrawal_fee_mode : FeeMode

-- The sources in order: what BTCPay answered, what mempool.space answered (each already cleared
-- of errors and of rates that are not positive), and the static floor.
unfoldable pub estimate_sat_per_vb : Option Rate → Option Rate → FeeSettings → Rate × FeeSource
estimate_sat_per_vb (some r) _ s = (r, btcpay)
estimate_sat_per_vb none (some r) s = (r, mempool_space)
estimate_sat_per_vb none none s = (s.btc_fallback_fee_sat_per_vb, static)

-- (Decimal(str(sat_per_vb)) * vsize).to_integral_value(ROUND_CEILING)
unfoldable pub miner_fee : Rate → ℕ → ℕ
miner_fee r vsize = (r.numerator * vsize + (r.denominator - 1)) / r.denominator

priced : FeeMode → ℤ → ℤ → FeeSource → Result FeeQuote
priced absorb gross miner source =
    ok (record { fee = pos 0; net = gross; wallet_fee = miner; source = source })
priced deduct gross miner source =
    if leb_ℤ gross miner
    then err dust_amount
    else ok (record { fee = miner; net = gross -ℤ miner; wallet_fee = miner; source = source })

above_dust : ℤ → FeeQuote → Result FeeQuote
above_dust threshold q = if leb_ℤ q.net threshold then err dust_amount else ok q

unfoldable pub quote_btc_fee : Option Rate → Option Rate → FeeSettings → ℤ → Result FeeQuote
unfolding priced above_dust estimate_sat_per_vb miner_fee
quote_btc_fee from_btcpay from_mempool s gross =
    let (rate, source) = estimate_sat_per_vb from_btcpay from_mempool s in
    bind (priced s.withdrawal_fee_mode gross (pos (miner_fee rate s.btc_payout_vsize_vb)) source)
      (above_dust (pos s.btc_dust_threshold_sat))

unfoldable pub flat_fee_quote : ℤ → ℤ → ℤ → Result FeeQuote
unfolding above_dust
flat_fee_quote gross flat_fee dust_threshold =
    if leb_ℤ gross flat_fee
    then err dust_amount
    else above_dust dust_threshold (record {
      fee = flat_fee;
      net = gross -ℤ flat_fee;
      wallet_fee = pos 0;
      source = asset_flat_fee;
    })
