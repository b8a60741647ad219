-- ===== src/Fees/Quotes.antt =====
-- What a fee quote promises.
use Prim.Native.Nat.{ℕ, ◌+◌, ◌-◌, ◌*◌, ◌≤◌, ◌<◌}
use native.Mathlib.Nat.{div-add-mod', mod-lt}
use crypto_processing_api.Prelude.{
  ◌≡◌, sym, ◌∙◌, ap, ℤ, pos, ◌+ℤ◌, ◌-ℤ◌, leb_ℤ, zero_add, int_laws, false, Bool-cases, inl, inr,
  Option, arith,
}
use crypto_processing_api.Errors.{ok, bind-eq-ok}
use crypto_processing_api.Fees.{
  Rate, FeeQuote, FeeSource, asset_flat_fee, FeeMode, deduct, absorb, FeeSettings, priced,
  above_dust, miner_fee, quote_btc_fee, flat_fee_quote,
}

-- The parts make up the gross amount, and what is sent is above the dust threshold.
pub record IsSound (gross threshold : ℤ) (q : FeeQuote) : Type 0 where
  pub whole : q.fee +ℤ q.net ≡ gross
  pub above : leb_ℤ q.net threshold ≡ false

sub_add : (a b : ℤ) → a +ℤ (b -ℤ a) ≡ b
sub_add a b = omega int_laws

above_dust-eq :
    (threshold : ℤ) (q : FeeQuote) {q' : FeeQuote}
    → above_dust threshold q ≡ ok q'
    → (q ≡ q') × (leb_ℤ q.net threshold ≡ false)
unfolding above_dust
above_dust-eq threshold q h = elim (Bool-cases (leb_ℤ q.net threshold)) [
  | inl dust ↦ absurd (cc (rw dust at h))
  | inr enough ↦ (cc (rw enough at h), enough)
]

priced-whole :
    (mode : FeeMode) (gross miner : ℤ) (source : FeeSource) {q : FeeQuote}
    → priced mode gross miner source ≡ ok q
    → q.fee +ℤ q.net ≡ gross
unfolding priced
priced-whole absorb gross miner source {q} h =
    let made : record { fee = pos 0; net = gross; wallet_fee = miner; source = source } ≡ q = cc in
    sym (ap (λ (x : FeeQuote). x.fee +ℤ x.net) made) ∙ zero_add gross
priced-whole deduct gross miner source {q} h = elim (Bool-cases (leb_ℤ gross miner)) [
  | inl dust ↦ absurd (cc (rw dust at h))
  | inr enough ↦
      let made : record { fee = miner; net = gross -ℤ miner; wallet_fee = miner; source = source }
          ≡ q =
        cc (rw enough at h) in
      sym (ap (λ (x : FeeQuote). x.fee +ℤ x.net) made) ∙ sub_add miner gross
]

-- A quote of the network fee splits the gross amount into the fee and the net amount, with nothing
-- lost, whoever bears the fee and wherever the feerate comes from, and the net amount is above the
-- dust threshold.
pub quote_btc_fee-IsSound :
    (from_btcpay from_mempool : Option Rate) (s : FeeSettings) (gross : ℤ) (q : FeeQuote)
    → quote_btc_fee from_btcpay from_mempool s gross ≡ ok q
    → IsSound gross (pos s.btc_dust_threshold_sat) q
unfolding quote_btc_fee
quote_btc_fee-IsSound from_btcpay from_mempool s gross q h =
    let (quoted, at_price, rest) = bind-eq-ok _ (above_dust (pos s.btc_dust_threshold_sat)) h in
    let (same, enough) = above_dust-eq (pos s.btc_dust_threshold_sat) quoted rest in
    record {
      whole =
          sym (ap (λ (x : FeeQuote). x.fee +ℤ x.net) same)
          ∙ priced-whole s.withdrawal_fee_mode gross _ _ at_price;
      above = rw (sym same) enough;
    }

-- So does a flat fee.
flat_fee_quote-IsSound :
    (gross flat_fee threshold : ℤ) (q : FeeQuote)
    → flat_fee_quote gross flat_fee threshold ≡ ok q
    → IsSound gross threshold q
unfolding flat_fee_quote
flat_fee_quote-IsSound gross flat_fee threshold q h = elim (Bool-cases (leb_ℤ gross flat_fee)) [
  | inl dust ↦ absurd (cc (rw dust at h))
  | inr more ↦
      let (same, enough) =
        above_dust-eq threshold
          (record {
            fee = flat_fee;
            net = gross -ℤ flat_fee;
            wallet_fee = pos 0;
            source = asset_flat_fee;
          })
          (rw more at h) in
      record {
        whole = sym (ap (λ (x : FeeQuote). x.fee +ℤ x.net) same) ∙ sub_add flat_fee gross;
        above = rw (sym same) enough;
      }
]

-- The miner fee is rounded up: it covers the feerate times the size, by less than one satoshi more.
pub miner_fee_bounds :
    (r : Rate) (vsize : ℕ)
    → 0 < r.denominator
    → (r.numerator * vsize ≤ miner_fee r vsize * r.denominator)
      × (miner_fee r vsize * r.denominator < r.numerator * vsize + r.denominator)
unfolding miner_fee
miner_fee_bounds r vsize h =
    let whole = div-add-mod' (r.numerator * vsize + (r.denominator - 1)) r.denominator in
    let rest = mod-lt (r.numerator * vsize + (r.denominator - 1)) h in (omega arith, omega arith)
