-- ===== src/Core/Amounts/Exact.antt =====
-- An amount that `to_units` returns is the amount that was written, if that has at most 28 digits.
use Prim.Native.Nat.{ℕ, zero, suc, ◌+◌, ◌-◌, ◌*◌, ◌/◌, ◌%◌, ◌^◌, ◌≤◌}
use native.Mathlib.Nat.{pow-suc, div-add-mod', div-one}
use crypto_processing_api.Prelude.{
  ◌≡◌, refl, sym, ap, ◌∙◌, false, ◌&&◌, not, if◌then◌else◌, ◌==◌, ltb, leb, length, arith,
  Bool-cases, inl, inr,
}
use crypto_processing_api.Errors.{ok, err, bind-eq-ok, decimal_overflow}
use crypto_processing_api.Core.Decimal.{Decimal, dropped, finalize, scaleb}
use crypto_processing_api.Core.Amounts.{rounded, digits}
use crypto_processing_api.Core.Amounts.Units.{
  is_integral, integer, whole_units, decimal_to_units, max_units,
}

-- The rounding leaves a decimal alone that the context can hold.
pub record IsHeld (x : Decimal) : Type 0 where
  pub few_digits : length (digits x.coefficient) ≤ 28
  pub not_tiny : x.down ≤ x.up + 1000026

pub dropped-IsHeld : (x : Decimal) → IsHeld x → dropped x ≡ 0
unfolding dropped
dropped-IsHeld x h = let few = h.few_digits in let above = h.not_tiny in ground arith

pub rounded_zero : (n : ℕ) → rounded n 0 ≡ n
unfolding rounded
rounded_zero n = ground arith

pow-split : (i j : ℕ) → 10 ^ i * 10 ^ j ≡ 10 ^ (i + j)
pow-split i zero = let none_more : i ≡ i + 0 = omega arith in rw (← none_more) (omega arith)
pow-split i (suc j) =
    let tail = pow-suc 10 j in
    let both = pow-suc 10 (i + j) in
    let before = pow-split i j in
    let moved : 10 ^ (i + suc j) ≡ 10 ^ suc (i + j) = ap (λ k. 10 ^ k) (omega arith) in
    rw (tail, moved, both, ← before) (grind arith)

-- What an integral decimal is worth.
integer_worth :
    (c up down u : ℕ)
    → c % 10 ^ (down - up) ≡ 0
    → c * 10 ^ (up - down) / 10 ^ (down - up) ≡ u
    → u * 10 ^ down ≡ c * 10 ^ up
integer_worth c up down u h e = elim (Bool-cases (leb down up)) [
  | inl above ↦
      let gone : down - up ≡ 0 = ground arith in
      let e₁ : c * 10 ^ (up - down) / 1 ≡ u = rw gone at e in
      let whole : up - down + down ≡ up = ground arith in
      let split = pow-split (up - down) down in
      let e₂ : c * 10 ^ (up - down) ≡ u = sym (div-one _) ∙ e₁ in
      let joined : 10 ^ (up - down) * 10 ^ down ≡ 10 ^ up = split ∙ ap (λ k. 10 ^ k) whole in
      rw (← e₂, ← joined) (grind arith)
  | inr below ↦
      let gone : up - down ≡ 0 = ground arith in
      let whole : down - up + up ≡ down = ground arith in
      let split = pow-split (down - up) up in
      let e₁ : c * 1 / 10 ^ (down - up) ≡ u = rw gone at e in
      let parts = div-add-mod' c (10 ^ (down - up)) in
      let joined : 10 ^ (down - up) * 10 ^ up ≡ 10 ^ down = split ∙ ap (λ k. 10 ^ k) whole in
      let e₂ : c / 10 ^ (down - up) ≡ u = ap (λ k. k / 10 ^ (down - up)) (omega arith) ∙ e₁ in
      let c_is : u * 10 ^ (down - up) ≡ c = rw (← e₂) (omega (arith, parts, h)) in
      rw (← joined, ← c_is) (grind arith)
]

-- A decimal that the context holds is not changed by the rounding.
pub finalize-IsHeld :
    (x : Decimal)
    → IsHeld x
    → finalize x ≡ (
        if not (x.coefficient == 0) && ltb (1000000 + x.down) (length (digits x.coefficient) + x.up)
        then err decimal_overflow
        else ok x)
unfolding finalize
finalize-IsHeld x h =
    let none_more : x.up + 0 ≡ x.up = omega arith in
    let same_length : length (digits x.coefficient) + x.up + 0
        ≡ length (digits x.coefficient) + x.up =
      omega arith in
    rw (dropped-IsHeld x h, rounded_zero x.coefficient, none_more, same_length) refl

finalize-eq-ok : (x : Decimal) {y : Decimal} → IsHeld x → finalize x ≡ ok y → y ≡ x
finalize-eq-ok x {y} h e =
    elim (Bool-cases
      (not (x.coefficient == 0) && ltb (1000000 + x.down) (length (digits x.coefficient) + x.up))) [
        | inl over ↦ absurd (cc (finalize-IsHeld x h, over))
        | inr fits ↦ sym (cc (finalize-IsHeld x h, fits))
      ]

whole_units-eq-ok :
    (y : Decimal) {u : ℕ}
    → whole_units y ≡ ok u
    → (u * 10 ^ y.down ≡ y.coefficient * 10 ^ y.up) × (u ≤ max_units)
unfolding whole_units is_integral integer
whole_units-eq-ok y {u} e = elim (Bool-cases (y.coefficient % 10 ^ (y.down - y.up) == 0)) [
  | inl integral ↦
      elim (Bool-cases
        (ltb max_units (y.coefficient * 10 ^ (y.up - y.down) / 10 ^ (y.down - y.up)))) [
          | inl over ↦ absurd (cc (rw (integral, over) at e))
          | inr within ↦
              let same : y.coefficient * 10 ^ (y.up - y.down) / 10 ^ (y.down - y.up) ≡ u =
                (cc (rw (integral, within) at e)) in
              (
                integer_worth y.coefficient y.up y.down u (ground arith) same,
                rw (← same) (ground arith),
              )
        ]
  | inr fractional ↦ absurd (cc (rw fractional at e))
]

-- A number of units that is returned for a decimal of at most 28 digits, whose exponent after the
-- scaling is at least -1000026, the least that the context holds, is exactly that many, and at most
-- `MAX_UNITS`; the decimal is not below zero.
pub decimal_to_units_exact :
    (x : Decimal) (decimals u : ℕ)
    → IsHeld (record x { up = x.up + decimals })
    → decimal_to_units x decimals ≡ ok u
    → (u * 10 ^ x.down ≡ x.coefficient * 10 ^ (x.up + decimals))
      × (u ≤ max_units)
      × ((x.negative && not (x.coefficient == 0)) ≡ false)
unfolding decimal_to_units scaleb
decimal_to_units_exact x decimals u h e =
    elim (Bool-cases (x.negative && not (x.coefficient == 0))) [
      | inl below ↦ absurd (cc (rw below at e))
      | inr above ↦
          let (y, scaled, done) = bind-eq-ok (scaleb x decimals) whole_units (rw above at e) in
          let same = finalize-eq-ok (record x { up = x.up + decimals }) h scaled in
          let (worth, bounded) = whole_units-eq-ok y done in (rw same at worth, bounded, above)
    ]
