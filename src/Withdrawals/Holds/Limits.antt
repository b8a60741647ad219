-- ===== src/Withdrawals/Holds/Limits.antt =====
-- What a withdrawal that nobody looked at has been checked against.
use crypto_processing_api.Prelude.{
  ℕ, ◌≡◌, refl, ◌∙◌, ap, subst, ℤ, ◌+ℤ◌, neg, ltb_ℤ, Bool, true, false, ◌↔◌, List,
}
use crypto_processing_api.Errors.{ok, amount_too_small, insufficient_balance}
use crypto_processing_api.Exec.{Exec, guard}
use crypto_processing_api.Exec.Keeps.{Keeps, keeps_rules, continue-eq-ok, guard-eq-ok}
use crypto_processing_api.Models.{Account}
use crypto_processing_api.Ledger.Store.{Ledger}
use crypto_processing_api.Ledger.Accounts.{lock_asset_gate, lock_user_accounts}
use crypto_processing_api.Withdrawals.Rows.{Asset, Db, on_ledger, get_asset}
use crypto_processing_api.Withdrawals.Holds.{
  exceeds, also, Reason, route, HoldRequest, HoldOutcome, decide, record_hold, hold_locked,
  place_hold,
}

-- The limits that let a request through without a human: none of them is exceeded by the amount on
-- top of what the window already holds.
pub record WithinLimits (force_manual : Bool) (gross : ℤ) (asset : Asset)
    (asset_window user_window : ℤ) : Type 0 where
  pub not_forced : force_manual ≡ false
  pub auto_limit : ltb_ℤ asset.withdrawal_auto_limit gross ≡ false
  pub daily_cap : ltb_ℤ asset.withdrawal_daily_cap (asset_window +ℤ gross) ≡ false
  pub user_cap : exceeds asset.withdrawal_user_daily_cap (user_window +ℤ gross) ≡ false

also-false :
    (b : Bool) (r : Reason) (d : Bool × List Reason)
    → (also b r d).0 ≡ false
    → (b ≡ false) × (d.0 ≡ false)
also-false true r d h = absurd (cc)
also-false false r d h = (refl, h)

-- A request is approved without a human exactly when it is within every limit.
pub route_iff :
    (force_manual : Bool) (gross : ℤ) (asset : Asset) (asset_window user_window : ℤ)
    → ((route force_manual gross asset asset_window user_window).0 ≡ false)
      ↔ WithinLimits force_manual gross asset asset_window user_window
unfolding route
route_iff force_manual gross asset aw uw = (
  λ h.
      let (a, h₁) = also-false _ _ _ h in
      let (b, h₂) = also-false _ _ _ h₁ in
      let (c, h₃) = also-false _ _ _ h₂ in
      let (d, _) = also-false _ _ _ h₃ in
      record { not_forced = d; auto_limit = c; daily_cap = b; user_cap = a },
  λ w. rw (w.user_cap, w.daily_cap, w.auto_limit, w.not_forced) refl,
)

-- The rows and the clock are still these.
abbrev pub StillAt : Db → Db → Type 0
StillAt s t = (t.withdrawals ≡ s.withdrawals) × (t.now ≡ s.now)

on_ledger-StillAt : {A : Type 0} (s : Db) (m : Exec Ledger A) → Keeps (StillAt s) (on_ledger m)
on_ledger-StillAt s m = record { at = λ t h. h }

get_asset-StillAt : (s : Db) (k : ℕ) (b : Bool) → Keeps (StillAt s) (get_asset k b)
unfolding get_asset
get_asset-StillAt s k b = search keeps_rules depth 10

still :
    {A : Type 0} (s t t' : Db) (m : Exec Db A) {a : A}
    → Keeps (StillAt s) m
    → StillAt s t
    → m t ≡ (ok a, t')
    → StillAt s t'
still s t t' m k h p = subst (StillAt s) (ap (λ r. r.1) p) (k.at t h)

pub hold_locked-eq-ok :
    (r : HoldRequest) (k : ℕ) (a : Asset) (accounts : Account × Account) (s s' : Db)
    (out : HoldOutcome)
    → hold_locked r k a accounts s ≡ (ok out, s')
    → record_hold r k a accounts (decide r a s) s ≡ (ok out, s')
unfolding hold_locked
hold_locked-eq-ok r k a accounts s s' out h =
    let (u, s₁, enough, h₁) =
      continue-eq-ok (guard (ltb_ℤ r.amount_gross a.withdrawal_min) amount_too_small s) _ h in
    let (v, s₂, covered, h₂) =
      continue-eq-ok (guard (ltb_ℤ (neg accounts.0.balance) r.amount_gross) insufficient_balance s₁)
        _ h₁ in
    let same =
      (guard-eq-ok _ amount_too_small s enough).1
      ∙ (guard-eq-ok _ insufficient_balance s₁ covered).1 in
    ap (λ t. record_hold r k a accounts (decide r a t) t) same ∙ h₂

pub decide-StillAt :
    (r : HoldRequest) (a : Asset) (s t : Db) → StillAt s t → decide r a t ≡ decide r a s
unfolding decide
decide-StillAt r a s t h = rw (h.0, h.1) refl

-- A call that placed a hold came to `hold_locked` with the rows and the clock as they were.
pub place_hold-stages :
    (r : HoldRequest) (k : ℕ) (s s' : Db) (out : HoldOutcome)
    → place_hold r k s ≡ (ok out, s')
    → (asset : Asset) × (accounts : Account × Account) × (t : Db) × ((get_asset r.asset_id true s).0
        ≡ ok asset)
      × StillAt s t
      × (hold_locked r k asset accounts t ≡ (ok out, s'))
unfolding place_hold
place_hold-stages r k s s' out h =
    let (asset, s₁, found, h₁) = continue-eq-ok (get_asset r.asset_id true s) _ h in
    let (gate, s₂, gated, h₂) = continue-eq-ok (on_ledger (lock_asset_gate r.asset_id) s₁) _ h₁ in
    let (accounts, s₃, locked, h₃) =
      continue-eq-ok (on_ledger (lock_user_accounts r.asset_id r.external_user_id) s₂) _ h₂ in
    let k₁ =
      still s s s₁ (get_asset r.asset_id true) (get_asset-StillAt s r.asset_id true) (refl, refl)
        found in
    let k₂ =
      still s s₁ s₂ (on_ledger (lock_asset_gate r.asset_id))
        (on_ledger-StillAt s (lock_asset_gate r.asset_id)) k₁ gated in
    let k₃ =
      still s s₂ s₃ (on_ledger (lock_user_accounts r.asset_id r.external_user_id))
        (on_ledger-StillAt s (lock_user_accounts r.asset_id r.external_user_id)) k₂ locked in
    (asset, accounts, s₃, ap (λ x. x.0) found, k₃, h₃)
