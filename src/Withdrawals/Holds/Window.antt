-- ===== src/Withdrawals/Holds/Window.antt =====
-- What a placed hold adds to the window that the caps are about.
use crypto_processing_api.Prelude.{
  ℕ, ◌+◌, ◌≡◌, refl, sym, ◌∙◌, ap, ◌+ℤ◌, ltb_ℤ, leb, Bool, true, false, not, Bool-cases, inl, inr,
  Option, none, some, List, [], ◌∷◌, ◌++◌, map, sum_of, add_zero, add_assoc, zero_add, find,
  ==_self, arith,
}
use crypto_processing_api.Errors.{ok}
use crypto_processing_api.Exec.{Exec, pure, ◌>>=◌, ◌>>◌}
use crypto_processing_api.Exec.Keeps.{continue-eq-ok}
use crypto_processing_api.Models.{approved, Account, JournalEntry}
use crypto_processing_api.Ledger.Store.{Ledger}
use crypto_processing_api.Withdrawals.Rows.{
  Asset, Withdrawal, Db, on_ledger, save, stored, has_withdrawal_id, get_asset,
}
use crypto_processing_api.Withdrawals.Holds.Limits.{place_hold-stages, hold_locked-eq-ok}
use crypto_processing_api.Withdrawals.Holds.Placed.{place_hold-WithinLimits, stored_last}
use crypto_processing_api.Ledger.Entry.{post_entry}
use crypto_processing_api.Withdrawals.Entries.{hold_entry}
use crypto_processing_api.Withdrawals.Transitions.{counts_toward_cap}
use crypto_processing_api.Withdrawals.Holds.{
  in_window, velocity_sum, Reason, HoldRequest, new_withdrawal, insert_withdrawal, is_of_user,
  velocity_window, HoldOutcome, exceeds, decide, place_hold, record_hold, is_taken, announce,
  joined,
}
use crypto_processing_api.Withdrawals.Holds.Stages.{posted-eq-ok, insert_withdrawal-eq-ok}

module _ (asset : ℕ) (user : Option ℕ) (now : ℕ) where
  velocity_sum-append :
      (rows : List Withdrawal) (w : Withdrawal)
      → in_window asset user now w ≡ true
      → velocity_sum (rows ++ w ∷ []) asset user now
        ≡ velocity_sum rows asset user now +ℤ w.amount_gross
  unfolding velocity_sum sum_of
  velocity_sum-append [] w h = rw h (add_zero w.amount_gross ∙ sym (zero_add w.amount_gross))
  velocity_sum-append (v ∷ rows) w h = elim (Bool-cases (in_window asset user now v)) [
    | inl inside ↦ rw inside (
        ap (λ x. v.amount_gross +ℤ x) (velocity_sum-append rows w h)
        ∙ sym (add_assoc v.amount_gross (velocity_sum rows asset user now) w.amount_gross))
    | inr outside ↦ rw outside (velocity_sum-append rows w h)
  ]

within : (now : ℕ) → leb now (now + velocity_window) ≡ true
within now = ground arith

-- The new row counts in the windows of its asset and of its user.
new_withdrawal-in_window :
    (r : HoldRequest) (k : ℕ) (manual : Bool) (now e : ℕ) (user : Option ℕ)
    → is_of_user user (new_withdrawal r k manual now) ≡ true
    → in_window r.asset_id user now
        (record (new_withdrawal r k manual now) { hold_entry_id = some e })
      ≡ true
unfolding in_window new_withdrawal counts_toward_cap
new_withdrawal-in_window r k true now e none h = rw (==_self r.asset_id, within now) refl
new_withdrawal-in_window r k false now e none h = rw (==_self r.asset_id, within now) refl
new_withdrawal-in_window r k true now e (some u) h = rw (==_self r.asset_id, within now) h
new_withdrawal-in_window r k false now e (some u) h = rw (==_self r.asset_id, within now) h

added_row :
    (r : HoldRequest) (k : ℕ) (manual : Bool) (user : Option ℕ) (s : Db) (e : ℕ)
    → is_of_user user (new_withdrawal r k manual s.now) ≡ true
    → is_taken (find (has_withdrawal_id (new_withdrawal r k manual s.now).id) s.withdrawals) ≡ false
    → velocity_sum
        (map
          (stored (record (new_withdrawal r k manual s.now) { hold_entry_id = some e }))
          (s.withdrawals ++ new_withdrawal r k manual s.now ∷ []))
        r.asset_id
        user
        s.now
      ≡ velocity_sum s.withdrawals r.asset_id user s.now +ℤ r.amount_gross
unfolding new_withdrawal
added_row r k manual user s e own free =
    ap (λ rows. velocity_sum rows r.asset_id user s.now)
      (stored_last (record (new_withdrawal r k manual s.now) { hold_entry_id = some e })
        (new_withdrawal r k manual s.now) s.withdrawals (==_self k) free)
    ∙ velocity_sum-append r.asset_id user s.now s.withdrawals
        (record (new_withdrawal r k manual s.now) { hold_entry_id = some e })
        (new_withdrawal-in_window r k manual s.now e user own)

recorded :
    (r : HoldRequest) (k : ℕ) (a : Asset) (d : Bool × List Reason) (user : Option ℕ) (s s₁ s' : Db)
    (out : HoldOutcome) (w : Withdrawal) (m : Withdrawal → Exec Ledger JournalEntry)
    → is_of_user user (new_withdrawal r k d.0 s.now) ≡ true
    → new_withdrawal r k d.0 s.now ≡ w
    → is_taken (find (has_withdrawal_id (new_withdrawal r k d.0 s.now).id) s.withdrawals) ≡ false
    → s₁.withdrawals ≡ s.withdrawals ++ new_withdrawal r k d.0 s.now ∷ []
    → (on_ledger (m w) >>= λ entry. save (record w { hold_entry_id = some entry.id }) >>= λ held.
          announce d.0 held a (joined d.1)
          >> pure (record { withdrawal = held; auto_approved = not d.0; reason = joined d.1 }))
        s₁
      ≡ (ok out, s')
    → velocity_sum s'.withdrawals r.asset_id user s.now
      ≡ velocity_sum s.withdrawals r.asset_id user s.now +ℤ r.amount_gross
recorded r k a d user s s₁ s' out w m own same free added h =
    let (e, made, left) = posted-eq-ok w (m w) a d s₁ s' out h in
    ap (λ rows. velocity_sum rows r.asset_id user s.now)
      (left
        ∙ ap (λ v. map (stored (record v { hold_entry_id = some e })) s₁.withdrawals) (sym same)
        ∙ ap (map (stored (record (new_withdrawal r k d.0 s.now) { hold_entry_id = some e })))
            added)
    ∙ added_row r k d.0 user s e own free

record_hold-velocity_sum :
    (r : HoldRequest) (k : ℕ) (a : Asset) (accounts : Account × Account) (d : Bool × List Reason)
    (user : Option ℕ) (s s' : Db) (out : HoldOutcome)
    → is_of_user user (new_withdrawal r k d.0 s.now) ≡ true
    → record_hold r k a accounts d s ≡ (ok out, s')
    → velocity_sum s'.withdrawals r.asset_id user s.now
      ≡ velocity_sum s.withdrawals r.asset_id user s.now +ℤ r.amount_gross
unfolding record_hold
record_hold-velocity_sum r k a accounts d user s s' out own h =
    let (w, s₁, inserted, rest) =
      continue-eq-ok (insert_withdrawal (new_withdrawal r k d.0 s.now) s) _ h in
    let (same, free, added) = insert_withdrawal-eq-ok (new_withdrawal r k d.0 s.now) s inserted in
    recorded r k a d user s s₁ s' out w (λ v. post_entry (hold_entry v accounts.0.id accounts.1.id))
      own same free added rest

own_user :
    (r : HoldRequest) (k : ℕ) (manual : Bool) (now : ℕ)
    → is_of_user (some r.external_user_id) (new_withdrawal r k manual now) ≡ true
unfolding new_withdrawal
own_user r k manual now = ==_self r.external_user_id

any_user :
    (r : HoldRequest) (k : ℕ) (manual : Bool) (now : ℕ)
    → is_of_user none (new_withdrawal r k manual now) ≡ true
any_user r k manual now = refl

place_hold-velocity_sum :
    (r : HoldRequest) (k : ℕ) (user : Option ℕ) (s s' : Db) (out : HoldOutcome)
    → ((manual : Bool) (now : ℕ) → is_of_user user (new_withdrawal r k manual now) ≡ true)
    → place_hold r k s ≡ (ok out, s')
    → velocity_sum s'.withdrawals r.asset_id user s.now
      ≡ velocity_sum s.withdrawals r.asset_id user s.now +ℤ r.amount_gross
place_hold-velocity_sum r k user s s' out own h =
    let (asset, accounts, s₃, found, still, rest) = place_hold-stages r k s s' out h in
    let added =
      record_hold-velocity_sum r k asset accounts (decide r asset s₃) user s₃ s' out
        (own (decide r asset s₃).0 s₃.now) (hold_locked-eq-ok r k asset accounts s₃ s' out rest) in
    ap (λ now. velocity_sum s'.withdrawals r.asset_id user now) (sym still.1)
    ∙ added
    ∙ ap (λ now. velocity_sum s₃.withdrawals r.asset_id user now +ℤ r.amount_gross) still.1
    ∙ ap (λ rows. velocity_sum rows r.asset_id user s.now +ℤ r.amount_gross) still.0

-- After a hold whose row is stored as approved, so that it needs no human, the last 24 hours of the
-- asset and of the user, the new hold included, are still within the caps of the asset.
pub place_hold_within_caps :
    (r : HoldRequest) (k : ℕ) (s s' : Db) (out : HoldOutcome) (w : Withdrawal)
    → place_hold r k s ≡ (ok out, s')
    → find (has_withdrawal_id k) s'.withdrawals ≡ some w
    → w.status ≡ approved
    → (asset : Asset) × ((get_asset r.asset_id true s).0 ≡ ok asset)
      × (ltb_ℤ asset.withdrawal_daily_cap (velocity_sum s'.withdrawals r.asset_id none s.now)
          ≡ false)
      × (exceeds asset.withdrawal_user_daily_cap
            (velocity_sum s'.withdrawals r.asset_id (some r.external_user_id) s.now)
          ≡ false)
place_hold_within_caps r k s s' out w h there auto =
    let (asset, found, limits, by) = place_hold-WithinLimits r k s s' out w h there auto in
    let of_asset = place_hold-velocity_sum r k none s s' out (any_user r k) h in
    let of_user = place_hold-velocity_sum r k (some r.external_user_id) s s' out (own_user r k) h in
    (
      asset,
      found,
      ap (ltb_ℤ asset.withdrawal_daily_cap) of_asset ∙ limits.daily_cap,
      ap (exceeds asset.withdrawal_user_daily_cap) of_user ∙ limits.user_cap,
    )
