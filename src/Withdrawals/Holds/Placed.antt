-- ===== src/Withdrawals/Holds/Placed.antt =====
-- The row that a placed hold leaves in the table.
use crypto_processing_api.Prelude.{
  ℕ, ◌≡◌, refl, sym, ◌∙◌, ap, Bool, true, false, not, Bool-cases, inl, inr, Option, none, some,
  List, [], ◌∷◌, ◌++◌, map, find-append, find, ◌==◌, ==_self,
}
use crypto_processing_api.Errors.{ok}
use crypto_processing_api.Exec.{Exec, pure, ◌>>=◌, ◌>>◌}
use crypto_processing_api.Exec.Keeps.{continue-eq-ok}
use crypto_processing_api.Models.{approved, Account, JournalEntry}
use crypto_processing_api.Ledger.Store.{Ledger}
use crypto_processing_api.Withdrawals.Rows.{
  auto_actor, Asset, Withdrawal, Db, on_ledger, save, stored, has_withdrawal_id, get_asset,
}
use crypto_processing_api.Withdrawals.Holds.Limits.{
  place_hold-stages, WithinLimits, route_iff, decide-StillAt, hold_locked-eq-ok,
}
use crypto_processing_api.Ledger.Entry.{post_entry}
use crypto_processing_api.Withdrawals.Entries.{hold_entry}
use crypto_processing_api.Withdrawals.Holds.{
  velocity_sum, Reason, HoldRequest, new_withdrawal, insert_withdrawal, HoldOutcome, decide,
  place_hold, record_hold, is_taken, announce, joined,
}
use crypto_processing_api.Withdrawals.Holds.Stages.{posted-eq-ok, insert_withdrawal-eq-ok}

-- The flushed row takes the place of the one that was inserted last.
pub stored_last :
    (v w : Withdrawal) (rows : List Withdrawal)
    → (w.id == v.id) ≡ true
    → is_taken (find (has_withdrawal_id v.id) rows) ≡ false
    → map (stored v) (rows ++ w ∷ []) ≡ rows ++ v ∷ []
unfolding stored
stored_last v w [] own h = rw own refl
stored_last v w (u ∷ rows) own h = elim (Bool-cases (u.id == v.id)) [
  | inl same ↦ absurd (cc (rw same at h))
  | inr other ↦ rw other (ap (λ us. u ∷ us) (stored_last v w rows own (rw other at h)))
]

-- The row of a hold: the new one, with the entry that holds the money.
abbrev pub held_row : HoldRequest → ℕ → Bool → ℕ → ℕ → Withdrawal
held_row r k manual now e = record (new_withdrawal r k manual now) { hold_entry_id = some e }

free-none : (o : Option Withdrawal) → is_taken o ≡ false → o ≡ none
free-none none h = refl
free-none (some w) h = absurd (cc)

recorded_rows :
    (r : HoldRequest) (k : ℕ) (a : Asset) (d : Bool × List Reason) (s s₁ s' : Db)
    (out : HoldOutcome) (w : Withdrawal) (m : Withdrawal → Exec Ledger JournalEntry)
    → new_withdrawal r k d.0 s.now ≡ w
    → is_taken (find (has_withdrawal_id k) s.withdrawals) ≡ false
    → s₁.withdrawals ≡ s.withdrawals ++ new_withdrawal r k d.0 s.now ∷ []
    → (on_ledger (m w) >>= λ entry. save (record w { hold_entry_id = some entry.id }) >>= λ held.
          announce d.0 held a (joined d.1)
          >> pure (record { withdrawal = held; auto_approved = not d.0; reason = joined d.1 }))
        s₁
      ≡ (ok out, s')
    → (e : ℕ) × (s'.withdrawals ≡ s.withdrawals ++ held_row r k d.0 s.now e ∷ [])
unfolding new_withdrawal
recorded_rows r k a d s s₁ s' out w m same free added h =
    let (e, made, left) = posted-eq-ok w (m w) a d s₁ s' out h in
    (
      e,
      left
          ∙ ap (λ v. map (stored (record v { hold_entry_id = some e })) s₁.withdrawals) (sym same)
          ∙ ap (map (stored (held_row r k d.0 s.now e))) added
          ∙ stored_last (held_row r k d.0 s.now e) (new_withdrawal r k d.0 s.now) s.withdrawals
              (==_self k) free,
    )

record_hold-rows :
    (r : HoldRequest) (k : ℕ) (a : Asset) (accounts : Account × Account) (d : Bool × List Reason)
    (s s' : Db) (out : HoldOutcome)
    → record_hold r k a accounts d s ≡ (ok out, s')
    → (e : ℕ) × (find (has_withdrawal_id k) s.withdrawals ≡ none)
      × (s'.withdrawals ≡ s.withdrawals ++ held_row r k d.0 s.now e ∷ [])
unfolding record_hold new_withdrawal
record_hold-rows r k a accounts d s s' out h =
    let (w, s₁, inserted, rest) =
      continue-eq-ok (insert_withdrawal (new_withdrawal r k d.0 s.now) s) _ h in
    let (same, free, added) = insert_withdrawal-eq-ok (new_withdrawal r k d.0 s.now) s inserted in
    let (e, rows) =
      recorded_rows r k a d s s₁ s' out w
        (λ v. post_entry (hold_entry v accounts.0.id accounts.1.id)) same free added rest in
    (e, free-none (find (has_withdrawal_id k) s.withdrawals) free, rows)

-- The row that is found afterwards is the new one.
stored_row :
    (r : HoldRequest) (k : ℕ) (manual : Bool) (now e : ℕ) (rows : List Withdrawal) (w : Withdrawal)
    → find (has_withdrawal_id k) rows ≡ none
    → find (has_withdrawal_id k) (rows ++ held_row r k manual now e ∷ []) ≡ some w
    → held_row r k manual now e ≡ w
unfolding new_withdrawal
stored_row r k manual now e rows w free h =
    let last = find-append (has_withdrawal_id k) rows (held_row r k manual now e) free in
    let same : some (held_row r k manual now e) ≡ some w = rw (==_self k) at (sym last ∙ h) in cc

-- Such a row is approved only if no human has to decide.
approved-decided :
    (r : HoldRequest) (k : ℕ) (manual : Bool) (now e : ℕ)
    → (held_row r k manual now e).status ≡ approved
    → (manual ≡ false) × ((held_row r k manual now e).approved_by ≡ some auto_actor)
unfolding new_withdrawal
approved-decided r k true now e h = absurd (cc)
approved-decided r k false now e h = (refl, refl)

-- A hold whose row is stored as approved, so that it goes out without a human, is of an enabled asset
-- and within the limits of that asset, given what the last 24 hours of the asset and of the user
-- already hold; and the row names the service as the one that approved it.
pub place_hold-WithinLimits :
    (r : HoldRequest) (k : ℕ) (s s' : Db) (out : HoldOutcome) (w : Withdrawal)
    → place_hold r k s ≡ (ok out, s')
    → find (has_withdrawal_id k) s'.withdrawals ≡ some w
    → w.status ≡ approved
    → (asset : Asset) × ((get_asset r.asset_id true s).0 ≡ ok asset)
      × WithinLimits r.force_manual r.amount_gross asset
          (velocity_sum s.withdrawals r.asset_id none s.now)
          (velocity_sum s.withdrawals r.asset_id (some r.external_user_id) s.now)
      × (w.approved_by ≡ some auto_actor)
unfolding decide
place_hold-WithinLimits r k s s' out w h found auto =
    let (asset, accounts, t, enabled, same, rest) = place_hold-stages r k s s' out h in
    let d = decide r asset t in
    let (e, free, rows) =
      record_hold-rows r k asset accounts d t s' out
        (hold_locked-eq-ok r k asset accounts t s' out rest) in
    let row =
      stored_row r k d.0 t.now e t.withdrawals w free
        (sym (ap (find (has_withdrawal_id k)) rows) ∙ found) in
    let (unforced, by) =
      approved-decided r k d.0 t.now e (ap (λ (v : Withdrawal). v.status) row ∙ auto) in
    (
      asset,
      enabled,
      (route_iff _ _ asset _ _).0
          (sym (ap (λ x. x.0) (decide-StillAt r asset s t same)) ∙ unforced),
      sym (ap (λ (v : Withdrawal). v.approved_by) row) ∙ by,
    )
