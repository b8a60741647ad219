-- ===== src/Withdrawals/Holds/Stages.antt =====
-- The stages of a `record_hold` that returned, and what they do to the rows.
use crypto_processing_api.Prelude.{
  ℕ, ◌≡◌, refl, sym, ◌∙◌, ap, subst, pos, leb_ℤ, Bool, true, false, not, Bool-cases, inl, inr,
  Option, some, List, [], ◌∷◌, ◌++◌, map, find,
}
use crypto_processing_api.Errors.{Result, ok}
use crypto_processing_api.Exec.{Exec, pure, modify, ◌>>=◌, ◌>>◌}
use crypto_processing_api.Exec.Keeps.{Keeps, Keeps-bind, keeps_rules, continue-eq-ok}
use crypto_processing_api.Models.{JournalEntry}
use crypto_processing_api.Core.Text.{Text}
use crypto_processing_api.Ledger.Store.{Ledger}
use crypto_processing_api.Withdrawals.Rows.{
  Asset, Withdrawal, Db, EventType, emit, on_ledger, save, stored, has_withdrawal_id,
}
use crypto_processing_api.Withdrawals.Holds.{
  Reason, insert_withdrawal, HoldOutcome, is_taken, announce, joined,
}

-- The rows are still these.
abbrev StillHasRows : List Withdrawal → Db → Type 0
StillHasRows rows s = s.withdrawals ≡ rows

change-StillHasRows :
    (rows : List Withdrawal) (f : Db → Db) (same : (s : Db) → (f s).withdrawals ≡ s.withdrawals)
    → Keeps (StillHasRows rows) (modify f)
change-StillHasRows rows f same = record { at = λ s h. same s ∙ h }

emit-StillHasRows :
    (rows : List Withdrawal) (t : EventType) (w : Withdrawal) (a : Asset) (r : Option Text)
    → Keeps (StillHasRows rows) (emit t w a r)
unfolding emit
emit-StillHasRows rows t w a r =
    Keeps-bind _ _ (search keeps_rules) λ payload. change-StillHasRows rows _ (λ s. refl)

announce-StillHasRows :
    (rows : List Withdrawal) (b : Bool) (w : Withdrawal) (a : Asset) (r : Option Text)
    → Keeps (StillHasRows rows) (announce b w a r)
unfolding announce
announce-StillHasRows rows true w a r = emit-StillHasRows rows _ w a r
announce-StillHasRows rows false w a r = search keeps_rules

-- The stages of `record_hold`, last to first.
announced-eq-ok :
    (held : Withdrawal) (a : Asset) (d : Bool × List Reason) (s s' : Db) (out : HoldOutcome)
    → (announce d.0 held a (joined d.1)
          >> pure (record { withdrawal = held; auto_approved = not d.0; reason = joined d.1 }))
        s
      ≡ (ok out, s')
    → (out.withdrawal ≡ held) × (s'.withdrawals ≡ s.withdrawals)
announced-eq-ok held a d s s' out h =
    let (u, s₁, told, rest) = continue-eq-ok (announce d.0 held a (joined d.1) s) _ h in
    let kept =
      subst (StillHasRows s.withdrawals) (ap (λ r. r.1) told)
        ((announce-StillHasRows s.withdrawals d.0 held a (joined d.1)).at s refl) in
    let made : record { withdrawal = held; auto_approved = not d.0; reason = joined d.1 } ≡ out =
      cc in
    (
      ap (λ (o : HoldOutcome). o.withdrawal) (sym made),
      sym (ap (λ (r : Result HoldOutcome × Db). r.1.withdrawals) rest) ∙ kept,
    )

pub posted-eq-ok :
    (w : Withdrawal) (m : Exec Ledger JournalEntry) (a : Asset) (d : Bool × List Reason) (s s' : Db)
    (out : HoldOutcome)
    → (on_ledger m >>= λ entry. save (record w { hold_entry_id = some entry.id }) >>= λ held.
          announce d.0 held a (joined d.1)
          >> pure (record { withdrawal = held; auto_approved = not d.0; reason = joined d.1 }))
        s
      ≡ (ok out, s')
    → (e : ℕ) × (out.withdrawal ≡ record w { hold_entry_id = some e })
      × (s'.withdrawals ≡ map (stored (record w { hold_entry_id = some e })) s.withdrawals)
unfolding save
posted-eq-ok w m a d s s' out h =
    let (entry, s₁, posted, rest) = continue-eq-ok (on_ledger m s) _ h in
    let (made, left) =
      announced-eq-ok (record w { hold_entry_id = some entry.id }) a d _ s' out rest in
    let same : s₁.withdrawals ≡ s.withdrawals =
      sym (ap (λ (r : Result JournalEntry × Db). r.1.withdrawals) posted) in
    (entry.id, made, left ∙ ap (map (stored (record w { hold_entry_id = some entry.id }))) same)

pub insert_withdrawal-eq-ok :
    (w : Withdrawal) (s : Db) {v : Withdrawal} {s' : Db}
    → insert_withdrawal w s ≡ (ok v, s')
    → (w ≡ v)
      × (is_taken (find (has_withdrawal_id w.id) s.withdrawals) ≡ false)
      × (s'.withdrawals ≡ s.withdrawals ++ w ∷ [])
unfolding insert_withdrawal
insert_withdrawal-eq-ok w s {v} {s'} h =
    elim (Bool-cases (is_taken (find (has_withdrawal_id w.id) s.withdrawals))) [
      | inl taken ↦ absurd (cc (rw taken at h))
      | inr free ↦ elim (Bool-cases (leb_ℤ w.amount_gross (pos 0))) [
        | inl nothing ↦ absurd (cc (rw (free, nothing) at h))
        | inr some_amount ↦
            let done = rw (free, some_amount) at h in
            (
              let same : ok w ≡ ok v = ap (λ (r : Result Withdrawal × Db). r.0) done in cc,
              free,
              sym (ap (λ (r : Result Withdrawal × Db). r.1.withdrawals) done),
            )
      ]
    ]
