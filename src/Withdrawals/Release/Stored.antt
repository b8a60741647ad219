-- ===== src/Withdrawals/Release/Stored.antt =====
-- What becomes of the row of a withdrawal whose hold is given back.
use mathlib.Core.Option
use crypto_processing_api.Prelude.{
  ℕ, ◌≡◌, refl, sym, ◌∙◌, ap, subst, inl, inr, true, Option, none, some, Bool-cases, List, map,
  find, find-map, find-true, ◌==◌, ==_iff, Bool,
}
use crypto_processing_api.Ledger.Accounts.{get_user_accounts}
use crypto_processing_api.Ledger.Entry.{post_entry}
use crypto_processing_api.Errors.{Result, ok, bind, bind-eq-ok}
use crypto_processing_api.Exec.{Exec}
use crypto_processing_api.Exec.Keeps.{continue-eq-ok, Keeps, keeps_rules, Returns, Returns-bind}
use crypto_processing_api.Ledger.Store.{Ledger}
use crypto_processing_api.Models.{Status, refunded}
use crypto_processing_api.Core.Text.{Text, has_text}
use crypto_processing_api.Withdrawals.Rows.{
  Actor, Withdrawal, Db, save, stored, has_withdrawal_id, on_ledger,
}
use crypto_processing_api.Withdrawals.Transitions.{
  moved, transition-status, transition, eq_status, allowed,
}
use crypto_processing_api.Withdrawals.Entries.{
  release_entry, post_unsubmit_of, post_unsubmit_entry, post_release_entry,
}
use crypto_processing_api.Withdrawals.Release.{
  signed, release_permitted, through, intermediate, refund, release_once, release_hold,
}

-- The table has a row of this id.
HasRow : ℕ → Db → Type 0
HasRow k s = (w : Withdrawal) × (find (has_withdrawal_id k) s.withdrawals ≡ some w)

stored-id : (k : ℕ) (v w : Withdrawal) → ((stored v w).id == k) ≡ (w.id == k)
unfolding stored
stored-id k v w = elim (Bool-cases (w.id == v.id)) [
  | inl same ↦ rw same (ap (λ i. i == k) (sym ((==_iff w.id v.id).0 same)))
  | inr other ↦ rw other refl
]

found_stored :
    (k : ℕ) (v : Withdrawal) (rows : List Withdrawal)
    → find (has_withdrawal_id k) (map (stored v) rows)
      ≡ Option.map (stored v) (find (has_withdrawal_id k) rows)
found_stored k v rows = find-map (has_withdrawal_id k) (stored v) (stored-id k v) rows

save-HasRow : (k : ℕ) (v : Withdrawal) → Keeps (HasRow k) (save v)
unfolding save HasRow
save-HasRow k v = record {
  at = λ s h. (stored v h.0, found_stored k v s.withdrawals ∙ ap (Option.map (stored v)) h.1);
}

-- The row that is saved is the row that is found.
save-found :
    (k : ℕ) (v : Withdrawal) (s : Db)
    → v.id ≡ k
    → HasRow k s
    → find (has_withdrawal_id k) (map (stored v) s.withdrawals) ≡ some v
unfolding HasRow stored
save-found k v s own (w, h) =
    let here = (==_iff w.id k).0 (find-true (has_withdrawal_id k) s.withdrawals h) in
    let same : (w.id == v.id) ≡ true = (==_iff w.id v.id).1 (here ∙ sym own) in
    found_stored k v s.withdrawals ∙ ap (Option.map (stored v)) h ∙ rw same refl

on_ledger-HasRow : {A : Type 0} (k : ℕ) (m : Exec Ledger A) → Keeps (HasRow k) (on_ledger m)
unfolding HasRow
on_ledger-HasRow k m = record { at = λ s h. h }

ruleset row_rules = (keeps_rules, save-HasRow, on_ledger-HasRow)

post_unsubmit_of-HasRow :
    (k : ℕ) (w : Withdrawal) (o : Option ℕ) → Keeps (HasRow k) (post_unsubmit_of w o)
unfolding post_unsubmit_of
post_unsubmit_of-HasRow k w none = search row_rules depth 8
post_unsubmit_of-HasRow k w (some submit) = search row_rules depth 12

post_unsubmit_entry-HasRow : (k : ℕ) (w : Withdrawal) → Keeps (HasRow k) (post_unsubmit_entry w)
unfolding post_unsubmit_entry
post_unsubmit_entry-HasRow k w = post_unsubmit_of-HasRow k w w.submit_entry_id

post_release_entry-HasRow : (k : ℕ) (w : Withdrawal) → Keeps (HasRow k) (post_release_entry w)
unfolding post_release_entry
post_release_entry-HasRow k w = search row_rules depth 10

transition-id :
    (w : Withdrawal) (target : Status) (now : ℕ) {b : Bool} {v : Withdrawal}
    → transition w target now ≡ ok (b, v)
    → v.id ≡ w.id
unfolding transition
transition-id w target now {b} {v} h = elim (Bool-cases (eq_status target w.status)) [
  | inl same ↦
      (let stayed : w ≡ v = cc (rw same at h) in ap (λ (x : Withdrawal). x.id) (sym stayed))
  | inr other ↦ elim (Bool-cases (allowed w.status target)) [
    | inl edge ↦
        (let made : moved w target now ≡ v = cc (rw (other, edge) at h) in
          ap (λ (x : Withdrawal). x.id) (sym made))
    | inr no_edge ↦ absurd (cc (rw (other, no_edge) at h))
  ]
]

refund-status :
    (w : Withdrawal) (now : ℕ) {v : Withdrawal} → refund w now ≡ ok v → v.status ≡ refunded
unfolding refund
refund-status w now {v} h =
    let (u, near, rest) =
      bind-eq-ok _ (λ x. bind (transition x refunded now) (λ step. ok step.1)) h in
    let ((b, r), last, done) = bind-eq-ok (transition u refunded now) (λ step. ok step.1) rest in
    let same : r ≡ v = cc in
    ap (λ (x : Withdrawal). x.status) (sym same) ∙ transition-status u refunded now last

signed-status :
    (w : Withdrawal) (actor : Actor) (t : Option Text) → (signed w actor t).status ≡ w.status
signed-status w actor none = refl
signed-status w actor (some t) = elim (Bool-cases (has_text (some t))) [
  | inl written ↦ rw written refl
  | inr blank ↦ rw blank refl
]

through-id :
    (o : Option Status) (w : Withdrawal) (now : ℕ) {v : Withdrawal}
    → through o w now ≡ ok v
    → v.id ≡ w.id
unfolding through
through-id none w now {v} h = let same : w ≡ v = cc in ap (λ (x : Withdrawal). x.id) (sym same)
through-id (some target) w now {v} h =
    let ((b, r), step, done) = bind-eq-ok (transition w target now) (λ step. ok step.1) h in
    let same : r ≡ v = cc in
    ap (λ (x : Withdrawal). x.id) (sym same) ∙ transition-id w target now step

refund-id : (w : Withdrawal) (now : ℕ) {v : Withdrawal} → refund w now ≡ ok v → v.id ≡ w.id
unfolding refund
refund-id w now {v} h =
    let (u, near, rest) =
      bind-eq-ok (through (intermediate w.status) w now)
        (λ x. bind (transition x refunded now) (λ step. ok step.1)) h in
    let ((b, r), last, done) = bind-eq-ok (transition u refunded now) (λ step. ok step.1) rest in
    let same : r ≡ v = cc in
    ap (λ (x : Withdrawal). x.id) (sym same)
    ∙ transition-id u refunded now last
    ∙ through-id (intermediate w.status) w now near

signed-id : (w : Withdrawal) (actor : Actor) (t : Option Text) → (signed w actor t).id ≡ w.id
signed-id w actor none = refl
signed-id w actor (some t) = elim (Bool-cases (has_text (some t))) [
  | inl written ↦ rw written refl
  | inr blank ↦ rw blank refl
]

save-id : (v w : Withdrawal) → v.id ≡ w.id → Returns (λ (x : Withdrawal). x.id ≡ w.id) (save v)
unfolding save
save-id v w own = record {
  at = λ s {a = x} h. let same : v ≡ x = cc in ap (λ (y : Withdrawal). y.id) (sym same) ∙ own;
}

post_release_entry-id :
    (w : Withdrawal) → Returns (λ (v : Withdrawal). v.id ≡ w.id) (post_release_entry w)
unfolding post_release_entry
post_release_entry-id w =
    Returns-bind (on_ledger (get_user_accounts w.asset_id w.external_user_id)) _ λ accounts.
      Returns-bind (on_ledger (post_entry (release_entry w accounts.1.id accounts.0.id))) _
        λ entry. save-id (record w { release_entry_id = some entry.id }) w refl

-- The row of the withdrawal is found with what the call returned, and that is refunded.
abbrev pub IsRefunded : ℕ → Withdrawal → Db → Type 0
IsRefunded k v s = (find (has_withdrawal_id k) s.withdrawals ≡ some v) × (v.status ≡ refunded)

left_at :
    {A : Type 0} (k : ℕ) (m : Exec Db A) (s s' : Db) {a : A}
    → Keeps (HasRow k) m
    → HasRow k s
    → m s ≡ (ok a, s')
    → HasRow k s'
left_at k m s s' keeps h p = subst (HasRow k) (ap (λ r. r.1) p) (keeps.at s h)

release_once-IsRefunded :
    (w : Withdrawal) (actor : Actor) (attestation : Option Text) (s s' : Db) (v : Withdrawal)
    → HasRow w.id s
    → release_once none w actor attestation s ≡ (ok v, s')
    → IsRefunded w.id v s'
unfolding release_once save
release_once-IsRefunded w actor attestation s s' v there h =
    let (e, s₂, reversed, h₁) = continue-eq-ok (post_unsubmit_entry w s) _ h in
    let (released, s₃, given, h₂) = continue-eq-ok (post_release_entry w s₂) _ h₁ in
    let (row, s₄, back, h₃) = continue-eq-ok (refund released s₃.now, s₃) _ h₂ in
    let there₂ =
      left_at w.id (post_unsubmit_entry w) s s₂ (post_unsubmit_entry-HasRow w.id w) there
        reversed in
    let there₃ =
      left_at w.id (post_release_entry w) s₂ s₃ (post_release_entry-HasRow w.id w) there₂ given in
    let last : signed row actor attestation ≡ v = cc in
    let refunded_row : refund released s₃.now ≡ ok row = cc in
    let same : s₃ ≡ s₄ = cc in
    let own : (signed row actor attestation).id ≡ w.id =
      signed-id row actor attestation
      ∙ refund-id released s₃.now refunded_row
      ∙ (post_release_entry-id w).at s₂ given in
    (
      sym (ap (λ (r : Result Withdrawal × Db). find (has_withdrawal_id w.id) r.1.withdrawals) h₃)
          ∙ save-found w.id (signed row actor attestation) s₄ own (subst (HasRow w.id) same there₃)
          ∙ ap some last,
      ap (λ (x : Withdrawal). x.status) (sym last)
          ∙ signed-status row actor attestation
          ∙ refund-status released s₃.now refunded_row,
    )

-- A release that returns leaves the stored row of a withdrawal that had not been released refunded,
-- and returns that row.
pub release_hold-refunded :
    (w : Withdrawal) (actor : Actor) (attestation : Option Text) (s s' : Db) (v : Withdrawal)
    → find (has_withdrawal_id w.id) s.withdrawals ≡ some w
    → w.release_entry_id ≡ none
    → release_hold w actor attestation s ≡ (ok v, s')
    → (find (has_withdrawal_id w.id) s'.withdrawals ≡ some v) × (v.status ≡ refunded)
unfolding release_hold HasRow
release_hold-refunded w actor attestation s s' v there fresh h =
    let (u, s₁, checked, rest) =
      continue-eq-ok (release_permitted w.status attestation, s)
        (λ _. release_once w.release_entry_id w actor attestation) h in
    let same : s ≡ s₁ = cc in
    release_once-IsRefunded w actor attestation s₁ s' v (subst (HasRow w.id) same (w, there))
      (subst (λ o. release_once o w actor attestation s₁ ≡ (ok v, s')) fresh rest)
