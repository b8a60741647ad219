-- ===== src/Withdrawals/Admin/Winner.antt =====
-- Two callers that race for one row: one wins.
use crypto_processing_api.Prelude.{
  ℕ, ◌≡◌, refl, sym, ◌∙◌, ap, Bool, true, false, List, [], ◌∷◌, map, select, length, find,
  Bool-cases, inl, inr, if◌then◌else◌, ◌==◌, some, arith,
}
use crypto_processing_api.Errors.{ok, err, withdrawal_not_found, illegal_transition}
use crypto_processing_api.Exec.Keeps.{continue-eq-ok, or_raise-eq-ok}
use crypto_processing_api.Models.{pending_approval, approved, submitting}
use crypto_processing_api.Withdrawals.Rows.{Actor, Withdrawal, Db, has_withdrawal_id, lock}
use crypto_processing_api.Withdrawals.Transitions.{eq_status}
use crypto_processing_api.Withdrawals.Admin.{
  is_at, refuse, update_where, row_count, swap, approve, claim_for_submission,
}

module _ {A : Type 0} (p : A → Bool) (f : A → A)
    (out : (a : A) → p a ≡ true → p (f a) ≡ false) where
  -- A change that takes the rows out of those that match leaves none of them.
  select-map-none : (xs : List A) → length (select p (map (λ a. if p a then f a else a) xs)) ≡ 0
  select-map-none [] = refl
  select-map-none (x ∷ xs) = elim (Bool-cases (p x)) [
    | inl hit ↦ rw (hit, out x hit) (select-map-none xs)
    | inr miss ↦ rw (miss, miss) (select-map-none xs)
  ]

  -- So a second change finds nothing to do.
  map-map-none :
      (g : A → A) (xs : List A)
      → map (λ a. if p a then g a else a) (map (λ a. if p a then f a else a) xs)
        ≡ map (λ a. if p a then f a else a) xs
  map-map-none g [] = refl
  map-map-none g (x ∷ xs) = elim (Bool-cases (p x)) [
    | inl hit ↦ rw (hit, out x hit) (ap (λ ys. f x ∷ ys) (map-map-none g xs))
    | inr miss ↦ rw (miss, miss) (ap (λ ys. x ∷ ys) (map-map-none g xs))
  ]

claimed :
    (k : ℕ) (now : ℕ) (w : Withdrawal)
    → is_at k approved w ≡ true
    → is_at k approved (record w { status = submitting; updated_at = now }) ≡ false
unfolding eq_status
claimed k now w h = ground arith

decided :
    (k : ℕ) (now : ℕ) (actor : Actor) (w : Withdrawal)
    → is_at k pending_approval w ≡ true
    → is_at k pending_approval
        (record w { status = approved; approved_by = some actor; updated_at = now })
      ≡ false
unfolding eq_status
decided k now actor w h = ground arith

-- Whatever a claim has found, the next one for the same row finds it taken, and changes nothing.
pub claim_for_submission_once :
    (k : ℕ) (s : Db)
    → claim_for_submission k (claim_for_submission k s).1 ≡ (ok false, (claim_for_submission k s).1)
unfolding claim_for_submission row_count update_where
claim_for_submission_once k s =
    rw
      (
        select-map-none (is_at k approved)
            (λ w. record w { status = submitting; updated_at = s.now }) (claimed k s.now)
            s.withdrawals,
        map-map-none (is_at k approved) (λ w. record w { status = submitting; updated_at = s.now })
            (claimed k s.now) (λ w. record w { status = submitting; updated_at = s.now })
            s.withdrawals,
      )
      refl

abbrev after : ℕ → Actor → Db → Db
after k actor s =
    update_where k pending_approval
      (λ w. record w { status = approved; approved_by = some actor; updated_at = s.now }) s

swap_again :
    (k : ℕ) (a b : Actor) (s : Db) (w : Withdrawal)
    → find (has_withdrawal_id k) (after k a s).withdrawals ≡ some w
    → approve k b (after k a s) ≡ (err illegal_transition, after k a s)
unfolding approve swap row_count update_where refuse
swap_again k a b s w found =
    rw
      (
        select-map-none (is_at k pending_approval)
            (λ w. record w { status = approved; approved_by = some a; updated_at = s.now })
            (decided k s.now a) s.withdrawals,
        map-map-none (is_at k pending_approval)
            (λ w. record w { status = approved; approved_by = some a; updated_at = s.now })
            (decided k s.now a)
            (λ w. record w { status = approved; approved_by = some b; updated_at = s.now })
            s.withdrawals,
        found,
      )
      refl

refuse-eq-ok : (k : ℕ) (b : Bool) (s : Db) {u : Unit} {s' : Db} → refuse k b s ≡ (ok u, s') → s ≡ s'
unfolding refuse
refuse-eq-ok k true s h = cc
refuse-eq-ok k false s h = absurd (ground arith)

-- Of two admins who approve the same withdrawal, the second is refused, and changes nothing.
pub approve_once :
    (k : ℕ) (a b : Actor) (s s' : Db) (w : Withdrawal)
    → approve k a s ≡ (ok w, s')
    → approve k b s' ≡ (err illegal_transition, s')
unfolding approve swap lock
approve_once k a b s s' w h =
    let (u, s₁, swapped, locked) =
      continue-eq-ok
        (swap k pending_approval
          (λ now w. record w { status = approved; approved_by = some a; updated_at = now }) s)
        (λ _. lock k) h in
    let same : after k a s ≡ s₁ =
      refuse-eq-ok k (row_count k pending_approval s == 1) (after k a s) swapped in
    let (found, left) =
      or_raise-eq-ok withdrawal_not_found (find (has_withdrawal_id k) s₁.withdrawals) s₁ locked in
    rw (sym (same ∙ left)) (swap_again k a b s w (rw same found))
