-- ===== src/Core/Idempotency/Owned.antt =====
-- What a caller that was given a key holds.
use mathlib.Core.Option
use crypto_processing_api.Prelude.{
  find-append, find-map, find-true, ℕ, ◌+◌, ltb, ◌≡◌, refl, ◌∙◌, ap, subst, Bool, true, false,
  Bool-cases, inl, inr, Option, none, some, [], ◌∷◌, ◌++◌, find, if◌then◌else◌, ◌==◌, ==_self,
  arith,
}
use crypto_processing_api.Errors.{ok}
use crypto_processing_api.Core.Text.{Text}
use crypto_processing_api.Core.Idempotency.{
  KeyState, in_progress, completed, IdempotencyKey, Keys, eq_text, is_for, is_unusable, started,
  new_key, update_key, take_over, resume, meet,
}

eq_text_self : (t : Text) → eq_text t t ≡ true
unfolding eq_text
eq_text_self [] = refl
eq_text_self (a ∷ t) = rw (==_self a, eq_text_self t) refl

module _ (key : Text) (endpoint : ℕ) (change : IdempotencyKey → IdempotencyKey)
    (same : (row : IdempotencyKey)
      → is_for key endpoint (change row) ≡ is_for key endpoint row) where
  is_for-changed :
      (row : IdempotencyKey)
      → is_for key endpoint (if is_for key endpoint row then change row else row)
        ≡ is_for key endpoint row
  is_for-changed row = elim (Bool-cases (is_for key endpoint row)) [
    | inl hit ↦ rw hit (same row ∙ hit)
    | inr miss ↦ rw miss miss
  ]

  -- The row of the key after an UPDATE of it.
  pub update_key-find :
      (s : Keys) {row : IdempotencyKey}
      → find (is_for key endpoint) s.rows ≡ some row
      → find (is_for key endpoint) (update_key key endpoint change s).rows ≡ some (change row)
  unfolding update_key
  update_key-find s {row} h =
      find-map (is_for key endpoint) _ is_for-changed s.rows
      ∙ ap (Option.map (λ r. if is_for key endpoint r then change r else r)) h
      ∙ ap some (rw (find-true (is_for key endpoint) s.rows h) refl)

new_key-find :
    (key : Text) (endpoint hash : ℕ) (s : Keys)
    → find (is_for key endpoint) s.rows ≡ none
    → find (is_for key endpoint) (s.rows ++ new_key key endpoint hash s.now ∷ [])
      ≡ some (new_key key endpoint hash s.now)
unfolding new_key is_for
new_key-find key endpoint hash s h =
    find-append (is_for key endpoint) s.rows (new_key key endpoint hash s.now) h
    ∙ rw (eq_text_self key, ==_self endpoint) refl

-- The caller has the key: its row is of this request, in progress, and was touched just now.
pub record Owned (hash : ℕ) (key : Text) (endpoint : ℕ) (resource : Option ℕ) (s : Keys)
    : Type 0 where
  pub row : IdempotencyKey
  pub there : find (is_for key endpoint) s.rows ≡ some row
  pub same_hash : row.request_hash ≡ hash
  pub running : row.state ≡ in_progress
  pub fresh : row.updated_at ≡ s.now
  pub resource_of : row.resource_id ≡ resource
  pub usable : is_unusable key ≡ false

module _ (stale : ℕ) (key : Text) (endpoint hash : ℕ) (s : Keys) where
  taken_over :
      (old : IdempotencyKey) {b : Bool} {r : Option ℕ} {s' : Keys}
      → is_unusable key ≡ false
      → find (is_for key endpoint) s.rows ≡ some old
      → old.request_hash ≡ hash
      → old.state ≡ in_progress
      → take_over stale key endpoint old s ≡ (ok (started b r), s')
      → Owned hash key endpoint r s'
  unfolding take_over is_for update_key
  taken_over old {b} {r} {s'} usable h hashed running p =
      elim (Bool-cases (ltb (old.updated_at + stale) s.now)) [
        | inl late ↦
            let done : (
              ok (started true old.resource_id),
              update_key key endpoint (λ row. record row { updated_at = s.now }) s,
            )
                ≡ (ok (started b r), s') =
              rw late at p in
            let left : update_key key endpoint (λ row. record row { updated_at = s.now }) s ≡ s' =
              ap (λ x. x.1) done in
            let made : old.resource_id ≡ r = cc (ap (λ x. x.0) done) in
            subst (Owned hash key endpoint r) left (record {
              row = record old { updated_at = s.now };
              there =
                  update_key-find key endpoint (λ row. record row { updated_at = s.now })
                    (λ row. refl) s h;
              same_hash = hashed;
              running = running;
              fresh = refl;
              resource_of = made;
              usable = usable;
            })
        | inr soon ↦ absurd (cc (rw soon at p))
      ]

  resumed :
      (old : IdempotencyKey) (state : KeyState) {b : Bool} {r : Option ℕ} {s' : Keys}
      → is_unusable key ≡ false
      → find (is_for key endpoint) s.rows ≡ some old
      → old.request_hash ≡ hash
      → old.state ≡ state
      → resume state stale key endpoint old s ≡ (ok (started b r), s')
      → Owned hash key endpoint r s'
  unfolding resume
  resumed old in_progress usable h hashed running p = taken_over old usable h hashed running p
  resumed old completed usable h hashed running p = absurd (cc (ap (λ x. x.0) p))

  pub met :
      (o : Option IdempotencyKey) {b : Bool} {r : Option ℕ} {s' : Keys}
      → is_unusable key ≡ false
      → find (is_for key endpoint) s.rows ≡ o
      → meet stale key endpoint hash o s ≡ (ok (started b r), s')
      → Owned hash key endpoint r s'
  unfolding meet new_key
  met none {b} {r} {s'} usable h p =
      let left : record s { rows = s.rows ++ new_key key endpoint hash s.now ∷ [] } ≡ s' =
        ap (λ x. x.1) p in
      let made : none ≡ r = cc (ap (λ x. x.0) p) in
      subst (Owned hash key endpoint r) left (record {
        row = new_key key endpoint hash s.now;
        there = new_key-find key endpoint hash s h;
        same_hash = refl;
        running = refl;
        fresh = refl;
        resource_of = made;
        usable = usable;
      })
  met (some old) usable h p = elim (Bool-cases (old.request_hash == hash)) [
    | inl hashed ↦ resumed old old.state usable h (ground arith) refl (rw hashed at p)
    | inr other ↦ absurd (cc (rw other at p))
  ]
