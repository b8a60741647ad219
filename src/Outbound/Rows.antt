-- ===== src/Outbound/Rows.antt =====
-- What a query of the table still has after it is sorted and cut.
use crypto_processing_api.Prelude.{
  ℕ, zero, suc, ◌≡◌, refl, ◌∙◌, ap, Bool, false, List, [], ◌∷◌, ◌==◌, leb, select, Bool-cases, inl,
  inr,
}
use crypto_processing_api.Outbound.{OutboundEvent, insert_event, by_next_attempt, first_of}

-- The rows with an id.
abbrev pub with_id : ℕ → List OutboundEvent → List OutboundEvent
with_id k events = select (λ e. e.id == k) events

-- `select` and the steps of the query.
module _ (p : OutboundEvent → Bool) where
  select-insert_event :
      (e : OutboundEvent) (events : List OutboundEvent)
      → p e ≡ false
      → select p (insert_event e events) ≡ select p events
  unfolding insert_event
  select-insert_event e [] h = rw h refl
  select-insert_event e (f ∷ events) h =
      elim (Bool-cases (leb e.next_attempt_at f.next_attempt_at)) [
        | inl before ↦ rw (before, h) refl
        | inr after ↦ rw (after, select-insert_event e events h) refl
      ]

  pub select-by_next_attempt :
      (events : List OutboundEvent) → select p events ≡ [] → select p (by_next_attempt events) ≡ []
  unfolding by_next_attempt
  select-by_next_attempt [] h = refl
  select-by_next_attempt (e ∷ events) h = elim (Bool-cases (p e)) [
    | inl hit ↦ absurd (cc (rw hit at h))
    | inr miss ↦
        select-insert_event e (by_next_attempt events) miss
        ∙ select-by_next_attempt events (rw miss at h)
  ]

  pub select-first_of :
      (n : ℕ) (events : List OutboundEvent)
      → select p events ≡ []
      → select p (first_of n events) ≡ []
  unfolding first_of
  select-first_of zero events h = refl
  select-first_of (suc n) [] h = refl
  select-first_of (suc n) (e ∷ events) h = elim (Bool-cases (p e)) [
    | inl hit ↦ absurd (cc (rw hit at h))
    | inr miss ↦ rw miss (select-first_of n events (rw miss at h))
  ]

  pub select-select :
      (q : OutboundEvent → Bool) (events : List OutboundEvent)
      → select p (select q events) ≡ select q (select p events)
  select-select q [] = refl
  select-select q (e ∷ events) = elim (Bool-cases (p e)) [
    | inl hit ↦ elim (Bool-cases (q e)) [
      | inl both ↦ rw (hit, both) (rw hit (ap (λ r. e ∷ r) (select-select q events)))
      | inr one ↦ rw (hit, one) (select-select q events)
    ]
    | inr miss ↦ elim (Bool-cases (q e)) [
      | inl one ↦ rw (miss, one) (rw miss (select-select q events))
      | inr neither ↦ rw (miss, neither) (select-select q events)
    ]
  ]
