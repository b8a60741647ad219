-- ===== src/Outbound/Queue.antt =====
-- Which events a run of the worker settles, and what its report counts.
use crypto_processing_api.Prelude.{
  keyed-put_back, keyed-alone, keyed-replaced, ℕ, zero, suc, ◌+◌, ◌≤◌, ◌≡◌, refl, ◌∙◌, ap, Bool,
  true, false, Option, none, some, List, [], ◌∷◌, map, ◌==◌, leb, select, length, Bool-cases, inl,
  inr, arith,
}
use crypto_processing_api.Outbound.{
  OutboundEvent, DeliveryError, DeliveryReport, Platform, nothing_done, max_attempts, error_of,
  fail_one, settle_one, deliver_one, is_claimable, by_next_attempt, first_of, claim, stored_event,
  deliver_each, deliver_pending,
}
use crypto_processing_api.Outbound.Rows.{
  with_id, select-by_next_attempt, select-first_of, select-select,
}

moved : (a b : ℕ) → a + suc b ≡ suc a + b
moved a b = omega arith

none_before : (n : ℕ) → n + 0 ≡ n
none_before n = omega arith

module _ (platform : Platform) (jitter : ℕ → ℕ) (now : ℕ) where
  settle_one-id :
      (o : Option DeliveryError) (e : OutboundEvent) (r : DeliveryReport)
      → (settle_one jitter now o e r).0.id ≡ e.id
  unfolding settle_one fail_one
  settle_one-id none e r = refl
  settle_one-id (some error) e r = ground arith

  settle_one-report :
      (o : Option DeliveryError) (e : OutboundEvent) (r r' : DeliveryReport)
      → (settle_one jitter now o e r).0 ≡ (settle_one jitter now o e r').0
  unfolding settle_one fail_one
  settle_one-report none e r r' = refl
  settle_one-report (some error) e r r' = elim (Bool-cases (leb max_attempts (e.attempts + 1))) [
    | inl last ↦ rw last refl
    | inr early ↦ rw early refl
  ]

  deliver_one-id :
      (e : OutboundEvent) (r : DeliveryReport) → (deliver_one platform jitter now e r).0.id ≡ e.id
  unfolding deliver_one
  deliver_one-id e r = settle_one-id (error_of (platform e.id)) e r

  with_id-deliver_each :
      (k : ℕ) (claimed events : List OutboundEvent) (r : DeliveryReport)
      → with_id k claimed ≡ []
      → with_id k (deliver_each platform jitter now claimed (events, r)).0 ≡ with_id k events
  unfolding deliver_each
  with_id-deliver_each k [] events r h = refl
  with_id-deliver_each k (e ∷ claimed) events r h = elim (Bool-cases (e.id == k)) [
    | inl hit ↦ absurd (cc (rw hit at h))
    | inr miss ↦
        with_id-deliver_each k claimed
          (map (stored_event (deliver_one platform jitter now e r).0) events)
          (deliver_one platform jitter now e r).1 (rw miss at h)
        ∙ keyed-put_back (λ e. e.id) k (deliver_one platform jitter now e r).0 events
            (ap (λ i. i == k) (deliver_one-id e r) ∙ miss)
  ]

  -- The report counts every event that is settled.
  pub settled_count : DeliveryReport → ℕ
  settled_count r = r.delivered_count + r.retried_count + r.dead_count

  settle_one-counts :
      (o : Option DeliveryError) (e : OutboundEvent) (r : DeliveryReport)
      → settled_count (settle_one jitter now o e r).1 ≡ suc (settled_count r)
  unfolding settle_one fail_one settled_count
  settle_one-counts none e r = omega arith
  settle_one-counts (some error) e r = ground arith

  deliver_each-counts :
      (claimed events : List OutboundEvent) (r : DeliveryReport)
      → settled_count (deliver_each platform jitter now claimed (events, r)).1
        ≡ length claimed + settled_count r
  unfolding deliver_each deliver_one
  deliver_each-counts [] events r = omega arith
  deliver_each-counts (e ∷ claimed) events r =
      deliver_each-counts claimed
        (map (stored_event (deliver_one platform jitter now e r).0) events)
        (deliver_one platform jitter now e r).1
      ∙ ap (λ n. length claimed + n) (settle_one-counts (error_of (platform e.id)) e r)
      ∙ moved (length claimed) (settled_count r)

  none_of :
      (e : OutboundEvent) → is_claimable now e ≡ false → select (is_claimable now) (e ∷ []) ≡ []
  none_of e h = rw h refl

  claim-none :
      (k limit : ℕ) (events : List OutboundEvent)
      → with_id k (select (is_claimable now) events) ≡ []
      → with_id k (claim limit now events) ≡ []
  unfolding claim
  claim-none k limit events h =
      select-first_of (λ e. e.id == k) limit (by_next_attempt (select (is_claimable now) events))
        (select-by_next_attempt (λ e. e.id == k) (select (is_claimable now) events) h)

  deliver_one-report :
      (e : OutboundEvent) (r r' : DeliveryReport)
      → (deliver_one platform jitter now e r).0 ≡ (deliver_one platform jitter now e r').0
  unfolding deliver_one
  deliver_one-report e r r' = settle_one-report (error_of (platform e.id)) e r r'

  with_id-claimed :
      (e : OutboundEvent) (claimed events : List OutboundEvent) (r : DeliveryReport)
      → with_id e.id claimed ≡ e ∷ []
      → with_id e.id events ≡ e ∷ []
      → with_id e.id (deliver_each platform jitter now claimed (events, r)).0
        ≡ (deliver_one platform jitter now e nothing_done).0 ∷ []
  unfolding deliver_each
  with_id-claimed e [] events r h g = absurd (cc)
  with_id-claimed e (f ∷ claimed) events r h g = elim (Bool-cases (f.id == e.id)) [
    | inl hit ↦
        let (first, rest) = keyed-alone (λ e. e.id) e.id f e claimed hit h in
        with_id-deliver_each e.id claimed
          (map (stored_event (deliver_one platform jitter now f r).0) events)
          (deliver_one platform jitter now f r).1 rest
        ∙ keyed-replaced (λ e. e.id) e (deliver_one platform jitter now f r).0 events
            (deliver_one-id f r ∙ ap (λ x. x.id) first) g
        ∙ ap (λ x. x ∷ [])
            (ap (λ x. (deliver_one platform jitter now x r).0) first
              ∙ deliver_one-report e r nothing_done)
    | inr miss ↦
        with_id-claimed e claimed
          (map (stored_event (deliver_one platform jitter now f r).0) events)
          (deliver_one platform jitter now f r).1 (rw miss at h)
          (keyed-put_back (λ e. e.id) e.id (deliver_one platform jitter now f r).0 events
              (ap (λ i. i == e.id) (deliver_one-id f r) ∙ miss)
            ∙ g)
  ]

  -- A run writes no row that was not due: of an event that is no longer pending, or whose time has not
  -- come, and whose id no other row has, the table has the same row afterwards, whatever the
  -- platform answers and whether or not one is configured.
  pub deliver_pending-keeps :
      (on : Bool) (limit : ℕ) (events : List OutboundEvent) (e : OutboundEvent)
      → with_id e.id events ≡ e ∷ []
      → is_claimable now e ≡ false
      → with_id e.id (deliver_pending on platform jitter limit now events).0 ≡ e ∷ []
  unfolding deliver_pending
  deliver_pending-keeps false limit events e h g = h
  deliver_pending-keeps true limit events e h g =
      with_id-deliver_each e.id (claim limit now events) events nothing_done (
        claim-none e.id limit events (
          select-select (λ f. f.id == e.id) (is_claimable now) events
          ∙ ap (select (is_claimable now)) h
          ∙ none_of e g))
      ∙ h

  -- A run attempts every event that it claims: of one whose id no other row has, the table then has
  -- the row that the attempt leaves.
  pub deliver_pending-attempts :
      (limit : ℕ) (events : List OutboundEvent) (e : OutboundEvent)
      → with_id e.id events ≡ e ∷ []
      → with_id e.id (claim limit now events) ≡ e ∷ []
      → with_id e.id (deliver_pending true platform jitter limit now events).0
        ≡ (deliver_one platform jitter now e nothing_done).0 ∷ []
  unfolding deliver_pending
  deliver_pending-attempts limit events e h g =
      with_id-claimed e (claim limit now events) events nothing_done g h

  length-first_of : (n : ℕ) (events : List OutboundEvent) → length (first_of n events) ≤ n
  unfolding first_of
  length-first_of zero events = omega arith
  length-first_of (suc n) [] = omega arith
  length-first_of (suc n) (e ∷ events) = let h = length-first_of n events in omega arith

  -- The report of a run accounts for the events claimed, each once: those delivered, those to be tried
  -- again and those given up are together as many as the claimed ones, which are at most the limit.
  pub deliver_pending-counts :
      (limit : ℕ) (events : List OutboundEvent)
      → (settled_count (deliver_pending true platform jitter limit now events).1
          ≡ length (claim limit now events))
        × (length (claim limit now events) ≤ limit)
  unfolding deliver_pending settled_count claim
  deliver_pending-counts limit events = (
    deliver_each-counts (claim limit now events) events nothing_done
        ∙ none_before (length (claim limit now events)),
    length-first_of limit (by_next_attempt (select (is_claimable now) events)),
  )
