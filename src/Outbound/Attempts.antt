-- ===== src/Outbound/Attempts.antt =====
-- How often an event is attempted.
use crypto_processing_api.Prelude.{
  ℕ, suc, ◌+◌, ◌≤◌, ◌<◌, ◌≡◌, refl, ◌∙◌, ap, true, false, some, List, [], ◌∷◌, if◌then◌else◌, leb,
  ltb, lt→ltb, subst, length, Bool-cases, inl, inr, arith,
}
use crypto_processing_api.Outbound.{
  OutboundEvent, pending, dead, DeliveryError, DeliveryReport, Platform, nothing_done, max_attempts,
  delay_of, error_of, fail_one, settle_one, deliver_one, is_pending,
}

-- An event as the worker attempts it again and again, at each time that it has come up.
unfoldable pub attempted : Platform → (ℕ → ℕ) → List ℕ → OutboundEvent → OutboundEvent
attempted platform jitter [] e = e
attempted platform jitter (now ∷ times) e =
    let more = attempted platform jitter times (deliver_one platform jitter now e nothing_done).0 in
    if is_pending e.status then more else e

-- The first delay is never used: the first retry follows the first attempt by the second.
first_delay : delay_of 1 ≡ 300
unfolding delay_of
first_delay = refl

-- The test fails.
ltb-false : (a b : ℕ) → b ≤ a → ltb a b ≡ false
ltb-false a b h = ground arith

-- The count, at the last attempt and before it.
above : (a n : ℕ) → leb max_attempts (a + 1) ≡ true → max_attempts ≤ a + suc n
above a n h = ground arith

exactly : (a : ℕ) → a < max_attempts → leb max_attempts (a + 1) ≡ true → a + 1 ≡ max_attempts
exactly a below h = ground arith

still_below : (a : ℕ) → leb max_attempts (a + 1) ≡ false → a + 1 < max_attempts
still_below a h = ground arith

shifted : (a n : ℕ) → a + 1 + n ≡ a + suc n
shifted a n = omega arith

from_zero : (a n : ℕ) → a ≡ 0 → a + n ≡ n
from_zero a n h = omega arith

-- Where an event stands after `n` attempts that all failed.
pub IsTried : ℕ → OutboundEvent → Type 0
IsTried n e =
    (e.status ≡ (if ltb n max_attempts then pending else dead))
    × (e.attempts ≡ (if ltb n max_attempts then n else max_attempts))

IsTried-few :
    (n : ℕ) (e : OutboundEvent)
    → n < max_attempts
    → e.status ≡ pending
    → e.attempts ≡ n
    → IsTried n e
unfolding IsTried
IsTried-few n e below p q = rw (lt→ltb n max_attempts below) (p, q)

IsTried-many :
    (n : ℕ) (e : OutboundEvent)
    → max_attempts ≤ n
    → e.status ≡ dead
    → e.attempts ≡ max_attempts
    → IsTried n e
unfolding IsTried
IsTried-many n e above p q = rw (ltb-false n max_attempts above) (p, q)

module _ (platform : Platform) (jitter : ℕ → ℕ) where
  -- An event that is dead is left alone.
  attempted-dead :
      (times : List ℕ) (e : OutboundEvent) → e.status ≡ dead → attempted platform jitter times e ≡ e
  unfolding attempted is_pending
  attempted-dead [] e h = refl
  attempted-dead (now ∷ times) e h = rw h refl

  deliver_one_fails :
      (now : ℕ) (e : OutboundEvent) (error : DeliveryError)
      → error_of (platform e.id) ≡ some error
      → (deliver_one platform jitter now e nothing_done).0
        ≡ (fail_one jitter now error e nothing_done).0
  unfolding deliver_one settle_one
  deliver_one_fails now e error h = rw h refl

  attempted-pending :
      (now : ℕ) (times : List ℕ) (e : OutboundEvent)
      → e.status ≡ pending
      → attempted platform jitter (now ∷ times) e
        ≡ attempted platform jitter times (deliver_one platform jitter now e nothing_done).0
  unfolding attempted is_pending
  attempted-pending now times e h = rw h refl

  -- The last attempt that fails parks the event.
  fail_one-dead :
      (now : ℕ) (e : OutboundEvent) (error : DeliveryError) (r : DeliveryReport)
      → leb max_attempts (e.attempts + 1) ≡ true
      → ((fail_one jitter now error e r).0.status ≡ dead)
        × ((fail_one jitter now error e r).0.attempts ≡ e.attempts + 1)
  unfolding fail_one
  fail_one-dead now e error r h = rw h (refl, refl)

  -- Before that a failure leaves it in the queue.
  fail_one-early :
      (now : ℕ) (e : OutboundEvent) (error : DeliveryError) (r : DeliveryReport)
      → leb max_attempts (e.attempts + 1) ≡ false
      → ((fail_one jitter now error e r).0.status ≡ e.status)
        × ((fail_one jitter now error e r).0.attempts ≡ e.attempts + 1)
        × ((fail_one jitter now error e r).0.id ≡ e.id)
  unfolding fail_one
  fail_one-early now e error r h = rw h (refl, refl, refl)

  -- From `n` attempts on, below the most.
  attempted_from :
      (times : List ℕ) (e : OutboundEvent) (error : DeliveryError)
      → error_of (platform e.id) ≡ some error
      → e.status ≡ pending
      → e.attempts < max_attempts
      → IsTried (e.attempts + length times) (attempted platform jitter times e)
  attempted_from [] e error h p below =
      unfold attempted in IsTried-few (e.attempts + 0) e (omega arith) p (omega arith)
  attempted_from (now ∷ times) e error h p below =
      rw (attempted-pending now times e p, deliver_one_fails now e error h)
        (elim (Bool-cases (leb max_attempts (e.attempts + 1))) [
          | inl last ↦
              let (dies, counted) = fail_one-dead now e error nothing_done last in
              rw (attempted-dead times (fail_one jitter now error e nothing_done).0 dies) (
                IsTried-many (e.attempts + suc (length times))
                  (fail_one jitter now error e nothing_done).0
                  (above e.attempts (length times) last) dies
                  (counted ∙ exactly e.attempts below last))
          | inr early ↦
              let (stays, counted, same) = fail_one-early now e error nothing_done early in
              subst
                (λ n.
                  IsTried n
                    (attempted platform jitter times (fail_one jitter now error e nothing_done).0))
                (ap (λ n. n + length times) counted ∙ shifted e.attempts (length times))
                (attempted_from times (fail_one jitter now error e nothing_done).0 error
                  (ap (λ k. error_of (platform k)) same ∙ h) (stays ∙ p)
                  (rw counted (still_below e.attempts early)))
        ])

  -- A platform that fails every attempt at an event: after `n` attempts of a fresh one, each at a
  -- time of its own, it is pending with `n` attempts counted while `n` is below 10, and dead with 10
  -- from then on.
  pub attempted-fails :
      (times : List ℕ) (e : OutboundEvent) (error : DeliveryError)
      → error_of (platform e.id) ≡ some error
      → e.status ≡ pending
      → e.attempts ≡ 0
      → IsTried (length times) (attempted platform jitter times e)
  attempted-fails times e error h p fresh =
      subst (λ n. IsTried n (attempted platform jitter times e))
        (from_zero e.attempts (length times) fresh)
        (attempted_from times e error h p (rw fresh (omega arith)))
