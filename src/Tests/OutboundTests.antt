-- ===== src/Tests/OutboundTests.antt =====
-- Deliveries of events to a platform that is up or down.
use crypto_processing_api.Prelude.{
  ℕ, ◌≡◌, refl, true, false, none, some, List, [], ◌∷◌, ◌==◌, if◌then◌else◌,
}
use crypto_processing_api.Outbound.{
  OutboundEvent, pending, delivered, http_status, http_error, Platform, nothing_done, deliver_one,
  deliver_each, claim, deliver_pending, requeue, is_claimable, is_pending, error_of, fail_one,
  is_success, next_attempt, delay_of,
}
use crypto_processing_api.Outbound.Attempts.{attempted, IsTried, attempted-fails}
use crypto_processing_api.Outbound.Rows.{with_id}
use crypto_processing_api.Outbound.Queue.{deliver_pending-attempts, deliver_pending-keeps}

abbrev event : ℕ → ℕ → OutboundEvent
event k due = record {
  id = k;
  status = pending;
  attempts = 0;
  next_attempt_at = due;
  last_error = none;
}

abbrev done : OutboundEvent
done = record { id = 3; status = delivered; attempts = 1; next_attempt_at = 0; last_error = none }

abbrev queue : List OutboundEvent
queue = event 1 50 ∷ event 2 20 ∷ done ∷ event 4 900 ∷ []

-- The platform takes event 1 only.
abbrev platform : Platform
platform k = if k == 1 then some 204 else some 503

abbrev down : Platform
down k = none

abbrev exact : ℕ → ℕ
exact delay = delay

-- The event that has waited longest comes first, within the limit.
claims : claim 2 100 queue ≡ event 2 20 ∷ event 1 50 ∷ []
unfolding claim is_claimable is_pending
claims = refl

after_run :
    (deliver_pending true platform exact 20 100 queue).0
    ≡ record (event 1 50) { status = delivered; attempts = 1 }
      ∷ record (event 2 20) {
        attempts = 1;
        next_attempt_at = 400;
        last_error = some (http_status 503);
      }
      ∷ done
      ∷ event 4 900
      ∷ []
unfolding deliver_pending deliver_each deliver_one claim is_claimable is_pending error_of fail_one
    is_success next_attempt delay_of
after_run = refl

requeue_delivered : requeue 3 100 queue ≡ (false, queue)
unfolding requeue
requeue_delivered = refl

attempted-fails_example : IsTried 3 (attempted down exact (0 ∷ 300 ∷ 2100 ∷ []) (event 1 0))
unfolding error_of
attempted-fails_example =
    attempted-fails down exact (0 ∷ 300 ∷ 2100 ∷ []) (event 1 0) http_error refl refl refl

deliver_pending-attempts_example :
    with_id 2 (deliver_pending true platform exact 20 100 queue).0
    ≡ (deliver_one platform exact 100 (event 2 20) nothing_done).0 ∷ []
unfolding claim is_claimable is_pending
deliver_pending-attempts_example =
    deliver_pending-attempts platform exact 100 20 queue (event 2 20) refl refl

deliver_pending-keeps_example :
    with_id 4 (deliver_pending true platform exact 20 100 queue).0 ≡ event 4 900 ∷ []
unfolding is_claimable is_pending
deliver_pending-keeps_example =
    deliver_pending-keeps platform exact 100 true 20 queue (event 4 900) refl refl
