-- ===== src/Outbound.antt =====
-- The delivery of queued events to the platform
-- (src/crypto_processing_api/workers/outbound_delivery.py).
--
-- The platform is a parameter: what it answers to an event, or that the client raises. The body and
-- its signature are not modelled, so that an event has its id and what the worker writes.
pub mod Attempts
pub mod Rows
pub mod Queue
use crypto_processing_api.Prelude.{
  ℕ, zero, suc, ◌+◌, ◌-◌, ◌≡◌, refl, Bool, true, false, ◌&&◌, Option, none, some, List, [], ◌∷◌,
  map, if◌then◌else◌, ◌==◌, ltb, leb, find, select,
}

-- STATUS_PENDING, STATUS_DELIVERED, STATUS_DEAD
pub data OutboundStatus : Type 0 where
  pending delivered dead : OutboundStatus

-- What `last_error` says: the status code of an answer, or that the client raised.
pub data DeliveryError : Type 0 where
  http_status : ℕ → DeliveryError
  http_error : DeliveryError

pub record OutboundEvent : Type 0 where
  pub id : ℕ
  pub status : OutboundStatus
  pub attempts : ℕ
  pub next_attempt_at : ℕ
  pub last_error : Option DeliveryError

abbrev pub backoff_seconds : List ℕ
backoff_seconds = 60 ∷ 300 ∷ 1800 ∷ 7200 ∷ 21600 ∷ 43200 ∷ 43200 ∷ 43200 ∷ 43200 ∷ 43200 ∷ []

-- len(BACKOFF_SECONDS)
abbrev pub max_attempts : ℕ
max_attempts = 10

element : List ℕ → ℕ → ℕ
element [] n = 0
element (x ∷ xs) zero = x
element (x ∷ xs) (suc n) = element xs n

-- BACKOFF_SECONDS[min(attempts, MAX_ATTEMPTS - 1)]
unfoldable pub delay_of : ℕ → ℕ
unfolding element
delay_of attempts =
    element backoff_seconds (if ltb attempts (max_attempts - 1) then attempts else max_attempts - 1)

-- `jitter` is the delay with `random.uniform(-jitter, jitter)` added.
unfoldable pub next_attempt : (ℕ → ℕ) → ℕ → ℕ → ℕ
next_attempt jitter attempts now = now + jitter (delay_of attempts)

pub record DeliveryReport : Type 0 where
  pub delivered_count : ℕ
  pub retried_count : ℕ
  pub dead_count : ℕ
  pub skipped_count : ℕ

abbrev pub nothing_done : DeliveryReport
nothing_done = record { delivered_count = 0; retried_count = 0; dead_count = 0; skipped_count = 0 }

-- What comes back of an attempt: a status code, unless the client raises.
abbrev pub Platform : Type 0
Platform = ℕ → Option ℕ

-- 200 <= response.status_code < 300
unfoldable pub is_success : ℕ → Bool
is_success code = leb 200 code && ltb code 300

-- The error of an attempt that did not deliver.
unfoldable pub error_of : Option ℕ → Option DeliveryError
error_of none = some DeliveryError.http_error
error_of (some code) = if is_success code then none else some (DeliveryError.http_status code)

-- An attempt that failed.
unfoldable pub fail_one :
    (ℕ → ℕ) → ℕ → DeliveryError → OutboundEvent → DeliveryReport → OutboundEvent × DeliveryReport
fail_one jitter now error e report =
    let attempts = e.attempts + 1 in
    if leb max_attempts attempts
    then (
      record e { attempts = attempts; last_error = some error; status = dead },
      record report { dead_count = report.dead_count + 1 },
    )
    else (
      record e {
        attempts = attempts;
        last_error = some error;
        next_attempt_at = next_attempt jitter attempts now;
      },
      record report { retried_count = report.retried_count + 1 },
    )

settle_one :
    (ℕ → ℕ)
    → ℕ
    → Option DeliveryError
    → OutboundEvent
    → DeliveryReport
    → OutboundEvent × DeliveryReport
settle_one jitter now none e report = (
  record e { status = delivered; attempts = e.attempts + 1; last_error = none },
  record report { delivered_count = report.delivered_count + 1 },
)
settle_one jitter now (some error) e report = fail_one jitter now error e report

-- `_deliver_one`
unfoldable pub deliver_one :
    Platform → (ℕ → ℕ) → ℕ → OutboundEvent → DeliveryReport → OutboundEvent × DeliveryReport
unfolding settle_one
deliver_one platform jitter now e report = settle_one jitter now (error_of (platform e.id)) e report

unfoldable pub is_pending : OutboundStatus → Bool
is_pending pending = true
is_pending _ = false

-- `_claim`: the pending events whose time has come, the ones that have waited longest first.
unfoldable pub is_claimable : ℕ → OutboundEvent → Bool
is_claimable now e = is_pending e.status && leb e.next_attempt_at now

unfoldable pub insert_event : OutboundEvent → List OutboundEvent → List OutboundEvent
insert_event e [] = e ∷ []
insert_event e (f ∷ events) =
    let rest = insert_event e events in
    if leb e.next_attempt_at f.next_attempt_at then e ∷ f ∷ events else f ∷ rest

unfoldable pub by_next_attempt : List OutboundEvent → List OutboundEvent
unfolding insert_event
by_next_attempt [] = []
by_next_attempt (e ∷ events) = insert_event e (by_next_attempt events)

unfoldable pub first_of : ℕ → List OutboundEvent → List OutboundEvent
first_of zero events = []
first_of (suc n) [] = []
first_of (suc n) (e ∷ events) = e ∷ first_of n events

unfoldable pub claim : ℕ → ℕ → List OutboundEvent → List OutboundEvent
unfolding by_next_attempt first_of
claim limit now events = first_of limit (by_next_attempt (select (is_claimable now) events))

abbrev pub stored_event : OutboundEvent → OutboundEvent → OutboundEvent
stored_event e row = if row.id == e.id then e else row

-- The loop over the claimed events.
unfoldable pub deliver_each :
    Platform
    → (ℕ → ℕ)
    → ℕ
    → List OutboundEvent
    → List OutboundEvent × DeliveryReport
    → List OutboundEvent × DeliveryReport
deliver_each platform jitter now [] (events, report) = (events, report)
deliver_each platform jitter now (e ∷ claimed) (events, report) =
    let (e', report') = deliver_one platform jitter now e report in
    deliver_each platform jitter now claimed (map (stored_event e') events, report')

-- `deliver_pending`: nothing is done while no platform is configured.
unfoldable pub deliver_pending :
    Bool → Platform → (ℕ → ℕ) → ℕ → ℕ → List OutboundEvent → List OutboundEvent × DeliveryReport
deliver_pending false platform jitter limit now events = (events, nothing_done)
deliver_pending true platform jitter limit now events =
    deliver_each platform jitter now (claim limit now events) (events, nothing_done)

is_delivered : OutboundStatus → Bool
is_delivered delivered = true
is_delivered _ = false

requeued : ℕ → Option OutboundEvent → List OutboundEvent → Bool × List OutboundEvent
requeued now none events = (false, events)
requeued now (some e) events = if is_delivered e.status then (false, events) else (
  true,
  map (stored_event (record e { status = pending; attempts = 0; next_attempt_at = now })) events,
)

-- `requeue`: whether there was an event to put back.
unfoldable pub requeue : ℕ → ℕ → List OutboundEvent → Bool × List OutboundEvent
unfolding requeued is_delivered
requeue k now events = requeued now (find (λ e. e.id == k) events) events
