-- ===== src/Webhooks/Stands.antt =====
-- Where a webhook stands in a pass over the queue.
use crypto_processing_api.Prelude.{
  ℕ, ◌+◌, ◌≤◌, ◌≡◌, refl, sym, ◌∙◌, ap, subst, Bool, true, false, ◌&&◌, ◌||◌, not, List, [], ◌∷◌,
  map, if◌then◌else◌, ◌==◌, leb, Bool-cases, inl, inr, keyed-replaced, ==_self,
}
use crypto_processing_api.Errors.{Error}
use crypto_processing_api.Webhooks.{WebhookEvent}
use crypto_processing_api.Webhooks.Queue.{
  Pass, is_received, is_deferred, is_claimable, is_gone, failed_event, stored_webhook,
}
use crypto_processing_api.Webhooks.Claimed.{with_id}

and_false : (b : Bool) → (b && false) ≡ false
and_false true = refl
and_false false = refl

and_or : (a b c : Bool) → (a && not (b || c)) ≡ true → (a && not c) ≡ true
and_or true true c h = absurd (cc)
and_or true false c h = h
and_or false b c h = h

-- Where the row of an id stands in a pass that found it with `n` attempts: it has at most one more, and
-- it can be claimed only while it has none more.
pub record Stands (n k : ℕ) (r : Pass) : Type 0 where
  pub event : WebhookEvent
  pub alone : with_id k r.inbox.webhooks ≡ event ∷ []
  pub bounded : event.attempts ≤ n + 1
  pub open_for : is_claimable r.deferred event ≡ true → event.attempts ≤ n

-- A row that has been tried cannot be claimed again.
pub failed_event-attempts :
    (now a m : ℕ) (error : Error) (t : Bool) (e : WebhookEvent)
    → ((failed_event now a m error t e).attempts ≡ a) × ((failed_event now a m error t e).id ≡ e.id)
unfolding failed_event
failed_event-attempts now a m error t e = elim (Bool-cases (t || leb m a)) [
  | inl stop ↦ rw stop (refl, refl)
  | inr again ↦ rw again (refl, refl)
]

pub failed_event-closed :
    (now a m : ℕ) (error : Error) (e : WebhookEvent) (d : List ℕ)
    → is_claimable
        (if is_gone error then d else e.id ∷ d)
        (failed_event now a m error (is_gone error) e)
      ≡ false
unfolding is_claimable failed_event
failed_event-closed now a m error e d = elim (Bool-cases (is_gone error)) [
  | inl gone ↦ rw gone refl
  | inr kept ↦ elim (Bool-cases (leb m a)) [
    | inl last ↦ rw (kept, last) refl
    | inr early ↦ rw (kept, early, ==_self e.id) (and_false (is_received e.status))
  ]
]

-- An event that has been deferred can be claimed no sooner.
pub is_claimable-deferred :
    (error : Error) (j : ℕ) (d : List ℕ) (e : WebhookEvent)
    → is_claimable (if is_gone error then d else j ∷ d) e ≡ true
    → is_claimable d e ≡ true
unfolding is_claimable
is_claimable-deferred error j d e h = elim (Bool-cases (is_gone error)) [
  | inl gone ↦ rw gone at h
  | inr kept ↦ and_or (is_received e.status) (j == e.id) (is_deferred e.id d) (rw kept at h)
]

-- A row that is written back replaces the one of its id.
replaced_at :
    (k : ℕ) (e e' : WebhookEvent) (events : List WebhookEvent)
    → e.id ≡ k
    → e'.id ≡ e.id
    → with_id k events ≡ e ∷ []
    → with_id k (map (stored_webhook e') events) ≡ e' ∷ []
replaced_at k e e' events at_k same h =
    subst (λ j. with_id j (map (stored_webhook e') events) ≡ e' ∷ []) at_k
      (keyed-replaced (λ x. x.id) e e' events same
        (subst (λ j. with_id j events ≡ e ∷ []) (sym at_k) h))

-- What a round writes for the event that it claimed.
pub Stands-written :
    (n k : ℕ) (r r' : Pass) (c c' : WebhookEvent)
    → c.id ≡ k
    → c'.id ≡ c.id
    → with_id k r.inbox.webhooks ≡ c ∷ []
    → r'.inbox.webhooks ≡ map (stored_webhook c') r.inbox.webhooks
    → c'.attempts ≤ n + 1
    → is_claimable r'.deferred c' ≡ false
    → Stands n k r'
Stands-written n k r r' c c' at_k same alone wrote few closed = record {
  event = c';
  alone = ap (with_id k) wrote ∙ replaced_at k c c' r.inbox.webhooks at_k same alone;
  bounded = few;
  open_for = λ h. absurd (cc);
}

-- What it writes for another.
pub Stands-other :
    (n k : ℕ) (r r' : Pass) (s : Stands n k r)
    → with_id k r'.inbox.webhooks ≡ with_id k r.inbox.webhooks
    → (is_claimable r'.deferred s.event ≡ true → is_claimable r.deferred s.event ≡ true)
    → Stands n k r'
Stands-other n k r r' s same back = record {
  event = s.event;
  alone = same ∙ s.alone;
  bounded = s.bounded;
  open_for = λ h. s.open_for (back h);
}
