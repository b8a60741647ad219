-- ===== src/Webhooks/Once.antt =====
-- How often a run over the queue tries a webhook.
use crypto_processing_api.Prelude.{
  ℕ, zero, suc, ◌+◌, ◌≤◌, ◌≡◌, refl, sym, ◌∙◌, ap, subst, true, false, Option, none, some, List, [],
  ◌∷◌, find, if◌then◌else◌, ◌==◌, Bool-cases, inl, inr, arith, keyed-put_back, find-true,
}
use crypto_processing_api.Errors.{Error, Result, ok, err}
use crypto_processing_api.Withdrawals.Rows.{Db}
use crypto_processing_api.Webhooks.{WebhookEvent, WebhookStatus, Rails, handle_event}
use crypto_processing_api.Webhooks.Queue.{
  Inbox, Pass, is_claimable, claim, is_gone, failed_event, record_on, record_failure,
  conclude_event, process_rounds, process_pending, no_events,
}
use crypto_processing_api.Webhooks.Outcomes.{IsOutcome, handle_event-IsOutcome}
use crypto_processing_api.Webhooks.Claimed.{with_id, claim-IsClaimable, claim-same, find-with_id}
use crypto_processing_api.Webhooks.Stands.{
  Stands, failed_event-attempts, failed_event-closed, is_claimable-deferred, Stands-written,
  Stands-other,
}

-- The deferred events after a failure.
abbrev later : Error → ℕ → List ℕ → List ℕ
later error j d = if is_gone error then d else j ∷ d

eq_at : (a b : ℕ) → (a == b) ≡ true → a ≡ b
eq_at a b h = ground arith

other_at : (a b k : ℕ) → (a == b) ≡ true → (b == k) ≡ false → (a == k) ≡ false
other_at a b k h g = ground arith

module _ (n m k : ℕ) (r : Pass) (s : Stands n k r) (c : WebhookEvent) where
  -- The event that is claimed has been tried no more often than before the run.
  claimed-few :
      claim r.deferred r.inbox.webhooks ≡ some c
      → (c.id == k) ≡ true
      → (c.attempts ≤ n) × (with_id k r.inbox.webhooks ≡ c ∷ [])
  claimed-few h hit =
      let same = claim-same r.deferred r.inbox.webhooks c s.event k h s.alone hit in
      (
        subst (λ e. e.attempts ≤ n) (sym same)
            (s.open_for (
              subst (λ e. is_claimable r.deferred e ≡ true) same
                (claim-IsClaimable r.deferred r.inbox.webhooks c h))),
        s.alone ∙ ap (λ e. e ∷ []) (sym same),
      )

  conclude_ok-Stands :
      (outcome : WebhookStatus) (db : Db)
      → claim r.deferred r.inbox.webhooks ≡ some c
      → IsOutcome outcome
      → Stands n k (conclude_event m c (ok outcome, db) r)
  unfolding conclude_event IsOutcome is_claimable
  conclude_ok-Stands outcome db h done = elim (Bool-cases (c.id == k)) [
    | inl hit ↦
        let (few, alone) = claimed-few h hit in
        Stands-written n k r (conclude_event m c (ok outcome, db) r) c
          (record c { status = outcome; processed_at = some db.now; attempts = c.attempts + 1 })
          (eq_at c.id k hit) refl alone refl (omega arith) (rw done refl)
    | inr miss ↦
        Stands-other n k r (conclude_event m c (ok outcome, db) r) s
          (keyed-put_back (λ x. x.id) k
            (record c { status = outcome; processed_at = some db.now; attempts = c.attempts + 1 })
            r.inbox.webhooks miss)
          (λ g. g)
  ]

  -- The row that the failure is recorded on.
  recorded-Stands :
      (error : Error) (o : Option WebhookEvent)
      → claim r.deferred r.inbox.webhooks ≡ some c
      → find (λ e. e.id == c.id) r.inbox.webhooks ≡ o
      → Stands n k (
          record_on
            (c.attempts + 1)
            m
            error
            (is_gone error)
            (record r { deferred = later error c.id r.deferred })
            o)
  unfolding record_on
  recorded-Stands error none h found =
      Stands-other n k r (record r { deferred = later error c.id r.deferred }) s refl
        (is_claimable-deferred error c.id r.deferred s.event)
  recorded-Stands error (some f) h found =
      let at_c = find-true (λ e. e.id == c.id) r.inbox.webhooks found in
      let written = failed_event r.inbox.db.now (c.attempts + 1) m error (is_gone error) f in
      let tried = failed_event-attempts r.inbox.db.now (c.attempts + 1) m error (is_gone error) f in
      elim (Bool-cases (c.id == k)) [
        | inl hit ↦
            let (few, alone) = claimed-few h hit in
            let known =
              subst (λ j. find (λ e. e.id == j) r.inbox.webhooks ≡ some c) (sym (eq_at c.id k hit))
                (find-with_id k c r.inbox.webhooks alone) in
            let same : f ≡ c = cc in
            Stands-written n k r
              (record_on (c.attempts + 1) m error (is_gone error)
                (record r { deferred = later error c.id r.deferred }) (some f))
              f written (eq_at f.id c.id at_c ∙ eq_at c.id k hit) tried.1
              (alone ∙ ap (λ e. e ∷ []) (sym same)) refl
              (subst (λ a. a ≤ n + 1) (sym tried.0) (omega arith))
              (subst (λ j. is_claimable (later error j r.deferred) written ≡ false)
                (eq_at f.id c.id at_c)
                (failed_event-closed r.inbox.db.now (c.attempts + 1) m error f r.deferred))
        | inr miss ↦
            Stands-other n k r
              (record_on (c.attempts + 1) m error (is_gone error)
                (record r { deferred = later error c.id r.deferred }) (some f))
              s
              (keyed-put_back (λ x. x.id) k written r.inbox.webhooks
                (ap (λ i. i == k) tried.1 ∙ other_at f.id c.id k at_c miss))
              (is_claimable-deferred error c.id r.deferred s.event)
      ]

  conclude_err-Stands :
      (error : Error) (db : Db)
      → claim r.deferred r.inbox.webhooks ≡ some c
      → Stands n k (conclude_event m c (err error, db) r)
  unfolding conclude_event record_failure
  conclude_err-Stands error db h =
      recorded-Stands error (find (λ e. e.id == c.id) r.inbox.webhooks) h refl

  conclude-Stands :
      (run : Result WebhookStatus × Db)
      → claim r.deferred r.inbox.webhooks ≡ some c
      → ((outcome : WebhookStatus) (db : Db) → run ≡ (ok outcome, db) → IsOutcome outcome)
      → Stands n k (conclude_event m c run r)
  conclude-Stands (ok outcome, db) h done = conclude_ok-Stands outcome db h (done outcome db refl)
  conclude-Stands (err error, db) h done = conclude_err-Stands error db h

next-Stands :
    (n k : ℕ) (o : Option WebhookEvent) (r : Pass) (f : WebhookEvent → Pass)
    → Stands n k r
    → ((c : WebhookEvent) → o ≡ some c → Stands n k (f c))
    → Stands n k (elim o as (λ x. Pass) [ none ↦ r | some c ↦ f c ])
next-Stands n k none r f s h = s
next-Stands n k (some c) r f s h = h c refl

process_rounds-Stands :
    (rails : Rails) (m n k limit : ℕ) (r : Pass)
    → Stands n k r
    → Stands n k (process_rounds rails m limit r)
unfolding process_rounds
process_rounds-Stands rails m n k zero r s = s
process_rounds-Stands rails m n k (suc limit) r s =
    next-Stands n k (claim r.deferred r.inbox.webhooks) r
      (λ c. process_rounds rails m limit (conclude_event m c (handle_event rails c r.inbox.db) r)) s
      (λ c h.
        process_rounds-Stands rails m n k limit
          (conclude_event m c (handle_event rails c r.inbox.db) r)
          (conclude-Stands n m k r s c (handle_event rails c r.inbox.db) h
            (λ outcome db g. (handle_event-IsOutcome rails c).at r.inbox.db g)))

-- A run tries a webhook at most once, however large its limit and whatever is answered: of an event
-- whose id no other row has, the table has one row afterwards, with at most one attempt more.
pub process_pending_once :
    (rails : Rails) (limit max_attempts : ℕ) (inbox : Inbox) (e : WebhookEvent)
    → with_id e.id inbox.webhooks ≡ e ∷ []
    → (e' : WebhookEvent) × (with_id e.id
          (process_pending rails limit max_attempts inbox).0.webhooks
        ≡ e' ∷ [])
      × (e'.attempts ≤ e.attempts + 1)
unfolding process_pending
process_pending_once rails limit max_attempts inbox e h =
    let start : Pass = record { inbox = inbox; deferred = []; report = no_events } in
    let begun : Stands e.attempts e.id start = record {
      event = e;
      alone = h;
      bounded = omega arith;
      open_for = λ g. omega arith;
    } in
    let s = process_rounds-Stands rails max_attempts e.attempts e.id limit start begun in
    (s.event, s.alone, s.bounded)
