-- ===== src/Webhooks/Claimed.antt =====
-- Which webhook a round of the queue claims.
use crypto_processing_api.Prelude.{
  ℕ, ◌≡◌, refl, ap, subst, Bool, true, Option, none, some, List, [], ◌∷◌, find, select, ◌==◌, leb,
  Bool-cases, inl, inr, All, keyed, keyed-alone,
}
use crypto_processing_api.Webhooks.{WebhookEvent}
use crypto_processing_api.Webhooks.Queue.{is_claimable, earliest, sooner, claim}

abbrev pub with_id : ℕ → List WebhookEvent → List WebhookEvent
with_id k events = keyed (λ e. e.id) k events

-- What holds of every row holds of the one that is claimed.
module _ (P : WebhookEvent → Type 0) where
  sooner-All :
      (e : WebhookEvent) (o : Option WebhookEvent)
      → P e
      → ((f : WebhookEvent) → o ≡ some f → P f)
      → P (sooner e o)
  sooner-All e none p h = p
  sooner-All e (some f) p h = elim (Bool-cases (leb e.received_at f.received_at)) [
    | inl hit ↦ rw hit p
    | inr miss ↦ rw miss (h f refl)
  ]

  earliest-All :
      (events : List WebhookEvent) (c : WebhookEvent)
      → All P events
      → earliest events ≡ some c
      → P c
  unfolding earliest
  earliest-All [] c all h = absurd (cc)
  earliest-All (e ∷ events) c (p, all) h =
      let same : sooner e (earliest events) ≡ c = cc in
      subst P same (sooner-All e (earliest events) p (λ f g. earliest-All events f all g))

  select-All :
      (q : WebhookEvent → Bool) (events : List WebhookEvent)
      → ((e : WebhookEvent) → q e ≡ true → P e)
      → All P (select q events)
  select-All q [] h = tt
  select-All q (e ∷ events) h = elim (Bool-cases (q e)) [
    | inl hit ↦ rw hit (h e hit, select-All q events h)
    | inr miss ↦ rw miss (select-All q events h)
  ]

  select-kept :
      (q : WebhookEvent → Bool) (events : List WebhookEvent)
      → All P events
      → All P (select q events)
  select-kept q [] all = tt
  select-kept q (e ∷ events) (p, all) = elim (Bool-cases (q e)) [
    | inl hit ↦ rw hit (p, select-kept q events all)
    | inr miss ↦ rw miss (select-kept q events all)
  ]

-- The rows of an id are the one that it has.
none-All :
    (k : ℕ) (e : WebhookEvent) (events : List WebhookEvent)
    → with_id k events ≡ []
    → All (λ f. (f.id == k) ≡ true → f ≡ e) events
none-All k e [] h = tt
none-All k e (f ∷ events) h = elim (Bool-cases (f.id == k)) [
  | inl hit ↦ absurd (cc (rw hit at h))
  | inr miss ↦ (λ g. absurd (cc), none-All k e events (rw miss at h))
]

alone-All :
    (k : ℕ) (e : WebhookEvent) (events : List WebhookEvent)
    → with_id k events ≡ e ∷ []
    → All (λ f. (f.id == k) ≡ true → f ≡ e) events
alone-All k e [] h = absurd (cc)
alone-All k e (f ∷ events) h = elim (Bool-cases (f.id == k)) [
  | inl hit ↦
      let (same, rest) = keyed-alone (λ x. x.id) k f e events hit h in
      (λ g. same, none-All k e events rest)
  | inr miss ↦ (λ g. absurd (cc), alone-All k e events (rw miss at h))
]

pub claim-IsClaimable :
    (d : List ℕ) (events : List WebhookEvent) (c : WebhookEvent)
    → claim d events ≡ some c
    → is_claimable d c ≡ true
unfolding claim
claim-IsClaimable d events c h =
    earliest-All (λ e. is_claimable d e ≡ true) (select (is_claimable d) events) c
      (select-All (λ e. is_claimable d e ≡ true) (is_claimable d) events (λ e g. g)) h

pub claim-same :
    (d : List ℕ) (events : List WebhookEvent) (c e : WebhookEvent) (k : ℕ)
    → claim d events ≡ some c
    → with_id k events ≡ e ∷ []
    → (c.id == k) ≡ true
    → c ≡ e
unfolding claim
claim-same d events c e k h alone =
    earliest-All (λ f. (f.id == k) ≡ true → f ≡ e) (select (is_claimable d) events) c
      (select-kept (λ f. (f.id == k) ≡ true → f ≡ e) (is_claimable d) events
        (alone-All k e events alone))
      h

pub find-with_id :
    (k : ℕ) (e : WebhookEvent) (events : List WebhookEvent)
    → with_id k events ≡ e ∷ []
    → find (λ f. f.id == k) events ≡ some e
find-with_id k e [] h = absurd (cc)
find-with_id k e (f ∷ events) h = elim (Bool-cases (f.id == k)) [
  | inl hit ↦ let (same, rest) = keyed-alone (λ x. x.id) k f e events hit h in rw hit (ap some same)
  | inr miss ↦ rw miss (find-with_id k e events (rw miss at h))
]
