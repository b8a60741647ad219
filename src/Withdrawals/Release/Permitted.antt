-- ===== src/Withdrawals/Release/Permitted.antt =====
-- When a hold is given back, and what becomes of the withdrawal.
use crypto_processing_api.Prelude.{◌≡◌, ◌⊎◌, inl, inr, true, Option, Bool-cases}
use crypto_processing_api.Errors.{ok}
use crypto_processing_api.Exec.Keeps.{continue-eq-ok}
use crypto_processing_api.Models.{Status}
use crypto_processing_api.Core.Text.{Text}
use crypto_processing_api.Withdrawals.Rows.{Actor, Withdrawal, Db}
use crypto_processing_api.Withdrawals.Transitions.{is_auto_releasable, is_attested_releasable}
use crypto_processing_api.Withdrawals.Release.{
  signed, is_attestation, release_permitted, release_once, release_hold,
}

-- Money that never left, or a written attestation that it did not.
abbrev pub MayRelease : Status → Option Text → Type 0
MayRelease status attestation =
    (is_auto_releasable status ≡ true)
    ⊎ ((is_attested_releasable status ≡ true) × (is_attestation attestation ≡ true))

permitted-MayRelease :
    (status : Status) (attestation : Option Text)
    → release_permitted status attestation ≡ ok tt
    → MayRelease status attestation
unfolding release_permitted
permitted-MayRelease status attestation h = elim (Bool-cases (is_attested_releasable status)) [
  | inl attested ↦ elim (Bool-cases (is_attestation attestation)) [
    | inl signed ↦ inr (attested, signed)
    | inr unsigned ↦ absurd (cc (rw (attested, unsigned) at h))
  ]
  | inr other ↦ elim (Bool-cases (is_auto_releasable status)) [
    | inl auto ↦ inl auto
    | inr never ↦ absurd (cc (rw (other, never) at h))
  ]
]

-- A release that returns was permitted: the withdrawal was in a status in which nothing had been
-- sent, or in one that an attestation releases and there was an attestation with text in it.
pub release_hold-MayRelease :
    (w : Withdrawal) (actor : Actor) (attestation : Option Text) (s s' : Db) (v : Withdrawal)
    → release_hold w actor attestation s ≡ (ok v, s')
    → MayRelease w.status attestation
unfolding release_hold
release_hold-MayRelease w actor attestation s s' v h =
    let (u, s₁, checked, rest) =
      continue-eq-ok (release_permitted w.status attestation, s)
        (λ _. release_once w.release_entry_id w actor attestation) h in
    permitted-MayRelease w.status attestation (cc)
