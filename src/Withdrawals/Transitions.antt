-- ===== src/Withdrawals/Transitions.antt =====
-- The status graph of a withdrawal, `_transition` and `_advance`
-- (src/crypto_processing_api/services/withdrawals.py).
pub mod Graph
use crypto_processing_api.Prelude.{
  ℕ, ◌≡◌, refl, sym, ap, ◌∙◌, Bool-cases, inl, inr, Bool, true, false, if◌then◌else◌, arith,
}
use crypto_processing_api.Errors.{Result, ok, err, illegal_transition}
use crypto_processing_api.Models.{
  Status, requested, pending_approval, approved, rejected, submitting, submitted, broadcast,
  confirmed, failed, refunded,
}
use crypto_processing_api.Withdrawals.Rows.{Withdrawal}

unfoldable pub eq_status : Status → Status → Bool
eq_status requested requested = true
eq_status pending_approval pending_approval = true
eq_status approved approved = true
eq_status rejected rejected = true
eq_status submitting submitting = true
eq_status submitted submitted = true
eq_status broadcast broadcast = true
eq_status confirmed confirmed = true
eq_status failed failed = true
eq_status refunded refunded = true
eq_status _ _ = false

-- `target in _ALLOWED[status]`
unfoldable pub allowed : Status → Status → Bool
allowed requested pending_approval = true
allowed requested approved = true
allowed requested rejected = true
allowed pending_approval approved = true
allowed pending_approval rejected = true
allowed approved submitting = true
allowed approved rejected = true
allowed submitting submitted = true
allowed submitting approved = true
allowed submitting failed = true
allowed submitted broadcast = true
allowed submitted confirmed = true
allowed submitted failed = true
allowed broadcast confirmed = true
allowed broadcast failed = true
allowed rejected refunded = true
allowed failed refunded = true
allowed _ _ = false

-- AUTO_RELEASABLE
unfoldable pub is_auto_releasable : Status → Bool
is_auto_releasable requested = true
is_auto_releasable pending_approval = true
is_auto_releasable approved = true
is_auto_releasable rejected = true
is_auto_releasable _ = false

-- ATTESTED_RELEASABLE
unfoldable pub is_attested_releasable : Status → Bool
is_attested_releasable submitting = true
is_attested_releasable submitted = true
is_attested_releasable broadcast = true
is_attested_releasable failed = true
is_attested_releasable _ = false

-- COUNTS_TOWARD_CAP
unfoldable pub counts_toward_cap : Status → Bool
counts_toward_cap rejected = false
counts_toward_cap failed = false
counts_toward_cap refunded = false
counts_toward_cap requested = true
counts_toward_cap pending_approval = true
counts_toward_cap approved = true
counts_toward_cap submitting = true
counts_toward_cap submitted = true
counts_toward_cap broadcast = true
counts_toward_cap confirmed = true

abbrev pub moved : Withdrawal → Status → ℕ → Withdrawal
moved w target now = record w { status = target; updated_at = now }

-- Whether the row moved, and the row.
unfoldable pub transition : Withdrawal → Status → ℕ → Result (Bool × Withdrawal)
unfolding eq_status allowed
transition w target now =
    if eq_status target w.status
    then ok (false, w)
    else if allowed w.status target
    then ok (true, moved w target now)
    else err illegal_transition

-- `_advance`: a target that is not allowed is ignored.
unfoldable pub advance : Withdrawal → Status → ℕ → Result (Bool × Withdrawal)
unfolding transition
advance w target now =
    if eq_status target w.status
    then ok (false, w)
    else if allowed w.status target
    then transition w target now
    else ok (false, w)

pub eq_status→eq : (s t : Status) → eq_status s t ≡ true → s ≡ t
unfolding eq_status
eq_status→eq requested requested h = refl
eq_status→eq pending_approval pending_approval h = refl
eq_status→eq approved approved h = refl
eq_status→eq rejected rejected h = refl
eq_status→eq submitting submitting h = refl
eq_status→eq submitted submitted h = refl
eq_status→eq broadcast broadcast h = refl
eq_status→eq confirmed confirmed h = refl
eq_status→eq failed failed h = refl
eq_status→eq refunded refunded h = refl
eq_status→eq s t h = absurd (cc)

-- A transition that returns has the row at its target.
pub transition-status :
    (w : Withdrawal) (target : Status) (now : ℕ) {b : Bool} {v : Withdrawal}
    → transition w target now ≡ ok (b, v)
    → v.status ≡ target
unfolding transition
transition-status w target now {b} {v} h = elim (Bool-cases (eq_status target w.status)) [
  | inl same ↦
      let stayed : w ≡ v = cc (rw same at h) in
      ap (λ (x : Withdrawal). x.status) (sym stayed) ∙ sym (eq_status→eq target w.status same)
  | inr other ↦ elim (Bool-cases (allowed w.status target)) [
    | inl edge ↦
        let made : moved w target now ≡ v = cc (rw (other, edge) at h) in
        ap (λ (x : Withdrawal). x.status) (sym made)
    | inr no_edge ↦ absurd (cc (rw (other, no_edge) at h))
  ]
]
