-- ===== src/Withdrawals/Release.antt =====
-- Giving a hold back: `release_hold`, `auto_release_with_proof` and `admin_release`
-- (src/crypto_processing_api/services/withdrawals.py).
pub mod Permitted
pub mod Stored
use crypto_processing_api.Prelude.{ℕ, Bool, true, false, Option, none, some, if◌then◌else◌}
use crypto_processing_api.Errors.{Result, ok, err, bind, release_not_permitted}
use crypto_processing_api.Exec.{Exec, lift, gets, or_raise, modify, guard, pure, ◌>>=◌, ◌>>◌}
use crypto_processing_api.Models.{
  Status, requested, pending_approval, approved, rejected, submitting, submitted, broadcast, failed,
  refunded,
}
use crypto_processing_api.Core.Text.{Text, codes, strip, has_text}
use crypto_processing_api.Withdrawals.Rows
use crypto_processing_api.Withdrawals.Rows.{
  Actor, Asset, Withdrawal, Db, lock, save, get_asset, emit,
}
use crypto_processing_api.Withdrawals.Transitions.{
  is_auto_releasable, is_attested_releasable, transition,
}
use crypto_processing_api.Withdrawals.Entries.{post_unsubmit_entry, post_release_entry}

-- `attestation and attestation.strip()`
unfoldable pub is_attestation : Option Text → Bool
unfolding strip
is_attestation none = false
is_attestation (some t) = has_text (some (strip t))

unfoldable pub release_permitted : Status → Option Text → Result (Unit {0})
unfolding is_attested_releasable is_auto_releasable
release_permitted status attestation =
    if is_attested_releasable status
    then (if is_attestation attestation then ok tt else err release_not_permitted)
    else if is_auto_releasable status
    then ok tt
    else err release_not_permitted

-- The status between a row's own and `refunded`.
unfoldable pub intermediate : Status → Option Status
intermediate requested = some rejected
intermediate pending_approval = some rejected
intermediate approved = some rejected
intermediate submitting = some failed
intermediate submitted = some failed
intermediate broadcast = some failed
intermediate _ = none

unfoldable pub through : Option Status → Withdrawal → ℕ → Result Withdrawal
through none w now = ok w
through (some target) w now = bind (transition w target now) (λ step. ok step.1)

unfoldable pub refund : Withdrawal → ℕ → Result Withdrawal
unfolding intermediate through
refund w now =
    bind (through (intermediate w.status) w now)
      λ v. bind (transition v refunded now) (λ step. ok step.1)

-- `if attestation: withdrawal.release_attestation = attestation.strip()`
abbrev pub signed : Withdrawal → Actor → Option Text → Withdrawal
signed w actor none = record w { released_by = some actor }
signed w actor (some t) =
    if has_text (some t)
    then record w { released_by = some actor; release_attestation = some (strip t) }
    else record w { released_by = some actor }

-- `if withdrawal.release_entry_id is not None: return`
unfoldable pub release_once : Option ℕ → Withdrawal → Actor → Option Text → Exec Db Withdrawal
release_once (some entry) w actor attestation = pure w
release_once none w actor attestation = do
  post_unsubmit_entry w
  released ← post_release_entry w
  now ← gets (λ s. s.now)
  refunded_row ← lift (refund released now)
  save (signed refunded_row actor attestation)

unfoldable pub release_hold : Withdrawal → Actor → Option Text → Exec Db Withdrawal
release_hold w actor attestation = do
  lift (release_permitted w.status attestation)
  release_once w.release_entry_id w actor attestation

unfoldable pub auto_release_with_proof : Withdrawal → Actor → Text → Exec Db Withdrawal
auto_release_with_proof w actor proof = do
  asset ← get_asset w.asset_id false
  released ← release_hold w actor (some proof)
  emit Rows.EventType.failed released asset (some proof)
  pure released

unfoldable pub admin_release : ℕ → Actor → Text → Exec Db Withdrawal
admin_release k actor attestation = do
  w ← lock k
  asset ← get_asset w.asset_id false
  released ← release_hold w actor (some attestation)
  emit Rows.EventType.failed released asset (some (codes "released by an admin with attestation"))
  pure released
