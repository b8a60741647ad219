-- ===== src/Withdrawals/Transitions/Graph.antt =====
-- Where the status of a withdrawal can go: `_ALLOWED`, read as a graph
-- (src/crypto_processing_api/services/withdrawals.py).
use crypto_processing_api.Prelude.{◌≡◌, refl, Bool, true, false}
use crypto_processing_api.Models.{Status, requested, rejected, confirmed, failed, refunded}
use crypto_processing_api.Withdrawals.Transitions.{eq_status→eq, eq_status, allowed}

-- The money has not gone out: `refunded`, and what only leads there.
unfoldable pub is_returning : Status → Bool
is_returning rejected = true
is_returning failed = true
is_returning refunded = true
is_returning _ = false

pub returning_step :
    (s t : Status) → is_returning s ≡ true → allowed s t ≡ true → is_returning t ≡ true
unfolding is_returning allowed
returning_step rejected refunded h a = refl
returning_step failed refunded h a = refl
returning_step s t h a = absurd (cc)

confirmed_step : (s t : Status) → s ≡ confirmed → allowed s t ≡ false
unfolding allowed
confirmed_step s t h = rw h (no_way_out t)
  where
    no_way_out : (t : Status) → allowed confirmed t ≡ false
    no_way_out requested = refl
    no_way_out _ = refl

pub returning-unconfirmed : (s : Status) → is_returning s ≡ true → eq_status s confirmed ≡ false
unfolding is_returning eq_status
returning-unconfirmed rejected h = refl
returning-unconfirmed failed h = refl
returning-unconfirmed refunded h = refl
returning-unconfirmed s h = absurd (cc)

pub confirmed_closed :
    (s t : Status)
    → eq_status s confirmed ≡ true
    → allowed s t ≡ true
    → eq_status t confirmed ≡ true
confirmed_closed s t h a = absurd (cc (confirmed_step s t (eq_status→eq s confirmed h), a))
