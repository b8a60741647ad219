-- ===== src/Deposits/Graph.antt =====
-- The status graph of a deposit, one step at a time.
use crypto_processing_api.Prelude.{
  ◌≡◌, refl, sym, subst, ◌⊎◌, inl, inr, true, ◌&&◌, not, Bool-cases, arith,
}
use crypto_processing_api.Models.{DepositStatus}
use crypto_processing_api.Deposits.Rows.{Deposit}
use crypto_processing_api.Deposits.Status.{eq_deposit_status, allowed_target}
use crypto_processing_api.Deposits.Apply.{moved_to}
use crypto_processing_api.Deposits.Attached.{IsAttachedTo}

-- The status stays, or moves to an allowed target.
abbrev pub Steps : DepositStatus → DepositStatus → Type 0
Steps from to = (to ≡ from) ⊎ (allowed_target from to ≡ true)

pub moved_to-Steps : (t : DepositStatus) (d : Deposit) → Steps d.status (moved_to t d).status
unfolding moved_to
moved_to-Steps t d =
    elim (Bool-cases (not (eq_deposit_status t d.status) && allowed_target d.status t)) [
      | inl moves ↦ rw moves (inr (ground (arith, moves)))
      | inr stays ↦ rw stays (inl refl)
    ]

-- A status that is allowed from `pending` is allowed from `creating`.
Steps-opened : (t : DepositStatus) → Steps DepositStatus.pending t → Steps DepositStatus.creating t
unfolding allowed_target
Steps-opened t (inl same) = inr (rw same refl)
Steps-opened t (inr h) = inr (ground (arith, h))

pub IsAttachedTo-Steps :
    (d d' : Deposit) (t : DepositStatus) → IsAttachedTo d d' → Steps d'.status t → Steps d.status t
IsAttachedTo-Steps d d' t h k = elim h.status [
  | inl same ↦ subst (λ u. Steps u t) same k
  | inr (was, opened) ↦
      subst (λ u. Steps u t) (sym was) (Steps-opened t (subst (λ u. Steps u t) opened k))
]
