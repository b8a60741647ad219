-- ===== src/Deposits/Results.antt =====
-- The result of `apply_invoice_state` and `resolve_review`, and the events of a deposit
-- (src/crypto_processing_api/services/deposits.py).
use crypto_processing_api.Prelude.{
  ℕ, pos, Bool, true, false, not, Option, none, some, List, [], ◌∷◌, ◌++◌, if◌then◌else◌,
}
use crypto_processing_api.Exec.{Exec, lift, modify, pure, ◌>>=◌, ◌>>◌}
use crypto_processing_api.Models.{DepositStatus}
use crypto_processing_api.Core.Amounts.{from_units}
use crypto_processing_api.Ledger.Audit.{is_nonempty}
use crypto_processing_api.Withdrawals.Rows.{Asset, Db, EventType, deposit_data}
use crypto_processing_api.Deposits.Rows.{Deposit}
use crypto_processing_api.Deposits.Status.{eq_deposit_status}
use crypto_processing_api.Deposits.Payments.{Progress}

pub record ApplyResult : Type 0 where
  pub deposit_id : ℕ
  pub previous_status : DepositStatus
  pub status : DepositStatus
  pub credited_units : ℕ
  pub credited_payments : List ℕ
  pub recorded_payments : List ℕ

unfoldable pub untouched : Deposit → ApplyResult
untouched d = record {
  deposit_id = d.id;
  previous_status = d.status;
  status = d.status;
  credited_units = 0;
  credited_payments = [];
  recorded_payments = [];
}

unfoldable pub result_of : DepositStatus → Progress → ApplyResult
result_of previous p = record {
  deposit_id = p.deposit.id;
  previous_status = previous;
  status = p.deposit.status;
  credited_units = p.credited_units;
  credited_payments = p.credited_payments;
  recorded_payments = p.recorded_payments;
}

-- events.emit of a deposit event
unfoldable pub emit_deposit : EventType → Option (List ℕ) → Deposit → Asset → Exec Db (Unit {0})
emit_deposit event_type payments d asset = do
  amount ← lift (from_units (pos d.amount_credited) asset.decimals)
  modify (λ s. record s {
    events =
        s.events
        ++ record {
          event_type = event_type;
          payload = deposit_data (record {
            deposit_id = d.id;
            external_user_id = d.external_user_id;
            asset = asset.id;
            status = d.status;
            amount_credited = amount;
            payments = payments;
          });
        }
          ∷ [];
  })

unfoldable pub emit_status : Bool → Deposit → Asset → DepositStatus → Exec Db (Unit {0})
emit_status false d asset status = pure tt
emit_status true d asset DepositStatus.settled = emit_deposit EventType.deposit_settled none d asset
emit_status true d asset DepositStatus.review = emit_deposit EventType.deposit_review none d asset
emit_status true d asset DepositStatus.expired = emit_deposit EventType.deposit_expired none d asset
emit_status true d asset status = pure tt

-- `_emit_events`
unfoldable pub emit_events : Deposit → Asset → ApplyResult → Exec Db (Unit {0})
unfolding emit_status
emit_events d asset result = do
  (if is_nonempty result.recorded_payments
      then emit_deposit EventType.deposit_detected (some result.recorded_payments) d asset
      else pure tt)
  emit_status (not (eq_deposit_status result.previous_status result.status)) d asset result.status
