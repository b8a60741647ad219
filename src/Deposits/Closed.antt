-- ===== src/Deposits/Closed.antt =====
-- A deposit that is closed to automation: BTCPay's view of its invoice credits nothing.
use crypto_processing_api.Prelude.{
  ◌≡◌, ℕ, Bool, true, false, ◌||◌, List, some, find, inl, inr, arith,
}
use crypto_processing_api.Exec.{lift, pure}
use crypto_processing_api.Exec.Preserves.{
  Preserves, Preserves-bind, Preserves-bind_returned, Preserves-if, Preserves-then, Preserves-pure,
  Preserves-lift, Preserves-guard,
}
use crypto_processing_api.Models.{DepositStatus}
use crypto_processing_api.Withdrawals.Rows.{Db, Asset}
use crypto_processing_api.Deposits.Rows.{Deposit, InvoicePaymentMethod}
use crypto_processing_api.Deposits.Status.{Parsed, eq_deposit_status, is_terminal}
use crypto_processing_api.Deposits.Invoices.{
  has_deposit_id, lock_deposit, get_deposit_asset, payment_method_for,
}
use crypto_processing_api.Deposits.Payments.{apply_payments, valid_payments, parse_payments}
use crypto_processing_api.Deposits.Apply.{
  ApplyArgs, attach_first, is_creditable, wanted_target, round_of, start, follow_payments,
  read_payments, follow_invoice, apply_to, apply_invoice_state,
}
use crypto_processing_api.Deposits.LedgerFree.{
  ledger_of, attach_first-LedgerFree, get_deposit_asset-LedgerFree, conclude-LedgerFree,
}
use crypto_processing_api.Deposits.Attached.{IsAttachedTo, attach_first-IsAttachedTo}
use crypto_processing_api.Deposits.Loop.{apply_payments-LedgerFree}

-- `deposit.status in (REVIEW, *TERMINAL_STATUSES)`
abbrev pub is_closed : DepositStatus → Bool
is_closed status = eq_deposit_status status DepositStatus.review || is_terminal status

pub is_creditable-closed :
    (target status : DepositStatus) → is_closed status ≡ true → is_creditable target status ≡ false
unfolding is_creditable
is_creditable-closed target status h = ground (arith, h)

pub follow_payments-LedgerFree :
    (args : ApplyArgs) (previous : DepositStatus) (d : Deposit) (a : Asset) (t : DepositStatus)
    (parsed : List Parsed)
    → is_creditable t d.status ≡ false
    → Preserves ledger_of (follow_payments args previous d a t parsed)
unfolding follow_payments round_of
follow_payments-LedgerFree args previous d a t parsed h =
    Preserves-bind (apply_payments (round_of args d a t) parsed (start d)) _
      (apply_payments-LedgerFree (round_of args d a t) parsed (start d) h)
      λ p. conclude-LedgerFree previous t a p

pub IsAttachedTo-closed :
    (d d' : Deposit) → is_closed d.status ≡ true → IsAttachedTo d d' → is_closed d'.status ≡ true
unfolding eq_deposit_status is_terminal
IsAttachedTo-closed d d' h k = elim k.status [
  | inl same ↦ rw same h
  | inr (was, opened) ↦ absurd (cc (rw was at h))
]

read_payments-LedgerFree :
    (args : ApplyArgs) (previous : DepositStatus) (a : Asset) (ms : List InvoicePaymentMethod)
    (d : Deposit)
    → is_closed d.status ≡ true
    → Preserves ledger_of (read_payments args previous a ms d)
unfolding read_payments
read_payments-LedgerFree args previous a ms d h =
    Preserves-bind (pure (valid_payments (payment_method_for a ms))) _ (Preserves-pure _) λ ps.
      Preserves-bind (lift (parse_payments ps a.decimals)) _ (Preserves-lift _) λ read.
        follow_payments-LedgerFree args previous d a (wanted_target args d a ps read) read.1
          (is_creditable-closed _ d.status h)

follow_invoice-LedgerFree :
    (args : ApplyArgs) (d : Deposit)
    → is_closed d.status ≡ true
    → Preserves ledger_of (follow_invoice args d)
unfolding follow_invoice
follow_invoice-LedgerFree args d h =
    Preserves-bind (get_deposit_asset d.asset_id false) _
      (get_deposit_asset-LedgerFree d.asset_id false)
      λ a. Preserves-bind (lift _) _ (Preserves-lift _) λ ms.
        Preserves-bind_returned (IsAttachedTo d) (attach_first d args.invoice ms a) _
          (attach_first-LedgerFree d args.invoice ms a)
          (attach_first-IsAttachedTo d args.invoice ms a)
          λ d₁ k. read_payments-LedgerFree args d.status a ms d₁ (IsAttachedTo-closed d d₁ h k)

from_deposit-LedgerFree :
    (args : ApplyArgs) (d : Deposit)
    → is_closed d.status ≡ true
    → Preserves ledger_of (apply_to args d)
unfolding apply_to
from_deposit-LedgerFree args d h =
    Preserves-then _ _ (Preserves-guard _ _)
      (Preserves-if _ _ _ (Preserves-pure _) (follow_invoice-LedgerFree args d h))

-- Once a deposit is in review, dismissed or failed, what BTCPay says of its invoice credits
-- nothing: whether the call returns or raises, the ledger is as it was.
pub apply_invoice_state-closed :
    (args : ApplyArgs) (k : ℕ) (d : Deposit) (s : Db)
    → find (has_deposit_id k) s.deposits ≡ some d
    → is_closed d.status ≡ true
    → (apply_invoice_state args k s).1.ledger ≡ s.ledger
unfolding apply_invoice_state lock_deposit
apply_invoice_state-closed args k d s found h = rw found ((from_deposit-LedgerFree args d h).at s)
