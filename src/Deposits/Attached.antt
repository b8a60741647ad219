-- ===== src/Deposits/Attached.antt =====
-- What the attachment of an invoice leaves of a deposit.
use crypto_processing_api.Prelude.{◌≡◌, refl, subst, ◌⊎◌, inl, inr, ℕ, List, Option, none, some}
use crypto_processing_api.Exec.Keeps.{Returns, Returns-pure, Returns-if, continue-eq-ok}
use crypto_processing_api.Models.{DepositStatus}
use crypto_processing_api.Withdrawals.Rows.{Asset, truthy}
use crypto_processing_api.Deposits.Rows.{Deposit, Invoice, InvoicePaymentMethod}
use crypto_processing_api.Deposits.Invoices.{
  reserved, opened, attached, attach_invoice, save_deposit, payment_method_for,
}
use crypto_processing_api.Deposits.Apply.{attach_first}

pub record IsAttachedTo (d d' : Deposit) : Type 0 where
  pub id : d'.id ≡ d.id
  pub asset_id : d'.asset_id ≡ d.asset_id
  pub amount_expected : d'.amount_expected ≡ d.amount_expected
  pub status :
      (d'.status ≡ d.status)
      ⊎ ((d.status ≡ DepositStatus.creating) × (d'.status ≡ DepositStatus.pending))

opened-cases :
    (t : DepositStatus)
    → (opened t ≡ t) ⊎ ((t ≡ DepositStatus.creating) × (opened t ≡ DepositStatus.pending))
unfolding opened
opened-cases DepositStatus.creating = inr (refl, refl)
opened-cases DepositStatus.pending = inl refl
opened-cases DepositStatus.confirming = inl refl
opened-cases DepositStatus.settled = inl refl
opened-cases DepositStatus.expired = inl refl
opened-cases DepositStatus.review = inl refl
opened-cases DepositStatus.dismissed = inl refl
opened-cases DepositStatus.failed = inl refl

reserved-IsAttachedTo :
    (m : Option InvoicePaymentMethod) (i : Invoice) (now : ℕ) (d d' : Deposit)
    → IsAttachedTo d d'
    → IsAttachedTo d (reserved m i now d')
unfolding reserved
reserved-IsAttachedTo none i now d d' h = h
reserved-IsAttachedTo (some m) i now d d' h = record {
  id = h.id;
  asset_id = h.asset_id;
  amount_expected = h.amount_expected;
  status = h.status;
}

pub attached-IsAttachedTo :
    (d : Deposit) (i : Invoice) (ms : List InvoicePaymentMethod) (a : Asset) (now : ℕ)
    → IsAttachedTo d (attached d i ms a now)
unfolding attached
attached-IsAttachedTo d i ms a now =
    reserved-IsAttachedTo (payment_method_for a ms) i now d _ (record {
      id = refl;
      asset_id = refl;
      amount_expected = refl;
      status = opened-cases d.status;
    })

attach_invoice-IsAttachedTo :
    (d : Deposit) (i : Invoice) (ms : List InvoicePaymentMethod) (a : Asset)
    → Returns (IsAttachedTo d) (attach_invoice d i ms a)
unfolding attach_invoice
attach_invoice-IsAttachedTo d i ms a = record {
  at = λ s {a = d'} h.
      let (u, s₁, saved, rest) = continue-eq-ok (save_deposit (attached d i ms a s.now) s) _ h in
      let same : attached d i ms a s.now ≡ d' = cc in
      subst (IsAttachedTo d) same (attached-IsAttachedTo d i ms a s.now);
}

IsAttachedTo-self : (d : Deposit) → IsAttachedTo d d
IsAttachedTo-self d = record {
  id = refl;
  asset_id = refl;
  amount_expected = refl;
  status = inl refl;
}

pub attach_first-IsAttachedTo :
    (d : Deposit) (i : Invoice) (ms : List InvoicePaymentMethod) (a : Asset)
    → Returns (IsAttachedTo d) (attach_first d i ms a)
unfolding attach_first
attach_first-IsAttachedTo d i ms a =
    Returns-if (truthy d.btcpay_invoice_id) _ _ (Returns-pure d (IsAttachedTo-self d))
      (attach_invoice-IsAttachedTo d i ms a)
