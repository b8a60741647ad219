-- ===== src/Deposits/Followed.antt =====
-- A deposit that BTCPay's view of its invoice has been applied to: another application of the same
-- view credits nothing.
use crypto_processing_api.Prelude.{
  ◌≡◌, refl, sym, ◌∙◌, ap, subst, ℕ, Bool, true, false, some, List, find, All, Bool-cases, inl, inr,
  arith,
}
use crypto_processing_api.Errors.{Result, ok}
use crypto_processing_api.Exec.Preserves.{continue-view}
use crypto_processing_api.Models.{DepositStatus, Actor}
use crypto_processing_api.Withdrawals.Rows.{Asset, Db, has_asset_id}
use crypto_processing_api.Deposits.Rows.{Deposit, DepositPayment, Payment, InvoicePaymentMethod}
use crypto_processing_api.Deposits.Status.{Parsed}
use crypto_processing_api.Deposits.Invoices.{get_deposit_asset, payment_method_for}
use crypto_processing_api.Deposits.Payments.{valid_payments, parse_payments, apply_payments}
use crypto_processing_api.Deposits.Apply.{
  ApplyArgs, methods_or_fetch, attach_first, is_creditable, wanted_target, round_of, start,
  conclude, follow_payments, read_payments, follow_invoice,
}
use crypto_processing_api.Deposits.LedgerFree.{
  ledger_of, conclude-LedgerFree, attach_first-LedgerFree,
}
use crypto_processing_api.Deposits.Attached.{IsAttachedTo, attach_first-IsAttachedTo}
use crypto_processing_api.Deposits.Tables.{attach_first-Preserves}
use crypto_processing_api.Deposits.Closed.{follow_payments-LedgerFree}
use crypto_processing_api.Deposits.Credited.{is_needed}
use crypto_processing_api.Deposits.Kept.{IsCredited}
use crypto_processing_api.Deposits.Again.{AllCredited, apply_payments-again}

-- The asset, the methods and the amounts that the application reads, and the payments that it would
-- credit, all credited.
pub record IsFollowed (args : ApplyArgs) (d : Deposit) (s : Db) : Type 0 where
  pub asset : Asset
  pub methods : List InvoicePaymentMethod
  pub read : Bool × List Parsed
  pub known : find (has_asset_id d.asset_id) s.assets ≡ some asset
  pub fetched : methods_or_fetch args.payment_methods args.gateway args.invoice.id ≡ ok methods
  pub parsed :
      parse_payments (valid_payments (payment_method_for asset methods)) asset.decimals ≡ ok read
  pub done :
      (d₁ : Deposit)
      → IsAttachedTo d d₁
      → is_creditable
          (wanted_target args d₁ asset (valid_payments (payment_method_for asset methods)) read)
          d₁.status
        ≡ true
      → AllCredited true d.id read.1 s

pub get_deposit_asset-found :
    (k : ℕ) (s : Db) {a : Asset}
    → find (has_asset_id k) s.assets ≡ some a
    → get_deposit_asset k false s ≡ (ok a, s)
unfolding get_deposit_asset
get_deposit_asset-found k s found = ground (arith, found)

follow_payments-again :
    (args : ApplyArgs) (previous : DepositStatus) (d : Deposit) (a : Asset) (t : DepositStatus)
    (parsed : List Parsed) (s : Db)
    → (is_creditable t d.status ≡ true → AllCredited true d.id parsed s)
    → (follow_payments args previous d a t parsed s).1.ledger ≡ s.ledger
follow_payments-again args previous d a t parsed s h =
    elim (Bool-cases (is_creditable t d.status)) [
      | inr barred ↦ (follow_payments-LedgerFree args previous d a t parsed barred).at s
      | inl open_to ↦
          unfold follow_payments in
          continue-view ledger_of (apply_payments (round_of args d a t) parsed (start d) s)
            (conclude previous t a) (λ p s₁ looped. (conclude-LedgerFree previous t a p).at s₁)
          ∙ apply_payments-again (round_of args d a t) parsed (start d) s (
              unfold round_of start in
              subst (λ b. AllCredited b d.id parsed s) (sym open_to) (h open_to))
    ]

-- Whether payments have been credited is a matter of their rows.
pub AllCredited-rows :
    (b : Bool) (k k' : ℕ) (ps : List Parsed) (s s' : Db)
    → k' ≡ k
    → s'.deposit_payments ≡ s.deposit_payments
    → AllCredited b k ps s
    → AllCredited b k' ps s'
AllCredited-rows b k k' ps s s' same rows h =
    subst (λ j. AllCredited b j ps s') (sym same)
      (subst (λ t. All (λ x. is_needed b x ≡ true → IsCredited k x.id t) ps) (sym rows) h)

-- The target does not depend on who applies the view.
wanted_target-actor :
    (args : ApplyArgs) (actor : Actor) (d : Deposit) (a : Asset) (ps : List Payment)
    (read : Bool × List Parsed)
    → wanted_target (record args { actor = actor }) d a ps read ≡ wanted_target args d a ps read
unfolding wanted_target
wanted_target-actor args actor d a ps read = refl

after_attach :
    (args : ApplyArgs) (actor : Actor) (d d₁ : Deposit) (s s₁ : Db) (h : IsFollowed args d s)
    → attach_first d args.invoice h.methods h.asset s ≡ (ok d₁, s₁)
    → (follow_payments
        (record args { actor = actor })
        d.status
        d₁
        h.asset
        (wanted_target
          (record args { actor = actor })
          d₁
          h.asset
          (valid_payments (payment_method_for h.asset h.methods))
          h.read)
        h.read.1
        s₁).1.ledger
      ≡ s₁.ledger
after_attach args actor d d₁ s s₁ h attached =
    let k = (attach_first-IsAttachedTo d args.invoice h.methods h.asset).at s attached in
    let rows : s₁.deposit_payments ≡ s.deposit_payments =
      ap (λ (r : Result Deposit × Db). r.1.deposit_payments) (sym attached)
      ∙ ap (λ (v : List Asset × List DepositPayment). v.1)
          ((attach_first-Preserves d args.invoice h.methods h.asset).at s) in
    rw
      (wanted_target-actor args actor d₁ h.asset
        (valid_payments (payment_method_for h.asset h.methods)) h.read)
      (follow_payments-again (record args { actor = actor }) d.status d₁ h.asset _ h.read.1 s₁
        λ due. AllCredited-rows true d.id d₁.id h.read.1 s s₁ k.id rows (h.done d₁ k due))

pub follow_invoice-again :
    (args : ApplyArgs) (actor : Actor) (d : Deposit) (s : Db)
    → IsFollowed args d s
    → (follow_invoice (record args { actor = actor }) d s).1.ledger ≡ s.ledger
unfolding follow_invoice read_payments
follow_invoice-again args actor d s h =
    rw (get_deposit_asset-found d.asset_id s h.known, h.fetched)
      (continue-view ledger_of (attach_first d args.invoice h.methods h.asset s) _
          (λ d₁ s₁ attached. rw h.parsed (after_attach args actor d d₁ s s₁ h attached))
        ∙ (attach_first-LedgerFree d args.invoice h.methods h.asset).at s)
