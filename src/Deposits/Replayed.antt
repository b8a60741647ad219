-- ===== src/Deposits/Replayed.antt =====
-- BTCPay's view of an invoice, applied twice.
use crypto_processing_api.Prelude.{
  ◌≡◌, refl, sym, ◌∙◌, ap, subst, ℕ, true, false, ◌||◌, not, some, List, find, find-true, ==_iff,
  Bool-cases, inl, inr,
}
use crypto_processing_api.Errors.{Result, ok, invoice_mismatch, deposit_not_found}
use crypto_processing_api.Exec.{lift, guard}
use crypto_processing_api.Exec.Keeps.{continue-eq-ok, guard-eq-ok, or_raise-eq-ok, lift-eq-ok}
use crypto_processing_api.Models.{Actor}
use crypto_processing_api.Withdrawals.Rows.{Asset, Db}
use crypto_processing_api.Deposits.Rows.{Deposit, DepositPayment}
use crypto_processing_api.Deposits.Status.{is_terminal, is_known}
use crypto_processing_api.Deposits.Invoices.{
  has_deposit_id, lock_deposit, get_deposit_asset, payment_method_for,
}
use crypto_processing_api.Deposits.Payments.{valid_payments, parse_payments}
use crypto_processing_api.Deposits.Apply.{
  ApplyArgs, methods_or_fetch, attach_first, read_payments, follow_invoice, is_other_invoice,
  apply_to, apply_invoice_state,
}
use crypto_processing_api.Deposits.Results.{ApplyResult}
use crypto_processing_api.Deposits.Attached.{attach_first-IsAttachedTo}
use crypto_processing_api.Deposits.Tables.{attach_first-Preserves}
use crypto_processing_api.Deposits.Followed.{IsFollowed, follow_invoice-again}
use crypto_processing_api.Deposits.SettledAt.{IsSettledAt, follow_payments-IsSettledAt}
use crypto_processing_api.Deposits.Concluded.{get_deposit_asset-eq-ok, attach_first-found}

pub follow_invoice-IsSettledAt :
    (args : ApplyArgs) (k : ℕ) (d : Deposit) (s : Db) {r : ApplyResult} {s' : Db}
    → d.id ≡ k
    → find (has_deposit_id k) s.deposits ≡ some d
    → follow_invoice args d s ≡ (ok r, s')
    → IsSettledAt args k d.status s'
unfolding follow_invoice read_payments
follow_invoice-IsSettledAt args k d s id_k found h =
    let (a, s₁, asked, h₁) = continue-eq-ok (get_deposit_asset d.asset_id false s) _ h in
    let (known, same₁) = get_deposit_asset-eq-ok d.asset_id s asked in
    let (ms, s₂, got, h₂) =
      continue-eq-ok (lift (methods_or_fetch args.payment_methods args.gateway args.invoice.id) s₁)
        _ h₁ in
    let (fetched, same₂) =
      lift-eq-ok (methods_or_fetch args.payment_methods args.gateway args.invoice.id) s₁ got in
    let (d₁, s₃, attached, h₃) = continue-eq-ok (attach_first d args.invoice ms a s₂) _ h₂ in
    let (read, s₄, parsing, h₄) =
      continue-eq-ok
        (lift (parse_payments (valid_payments (payment_method_for a ms)) a.decimals) s₃) _ h₃ in
    let (parsed, same₄) =
      lift-eq-ok (parse_payments (valid_payments (payment_method_for a ms)) a.decimals) s₃
        parsing in
    let s_is : s ≡ s₂ = same₁ ∙ same₂ in
    let attached' : attach_first d args.invoice ms a s ≡ (ok d₁, s₃) =
      subst (λ t. attach_first d args.invoice ms a t ≡ (ok d₁, s₃)) (sym s_is) attached in
    follow_payments-IsSettledAt args k d d₁ a ms read s s₄ id_k known fetched parsed
      ((attach_first-IsAttachedTo d args.invoice ms a).at s attached')
      (ap (λ (t : Db). t.assets) (sym same₄)
        ∙ ap (λ (q : Result Deposit × Db). q.1.assets) (sym attached')
        ∙ ap (λ (v : List Asset × List DepositPayment). v.0)
            ((attach_first-Preserves d args.invoice ms a).at s))
      (ap (λ (t : Db). find (has_deposit_id k) t.deposits) (sym same₄)
        ∙ attach_first-found k d args.invoice ms a s id_k found attached')
      h₄

-- A call on a deposit that has been followed changes no ledger.
apply_to-again :
    (args : ApplyArgs) (actor : Actor) (d : Deposit) (s : Db)
    → IsFollowed args d s
    → (apply_to (record args { actor = actor }) d s).1.ledger ≡ s.ledger
unfolding apply_to
apply_to-again args actor d s h =
    elim (Bool-cases (is_other_invoice d.btcpay_invoice_id args.invoice.id)) [
      | inl other ↦ rw other refl
      | inr own ↦ elim (Bool-cases (is_terminal d.status || not (is_known args.invoice.status))) [
        | inl quiet ↦ rw (own, quiet) refl
        | inr live ↦ rw (own, live) (follow_invoice-again args actor d s h)
      ]
    ]

-- A call that leaves a deposit untouched does so again.
pub apply_to-untouched :
    (args : ApplyArgs) (actor : Actor) (d : Deposit) (s : Db)
    → (is_terminal d.status || not (is_known args.invoice.status)) ≡ true
    → (apply_to (record args { actor = actor }) d s).1 ≡ s
unfolding apply_to
apply_to-untouched args actor d s quiet =
    elim (Bool-cases (is_other_invoice d.btcpay_invoice_id args.invoice.id)) [
      | inl other ↦ rw other refl
      | inr own ↦ rw (own, quiet) refl
    ]

locked_again :
    (args : ApplyArgs) (k : ℕ) (d : Deposit) (s : Db)
    → find (has_deposit_id k) s.deposits ≡ some d
    → apply_invoice_state args k s ≡ apply_to args d s
unfolding apply_invoice_state lock_deposit
locked_again args k d s found = rw found refl

again_from :
    (args : ApplyArgs) (k : ℕ) (actor : Actor) (d : Deposit) (s : Db) {r : ApplyResult} {s' : Db}
    → find (has_deposit_id k) s.deposits ≡ some d
    → apply_to args d s ≡ (ok r, s')
    → (apply_invoice_state (record args { actor = actor }) k s').1.ledger ≡ s'.ledger
unfolding apply_to
again_from args k actor d s {r} {s'} found h =
    elim (Bool-cases (is_terminal d.status || not (is_known args.invoice.status))) [
      | inl quiet ↦
          let stays : s' ≡ s =
            ap (λ (q : Result ApplyResult × Db). q.1) (sym h)
            ∙ apply_to-untouched args args.actor d s quiet in
          rw (stays, locked_again (record args { actor = actor }) k d s found)
            (ap (λ (t : Db). t.ledger) (apply_to-untouched args actor d s quiet))
      | inr live ↦
          let (u, s₁, passed, h₁) =
            continue-eq-ok
              (guard (is_other_invoice d.btcpay_invoice_id args.invoice.id) invoice_mismatch s) _
              (rw live at h) in
          let same =
            (guard-eq-ok (is_other_invoice d.btcpay_invoice_id args.invoice.id) invoice_mismatch s
              passed).1 in
          let at : IsSettledAt args k d.status s' =
            follow_invoice-IsSettledAt args k d s
              ((==_iff d.id k).0 (find-true (has_deposit_id k) s.deposits found)) found
              (subst (λ t. follow_invoice args d t ≡ (ok r, s')) (sym same) h₁) in
          rw (locked_again (record args { actor = actor }) k at.last s' at.found)
            (apply_to-again args actor at.last s' at.followed)
    ]

-- Once BTCPay's view of an invoice has been applied, another application of the same view credits
-- nothing, whoever makes it and whether it returns or raises: the ledger is as the first left it.
pub apply_invoice_state_replayed :
    (args : ApplyArgs) (k : ℕ) (actor : Actor) (s : Db) {r : ApplyResult} {s' : Db}
    → apply_invoice_state args k s ≡ (ok r, s')
    → (apply_invoice_state (record args { actor = actor }) k s').1.ledger ≡ s'.ledger
unfolding apply_invoice_state lock_deposit
apply_invoice_state_replayed args k actor s {r} {s'} h =
    let (d, s₁, locked, rest) = continue-eq-ok (lock_deposit k s) (apply_to args) h in
    let (found, same) =
      or_raise-eq-ok deposit_not_found (find (has_deposit_id k) s.deposits) s locked in
    again_from args k actor d s found (subst (λ t. apply_to args d t ≡ (ok r, s')) (sym same) rest)
