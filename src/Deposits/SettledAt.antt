-- ===== src/Deposits/SettledAt.antt =====
-- What the crediting of the payments leaves under the id of a deposit.
use crypto_processing_api.Prelude.{
  ◌≡◌, sym, ◌∙◌, ap, subst, ℕ, Bool, true, some, List, find, Bool-cases, inl, inr, arith,
}
use crypto_processing_api.Errors.{Result, ok}
use crypto_processing_api.Exec.Keeps.{continue-eq-ok}
use crypto_processing_api.Models.{DepositStatus}
use crypto_processing_api.Withdrawals.Rows.{Asset, Db, has_asset_id}
use crypto_processing_api.Deposits.Rows.{Deposit, Payment, InvoicePaymentMethod}
use crypto_processing_api.Deposits.Status.{Parsed}
use crypto_processing_api.Deposits.Invoices.{has_deposit_id, payment_method_for}
use crypto_processing_api.Deposits.Payments.{
  valid_payments, parse_payments, apply_payments, Progress,
}
use crypto_processing_api.Deposits.Graph.{Steps, IsAttachedTo-Steps}
use crypto_processing_api.Deposits.Apply.{
  ApplyArgs, methods_or_fetch, is_creditable, wanted_target, round_of, start, follow_payments,
}
use crypto_processing_api.Deposits.Results.{ApplyResult}
use crypto_processing_api.Deposits.Attached.{IsAttachedTo}
use crypto_processing_api.Deposits.Loop.{apply_payments-SameDeposit}
use crypto_processing_api.Deposits.Tables.{deposits_of, apply_payments-Preserves}
use crypto_processing_api.Deposits.Closed.{is_closed, is_creditable-closed, IsAttachedTo-closed}
use crypto_processing_api.Deposits.Again.{AllCredited, apply_payments-AllCredited}
use crypto_processing_api.Deposits.Followed.{IsFollowed, AllCredited-rows}
use crypto_processing_api.Deposits.Concluded.{conclude-IsConcluded, wanted_target-same}

-- The deposit that a call has left under its id, with nothing more to credit.
pub record IsSettledAt (args : ApplyArgs) (k : ℕ) (before : DepositStatus) (s : Db) : Type 0 where
  pub last : Deposit
  pub found : find (has_deposit_id k) s.deposits ≡ some last
  pub steps : Steps before last.status
  pub followed : IsFollowed args last s

-- A deposit that may be credited now might have been credited before.
creditable_before :
    (t : DepositStatus) (d₁ last d₂ : Deposit)
    → (is_closed d₁.status ≡ true → is_closed last.status ≡ true)
    → IsAttachedTo last d₂
    → is_creditable t d₂.status ≡ true
    → is_creditable t d₁.status ≡ true
creditable_before t d₁ last d₂ closed attached h = elim (Bool-cases (is_closed d₁.status)) [
  | inl shut ↦ absurd (
      cc (is_creditable-closed t d₂.status (IsAttachedTo-closed last d₂ (closed shut) attached), h))
  | inr free ↦ unfold is_creditable in ground (arith, h, free)
]

module _ (args : ApplyArgs) (k : ℕ) (d d₁ : Deposit) (a : Asset) (ms : List InvoicePaymentMethod)
    (read : Bool × List Parsed) where
  abbrev payments : List Payment
  payments = valid_payments (payment_method_for a ms)

  abbrev target : DepositStatus
  target = wanted_target args d₁ a payments read

  pub follow_payments-IsSettledAt :
      (s s₁ : Db) {r : ApplyResult} {s' : Db}
      → d.id ≡ k
      → find (has_asset_id d.asset_id) s.assets ≡ some a
      → methods_or_fetch args.payment_methods args.gateway args.invoice.id ≡ ok ms
      → parse_payments payments a.decimals ≡ ok read
      → IsAttachedTo d d₁
      → s₁.assets ≡ s.assets
      → find (has_deposit_id k) s₁.deposits ≡ some d₁
      → follow_payments args d.status d₁ a target read.1 s₁ ≡ (ok r, s')
      → IsSettledAt args k d.status s'
  unfolding follow_payments start
  follow_payments-IsSettledAt s s₁ {r} {s'} id_k known fetched parsed at assets found h =
      let (p, s₂, looped, rest) =
        continue-eq-ok (apply_payments (round_of args d₁ a target) read.1 (start d₁) s₁) _ h in
      let same =
        (apply_payments-SameDeposit (round_of args d₁ a target) read.1 (start d₁)).at s₁ looped in
      let c = conclude-IsConcluded d.status target a p s₂ rest in
      let tables₂ : deposits_of s₂ ≡ deposits_of s₁ =
        ap (λ (q : Result Progress × Db). deposits_of q.1) (sym looped)
        ∙ (apply_payments-Preserves (round_of args d₁ a target) read.1 (start d₁)).at s₁ in
      let last_id : c.last.id ≡ k = c.id ∙ same.id ∙ at.id ∙ id_k in
      let last_asset : c.last.asset_id ≡ d.asset_id = c.asset_id ∙ same.asset_id ∙ at.asset_id in
      let all_assets : s'.assets ≡ s.assets =
        c.assets ∙ ap (λ (v : List Asset × List Deposit). v.0) tables₂ ∙ assets in
      record {
        last = c.last;
        found =
            c.stored k d₁ last_id
              (ap (λ (v : List Asset × List Deposit). find (has_deposit_id k) v.1) tables₂ ∙ found);
        steps =
            IsAttachedTo-Steps d d₁ c.last.status at
              (subst (λ u. Steps u c.last.status) same.status c.steps);
        followed = record {
          asset = a;
          methods = ms;
          read = read;
          known = rw (last_asset, all_assets) known;
          fetched = fetched;
          parsed = parsed;
          done = λ d₂ k₂ due.
              let same_target : wanted_target args d₂ a payments read ≡ target =
                wanted_target-same args d₁ d₂ a payments read
                  (k₂.amount_expected ∙ c.amount_expected ∙ same.amount_expected) in
              let due₁ : is_creditable target d₁.status ≡ true =
                creditable_before target d₁ c.last d₂ (λ shut. c.closed (rw same.status shut)) k₂
                  (rw (sym same_target) due) in
              AllCredited-rows true d₁.id c.last.id read.1 s₂ s' (c.id ∙ same.id) c.payments (
                unfold round_of in
                subst (λ b. AllCredited b d₁.id read.1 s₂) due₁
                  (apply_payments-AllCredited (round_of args d₁ a target) read.1 (start d₁) s₁
                    looped));
        };
      }
