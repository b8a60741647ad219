-- ===== src/Withdrawals/Entries/Sums.antt =====
-- What the entries of a withdrawal add up to.
use crypto_processing_api.Prelude.{
  ℕ, ◌≡◌, refl, sym, ◌∙◌, ap, ℤ, pos, ◌+ℤ◌, ◌-ℤ◌, neg, is_zero, is_zero→eq, Bool-cases, inl, inr,
  Option, List, ◌++◌, sum_of, int_laws, ◌↔◌, add_zero, zero_add,
}
use crypto_processing_api.Ledger.Entry.{PostingPair}
use crypto_processing_api.Withdrawals.Rows.{Withdrawal}
use crypto_processing_api.Withdrawals.Entries.{
  drift_of, or_zero, or_else, unless_zero, settle_postings,
}

-- What the wallet paid for the broadcast, by the backend's account or else by the quote.
abbrev pub fee_paid : Withdrawal → ℤ → Option ℤ → ℤ
fee_paid w committed actual =
    or_else actual (committed -ℤ or_else w.amount_net (w.amount_gross -ℤ or_zero w.fee_amount))

module _ (f : PostingPair → ℤ) where
  -- A posting that is left out when it is zero counts the same.
  unless_zero_last :
      (x y : ℤ) (k : ℕ)
      → (x ≡ pos 0 → f (k, y) ≡ pos 0)
      → sum_of f (unless_zero x (k, y)) ≡ f (k, y)
  unfolding sum_of
  unless_zero_last x y k h = elim (Bool-cases (is_zero x)) [
    | inl zero ↦ rw zero (sym (h (is_zero→eq x zero)))
    | inr other ↦ rw other (add_zero (f (k, y)))
  ]

  unless_zero_then :
      (x y : ℤ) (k : ℕ) (ps : List PostingPair)
      → (x ≡ pos 0 → f (k, y) ≡ pos 0)
      → sum_of f (unless_zero x (k, y) ++ ps) ≡ f (k, y) +ℤ sum_of f ps
  unfolding sum_of
  unless_zero_then x y k ps h = elim (Bool-cases (is_zero x)) [
    | inl zero ↦ rw (zero, h (is_zero→eq x zero)) (sym (zero_add (sum_of f ps)))
    | inr other ↦ rw other refl
  ]

  -- The settle postings, one by one, under a measure that does not count a zero.
  pub settle_postings-sum :
      ((k : ℕ) → f (k, pos 0) ≡ pos 0)
      → (w : Withdrawal) (c : ℤ) (actual : Option ℤ) (hold in_flight expense income hot : ℕ)
      → sum_of f (settle_postings w c actual hold in_flight expense income hot)
        ≡ f (hold, w.amount_gross)
          +ℤ (f (in_flight, neg c)
              +ℤ (f (expense, fee_paid w c actual)
                  +ℤ (f (income, neg (or_zero w.fee_amount))
                      +ℤ f (hot, neg (drift_of w c actual)))))
  unfolding settle_postings sum_of drift_of neg
  settle_postings-sum f0 w c actual hold in_flight expense income hot =
      ap (λ x. f (hold, w.amount_gross) +ℤ (f (in_flight, neg c) +ℤ x))
        (unless_zero_then (fee_paid w c actual) _ expense _ (λ h. rw h (f0 expense))
          ∙ ap (λ x. f (expense, fee_paid w c actual) +ℤ x)
              (unless_zero_then (or_zero w.fee_amount) _ income _ (λ h. rw h (f0 income))
                ∙ ap (λ x. f (income, neg (or_zero w.fee_amount)) +ℤ x)
                    (unless_zero_last (drift_of w c actual) _ hot (λ h. rw h (f0 hot)))))

-- The net amount that the backend sends.
abbrev pub net_of : Withdrawal → ℤ
net_of w = or_else w.amount_net (w.amount_gross -ℤ or_zero w.fee_amount)

cancels :
    (gross c wallet fee net : ℤ)
    → gross +ℤ (neg c +ℤ (wallet +ℤ (neg fee +ℤ neg (wallet -ℤ (c -ℤ net)))))
      ≡ gross -ℤ (fee +ℤ net)
cancels gross c wallet fee net = omega int_laws

sub_self_sub : (a b : ℤ) → b ≡ a -ℤ (a -ℤ b)
sub_self_sub a b = omega int_laws

sub_zero : (a : ℤ) → a -ℤ pos 0 ≡ a
sub_zero a = omega int_laws

sub_self : (a : ℤ) → a -ℤ a ≡ pos 0
sub_self a = omega int_laws

settle_postings-total :
    (w : Withdrawal) (c : ℤ) (actual : Option ℤ) (hold in_flight expense income hot : ℕ)
    → sum_of (λ p. p.1) (settle_postings w c actual hold in_flight expense income hot)
      ≡ w.amount_gross -ℤ (or_zero w.fee_amount +ℤ net_of w)
unfolding drift_of
settle_postings-total w c actual hold in_flight expense income hot =
    settle_postings-sum (λ p. p.1) (λ k. refl) w c actual hold in_flight expense income hot
    ∙ cancels w.amount_gross c (fee_paid w c actual) (or_zero w.fee_amount) (net_of w)

-- The settle postings add up to what the fee and the net amount leave of the gross amount: the
-- reservation, the wallet fee and its drift cancel out, whatever they are. So the entry balances if
-- and only if the fee and the net amount make up the gross amount.
pub settle_postings_balanced_iff :
    (w : Withdrawal) (committed : ℤ) (actual : Option ℤ) (hold in_flight expense income hot : ℕ)
    → (sum_of (λ p. p.1) (settle_postings w committed actual hold in_flight expense income hot)
        ≡ pos 0)
      ↔ (or_zero w.fee_amount +ℤ net_of w ≡ w.amount_gross)
settle_postings_balanced_iff w c actual hold in_flight expense income hot =
    let total = settle_postings-total w c actual hold in_flight expense income hot in
    (
      λ h.
          sub_self_sub w.amount_gross _
          ∙ ap (λ x. w.amount_gross -ℤ x) (sym total ∙ h)
          ∙ sub_zero w.amount_gross,
      λ h. total ∙ ap (λ x. w.amount_gross -ℤ x) h ∙ sub_self w.amount_gross,
    )
