-- ===== src/Withdrawals/Entries/Effects.antt =====
-- What pairs of entries of a withdrawal do to the balances.
use mathlib.Core.Option
use crypto_processing_api.Prelude.{
  ℕ, ◌≡◌, refl, ◌∙◌, ap, ℤ, pos, ◌+ℤ◌, ◌-ℤ◌, neg, Bool-cases, inl, inr, false, Option, none, some,
  List, [], ◌∷◌, sum_of, int_laws, ◌==◌, ==_self, All, find,
}
use crypto_processing_api.Errors.{ok}
use crypto_processing_api.Models.{Account, JournalEntry}
use crypto_processing_api.Ledger.Store.{Ledger, has_id}
use crypto_processing_api.Ledger.Entry.{post_entry}
use crypto_processing_api.Ledger.Entry.Deltas.{total_at, pair_at}
use crypto_processing_api.Ledger.Entry.Balances.{shift, with_balance}
use crypto_processing_api.Ledger.Entry.Replay.{post_entry_balances}
use crypto_processing_api.Withdrawals.Rows.{Withdrawal}
use crypto_processing_api.Withdrawals.Entries.{
  or_zero, drift_of, settle_postings, hold_entry, release_entry, submit_entry, unsubmit_entry,
}
use crypto_processing_api.Withdrawals.Entries.Sums.{fee_paid, net_of, settle_postings-sum}

pair_at-neg : (k j : ℕ) (x : ℤ) → pair_at k (j, neg x) ≡ neg (pair_at k (j, x))
unfolding pair_at neg
pair_at-neg k j x = elim (Bool-cases (j == k)) [
  | inl same ↦ rw same refl
  | inr other ↦ rw other refl
]

pair_at-zero : (k j : ℕ) → pair_at k (j, pos 0) ≡ pos 0
unfolding pair_at
pair_at-zero k j = elim (Bool-cases (j == k)) [
  | inl same ↦ rw same refl
  | inr other ↦ rw other refl
]

cancels : (x y : ℤ) → x +ℤ (neg y +ℤ pos 0) +ℤ (y +ℤ (neg x +ℤ pos 0)) ≡ pos 0
cancels x y = omega int_laws

-- A transfer and the same transfer the other way leave every balance alone.
opposite :
    (k from to : ℕ) (x : ℤ)
    → total_at k ((from, x) ∷ (to, neg x) ∷ []) +ℤ total_at k ((to, x) ∷ (from, neg x) ∷ []) ≡ pos 0
unfolding total_at sum_of
opposite k from to x =
    rw (pair_at-neg k from x, pair_at-neg k to x)
      (cancels (pair_at k (from, x)) (pair_at k (to, x)))

regroup : (x y z : ℤ) → x +ℤ y +ℤ z ≡ x +ℤ (y +ℤ z)
regroup x y z = omega int_laws

nothing_more : (x : ℤ) → x +ℤ pos 0 ≡ x
nothing_more x = omega int_laws

shift_back :
    (from to : ℕ) (x : ℤ) (a : Account)
    → shift ((to, x) ∷ (from, neg x) ∷ []) (shift ((from, x) ∷ (to, neg x) ∷ []) a) ≡ a
unfolding shift
shift_back from to x a = ap (with_balance a) (
    regroup a.balance (total_at a.id ((from, x) ∷ (to, neg x) ∷ []))
      (total_at a.id ((to, x) ∷ (from, neg x) ∷ []))
    ∙ ap (λ y. a.balance +ℤ y) (opposite a.id from to x)
    ∙ nothing_more a.balance)

found_back :
    (from to : ℕ) (x : ℤ) (o : Option Account)
    → Option.map
        (shift ((to, x) ∷ (from, neg x) ∷ []))
        (Option.map (shift ((from, x) ∷ (to, neg x) ∷ [])) o)
      ≡ o
found_back from to x none = refl
found_back from to x (some a) = ap some (shift_back from to x a)

-- When a hold is posted and then released, every account is as it was before.
pub release_undoes_hold :
    (w : Withdrawal) (available hold : ℕ) (l l₁ l₂ : Ledger) (e₁ e₂ : JournalEntry)
    → post_entry (hold_entry w available hold) l ≡ (ok e₁, l₁)
    → post_entry (release_entry w hold available) l₁ ≡ (ok e₂, l₂)
    → (k : ℕ) → find (has_id k) l₂.accounts ≡ find (has_id k) l.accounts
unfolding hold_entry release_entry
release_undoes_hold w available hold l l₁ l₂ e₁ e₂ held released k =
    post_entry_balances (release_entry w hold available) l₁ k released
    ∙ ap (Option.map (shift (release_entry w hold available).postings))
        (post_entry_balances (hold_entry w available hold) l k held)
    ∙ found_back available hold w.amount_gross (find (has_id k) l.accounts)

-- The two entries of a reservation and of its reversal cancel on every account.
pub reservation_given_back :
    (w v : Withdrawal) (submit in_flight hot : ℕ) (c : ℤ) (l l₁ l₂ : Ledger) (e₁ e₂ : JournalEntry)
    → post_entry (submit_entry w in_flight hot c) l ≡ (ok e₁, l₁)
    → post_entry (unsubmit_entry v submit hot in_flight c) l₁ ≡ (ok e₂, l₂)
    → (k : ℕ) → find (has_id k) l₂.accounts ≡ find (has_id k) l.accounts
unfolding submit_entry unsubmit_entry
reservation_given_back w v submit in_flight hot c l l₁ l₂ e₁ e₂ sent reversed k =
    post_entry_balances (unsubmit_entry v submit hot in_flight c) l₁ k reversed
    ∙ ap (Option.map (shift (unsubmit_entry v submit hot in_flight c).postings))
        (post_entry_balances (submit_entry w in_flight hot c) l k sent)
    ∙ found_back in_flight hot c (find (has_id k) l.accounts)

-- None of these accounts is the account `k`.
abbrev pub AreOther : ℕ → List ℕ → Type 0
AreOther k ids = All (λ j. (j == k) ≡ false) ids

pair_at_self : (k : ℕ) (x : ℤ) → pair_at k (k, x) ≡ x
unfolding pair_at
pair_at_self k x = rw (==_self k) refl

pair_at-other : (k j : ℕ) (x : ℤ) → (j == k) ≡ false → pair_at k (j, x) ≡ pos 0
unfolding pair_at
pair_at-other k j x h = rw h refl

wallet_sum :
    (c paid net : ℤ)
    → pos 0
        +ℤ (neg c +ℤ pos 0)
        +ℤ (pos 0 +ℤ (pos 0 +ℤ (pos 0 +ℤ (pos 0 +ℤ neg (paid -ℤ (c -ℤ net))))))
      ≡ neg (net +ℤ paid)
wallet_sum c paid net = omega int_laws

wallet_sum_of :
    (w : Withdrawal) (c : ℤ) (actual : Option ℤ)
    → pos 0
        +ℤ (neg c +ℤ pos 0)
        +ℤ (pos 0 +ℤ (pos 0 +ℤ (pos 0 +ℤ (pos 0 +ℤ neg (drift_of w c actual)))))
      ≡ neg (net_of w +ℤ fee_paid w c actual)
unfolding drift_of
wallet_sum_of w c actual = wallet_sum c (fee_paid w c actual) (net_of w)

transit_sum :
    (c : ℤ) → c +ℤ (pos 0 +ℤ pos 0) +ℤ (pos 0 +ℤ (neg c +ℤ (pos 0 +ℤ (pos 0 +ℤ pos 0)))) ≡ pos 0
transit_sum c = omega int_laws

-- Over its submit and settle entries, a withdrawal takes out of the hot wallet the net amount and the
-- fee that the wallet paid, whatever had been reserved, and leaves nothing in flight; for accounts
-- that are different ones.
pub settled_effect :
    (w : Withdrawal) (c : ℤ) (actual : Option ℤ) (hold in_flight expense income hot : ℕ)
    → AreOther hot (hold ∷ in_flight ∷ expense ∷ income ∷ [])
    → AreOther in_flight (hold ∷ expense ∷ income ∷ hot ∷ [])
    → (total_at hot (submit_entry w in_flight hot c).postings
          +ℤ total_at hot (settle_postings w c actual hold in_flight expense income hot)
        ≡ neg (net_of w +ℤ fee_paid w c actual))
      × (total_at in_flight (submit_entry w in_flight hot c).postings
            +ℤ total_at in_flight (settle_postings w c actual hold in_flight expense income hot)
          ≡ pos 0)
unfolding submit_entry total_at sum_of
settled_effect w c actual hold in_flight expense income hot u v = (
  (rw
      (
        settle_postings-sum (pair_at hot) (pair_at-zero hot) w c actual hold in_flight expense
            income hot,
        pair_at-other hot hold w.amount_gross u.0,
        pair_at-other hot in_flight c u.1.0,
        pair_at-other hot in_flight (neg c) u.1.0,
        pair_at-other hot expense (fee_paid w c actual) u.1.1.0,
        pair_at-other hot income (neg (or_zero w.fee_amount)) u.1.1.1.0,
        pair_at_self hot (neg c),
        pair_at_self hot (neg (drift_of w c actual)),
      )
      (wallet_sum_of w c actual)),
  (rw
      (
        settle_postings-sum (pair_at in_flight) (pair_at-zero in_flight) w c actual hold in_flight
            expense income hot,
        pair_at-other in_flight hold w.amount_gross v.0,
        pair_at-other in_flight expense (fee_paid w c actual) v.1.0,
        pair_at-other in_flight income (neg (or_zero w.fee_amount)) v.1.1.0,
        pair_at-other in_flight hot (neg c) v.1.1.1.0,
        pair_at-other in_flight hot (neg (drift_of w c actual)) v.1.1.1.0,
        pair_at_self in_flight c,
        pair_at_self in_flight (neg c),
      )
      (transit_sum c)),
)
