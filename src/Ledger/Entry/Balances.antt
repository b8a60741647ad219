-- ===== src/Ledger/Entry/Balances.antt =====
-- The balances after the deltas have been applied.
use crypto_processing_api.Prelude.{
  ℕ, ◌≡◌, refl, sym, ◌∙◌, ap, true, ℤ, pos, ◌+ℤ◌, is_zero, is_zero→eq, int_laws, List, [], ◌∷◌, map,
  if◌then◌else◌, ◌==◌, sum_of, Bool-cases, ==_comm, inl, inr, add_zero, map-map_of, map-cong,
  map-same,
}
use crypto_processing_api.Errors.{ok, bind, bind-eq-ok}
use crypto_processing_api.Models.{Account}
use crypto_processing_api.Ledger.Store.{add_to, check_rows, update_balance}
use crypto_processing_api.Ledger.Entry.{PostingPair, apply_delta, apply_deltas}
use crypto_processing_api.Ledger.Entry.Deltas.{pair_at, total_at}

-- An account after the postings: its balance has moved by their sum at the account.
abbrev pub with_balance : Account → ℤ → Account
with_balance a b = record a { balance = b }

unfoldable pub shift : List PostingPair → Account → Account
shift postings a = with_balance a (a.balance +ℤ total_at a.id postings)

shift-nil : (a : Account) → shift [] a ≡ a
unfolding shift total_at sum_of
shift-nil a = ap (with_balance a) (add_zero a.balance)

shift-cons :
    (p : PostingPair) (items : List PostingPair) (a : Account)
    → shift items (shift (p ∷ []) a) ≡ shift (p ∷ items) a
unfolding shift total_at sum_of
shift-cons p items a = ap (with_balance a) (omega int_laws)

shift-one :
    (k : ℕ) (delta : ℤ) (a : Account)
    → shift ((k, delta) ∷ []) a ≡ with_balance a (a.balance +ℤ (if a.id == k then delta else pos 0))
unfolding shift total_at sum_of pair_at
shift-one k delta a = ap (with_balance a) (
    ap (λ x. a.balance +ℤ x)
      (add_zero (pair_at a.id (k, delta)) ∙ ap (λ b. if b then delta else pos 0) (==_comm k a.id)))

shift-add_to : (k : ℕ) (delta : ℤ) (a : Account) → add_to k delta a ≡ shift ((k, delta) ∷ []) a
unfolding add_to
shift-add_to k delta a = rw (shift-one k delta a) (elim (Bool-cases (a.id == k)) [
  | inl same ↦ rw same refl
  | inr other ↦ rw other (sym (ap (with_balance a) (add_zero a.balance)))
])

shift-zero :
    (k : ℕ) (delta : ℤ) → is_zero delta ≡ true → (a : Account) → shift ((k, delta) ∷ []) a ≡ a
shift-zero k delta h a =
    rw (shift-one k delta a, is_zero→eq delta h)
      (elim (Bool-cases (a.id == k)) [
        | inl same ↦ rw same (ap (with_balance a) (add_zero a.balance))
        | inr other ↦ rw other (ap (with_balance a) (add_zero a.balance))
      ])

apply_delta-eq :
    (p : PostingPair) (rows : List Account) {rows' : List Account}
    → apply_delta p rows ≡ ok rows'
    → rows' ≡ map (shift (p ∷ [])) rows
unfolding apply_delta update_balance
apply_delta-eq (k, delta) rows {rows'} h = elim (Bool-cases (is_zero delta)) [
  | inl nothing ↦
      let skipped : ok rows ≡ ok rows' = rw nothing at h in
      sym (map-same (shift ((k, delta) ∷ [])) (shift-zero k delta nothing) rows ∙ (cc))
  | inr some_delta ↦
      let done : bind (check_rows k (map (add_to k delta) rows))
            (λ _. ok (map (add_to k delta) rows))
          ≡ ok rows' =
        rw some_delta at h in
      let (u, _, e) = bind-eq-ok (check_rows k (map (add_to k delta) rows)) _ done in
      sym (cc) ∙ map-cong (add_to k delta) (shift ((k, delta) ∷ [])) (shift-add_to k delta) rows
]

pub apply_deltas-eq :
    (items : List PostingPair) (rows : List Account) {rows' : List Account}
    → apply_deltas items rows ≡ ok rows'
    → rows' ≡ map (shift items) rows
unfolding apply_deltas
apply_deltas-eq [] rows h = sym (map-same (shift []) shift-nil rows ∙ (cc))
apply_deltas-eq (p ∷ items) rows h =
    let (rows₁, first, rest) = bind-eq-ok (apply_delta p rows) (apply_deltas items) h in
    apply_deltas-eq items rows₁ rest
    ∙ ap (map (shift items)) (apply_delta-eq p rows first)
    ∙ map-map_of (shift items) (shift (p ∷ [])) (shift (p ∷ items)) (shift-cons p items) rows
