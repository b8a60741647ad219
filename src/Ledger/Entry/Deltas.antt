-- ===== src/Ledger/Entry/Deltas.antt =====
-- The deltas of `post_entry` and the postings they are collected from add up to the same sums, over
-- all of them and at each account.
use crypto_processing_api.Prelude.{
  ℕ, ◌≡◌, refl, ◌∙◌, ap, ℤ, pos, ◌+ℤ◌, is_zero, int_laws, List, [], ◌∷◌, if◌then◌else◌, ◌==◌, leb,
  sum_of, Bool-cases, ==_iff, inl, inr, zero_add,
}
use crypto_processing_api.Errors.{ok}
use crypto_processing_api.Ledger.Entry.{
  PostingPair, add_delta, collect_deltas, insert_item, sorted_items,
}

-- What a pair contributes to one account.
unfoldable pub pair_at : ℕ → PostingPair → ℤ
pair_at k (j, x) = if j == k then x else pos 0

-- The sum of the postings to one account.
unfoldable pub total_at : ℕ → List PostingPair → ℤ
total_at k = sum_of (pair_at k)

-- A measure of pairs that adds up over two amounts at one account.
pub record IsAdditive (f : PostingPair → ℤ) : Type 0 where
  pub merge : (k : ℕ) (x y : ℤ) → f (k, x +ℤ y) ≡ f (k, x) +ℤ f (k, y)
  pub fresh : (k : ℕ) (x : ℤ) → f (k, pos 0 +ℤ x) ≡ f (k, x)

pub pair_at-IsAdditive : (k : ℕ) → IsAdditive (pair_at k)
unfolding pair_at
pair_at-IsAdditive k = record {
  merge = λ j x y. elim (Bool-cases (j == k)) [
    | inl same ↦ rw same refl
    | inr other ↦ rw other (omega int_laws)
  ];
  fresh = λ j x. rw zero_add refl;
}

pub amount-IsAdditive : IsAdditive (λ p. p.1)
amount-IsAdditive = record { merge = λ k x y. refl; fresh = λ k x. zero_add x }

module _ (f : PostingPair → ℤ) (additive : IsAdditive f) where
  sum_of-add_delta :
      (deltas : List PostingPair) (k : ℕ) (x : ℤ)
      → sum_of f (add_delta deltas (k, x)) ≡ sum_of f deltas +ℤ f (k, x)
  unfolding add_delta sum_of
  sum_of-add_delta [] k x = rw (additive.fresh k x) (omega int_laws)
  sum_of-add_delta ((j, y) ∷ deltas) k x = elim (Bool-cases (j == k)) [
    | inl same ↦ rw same (rw (additive.merge j y x, ← (==_iff j k).0 same) (omega int_laws))
    | inr other ↦ rw other (rw (sum_of-add_delta deltas k x) (omega int_laws))
  ]

  pub sum_of-collect_deltas :
      (deltas postings : List PostingPair) {all : List PostingPair}
      → collect_deltas deltas postings ≡ ok all
      → sum_of f all ≡ sum_of f deltas +ℤ sum_of f postings
  unfolding collect_deltas sum_of
  sum_of-collect_deltas deltas [] h = grind int_laws
  sum_of-collect_deltas deltas ((k, x) ∷ postings) h = elim (Bool-cases (is_zero x)) [
    | inl zero_amount ↦ absurd (cc (rw zero_amount at h))
    | inr other ↦
        sum_of-collect_deltas (add_delta deltas (k, x)) postings (rw other at h)
        ∙ rw (sum_of-add_delta deltas k x) (omega int_laws)
  ]

  sum_of-insert_item :
      (p : PostingPair) (items : List PostingPair)
      → sum_of f (insert_item p items) ≡ f p +ℤ sum_of f items
  unfolding insert_item sum_of
  sum_of-insert_item p [] = refl
  sum_of-insert_item p (q ∷ items) = elim (Bool-cases (leb p.0 q.0)) [
    | inl low ↦ rw low refl
    | inr high ↦ rw high (rw (sum_of-insert_item p items) (omega int_laws))
  ]

  pub sum_of-sorted_items :
      (items : List PostingPair) → sum_of f (sorted_items items) ≡ sum_of f items
  unfolding sorted_items sum_of
  sum_of-sorted_items [] = refl
  sum_of-sorted_items (p ∷ items) =
      sum_of-insert_item p (sorted_items items) ∙ ap (λ s. f p +ℤ s) (sum_of-sorted_items items)
