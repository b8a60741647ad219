-- ===== src/Ledger/Consistency/Sums.antt =====
-- The sums of the books over the ledger with one more entry.
use crypto_processing_api.Prelude.{
  ℕ, ◌≡◌, ◌≢◌, refl, sym, ◌∙◌, ap, subst, ℤ, pos, ◌+ℤ◌, int_laws, true, false, List, [], ◌∷◌, map,
  some, All, find, sum_of, ◌==◌, ==_iff, ==_comm, Bool-cases, inl, inr, arith, if◌then◌else◌,
  zero_add, add_zero,
}
use crypto_processing_api.Models.{Account}
use crypto_processing_api.Ledger.Store.{has_id}
use crypto_processing_api.Ledger.Audit.{amount_at, amount_in, balance_in}
use crypto_processing_api.Ledger.Entry.{PostingPair, posting_of}
use crypto_processing_api.Ledger.Entry.Deltas.{pair_at, total_at}
use crypto_processing_api.Ledger.Entry.Balances.{shift}
use crypto_processing_api.Ledger.Consistency.{HasUniqueIds}
use crypto_processing_api.Ledger.Consistency.Accepted.{HoldsAsset}

-- The postings of an entry, read back from the table.
pub sum_of-amount_at :
    (e k : ℕ) (postings : List PostingPair)
    → sum_of (amount_at k) (map (posting_of e) postings) ≡ total_at k postings
unfolding sum_of amount_at posting_of total_at pair_at
sum_of-amount_at e k [] = refl
sum_of-amount_at e k ((j, x) ∷ postings) =
    ap (λ s. (if j == k then x else pos 0) +ℤ s) (sum_of-amount_at e k postings)

pub sum_of-amount_in :
    (e k : ℕ) (postings : List PostingPair)
    → sum_of (amount_in k) (map (posting_of e) postings)
      ≡ (if e == k then sum_of (λ p. p.1) postings else pos 0)
unfolding sum_of amount_in posting_of
sum_of-amount_in e k [] = elim (Bool-cases (e == k)) [ inl t ↦ rw t refl | inr f ↦ rw f refl ]
sum_of-amount_in e k ((j, x) ∷ postings) = elim (Bool-cases (e == k)) [
  | inl same ↦ rw (sum_of-amount_in e k postings) (rw same refl)
  | inr other ↦ rw (sum_of-amount_in e k postings) (rw other (zero_add (pos 0)))
]

-- A posting's share in the accounts of one asset.
share : ℕ → PostingPair → Account → ℤ
share asset p a = if a.asset_id == asset then pair_at a.id p else pos 0

share_none :
    (asset : ℕ) (p : PostingPair) (rows : List Account)
    → All (λ b. b.id ≢ p.0) rows
    → sum_of (share asset p) rows ≡ pos 0
unfolding sum_of share pair_at
share_none asset p [] h = refl
share_none asset p (b ∷ rows) h =
    rw (share_none asset p rows h.1) (ground (arith, zero_add (pos 0)))

share_here :
    (asset : ℕ) (p : PostingPair) (b : Account)
    → (b.id == p.0) ≡ true
    → share asset p b ≡ (if b.asset_id == asset then p.1 else pos 0)
unfolding share pair_at
share_here asset p b h = rw (==_comm p.0 b.id) (rw h refl)

share_there :
    (asset : ℕ) (p : PostingPair) (b : Account) → (b.id == p.0) ≡ false → share asset p b ≡ pos 0
unfolding share pair_at
share_there asset p b h =
    rw (==_comm p.0 b.id)
      (rw h (elim (Bool-cases (b.asset_id == asset)) [ inl t ↦ rw t refl | inr f ↦ rw f refl ]))

-- One row has the id, so the whole amount is counted once, if that row is of the asset.
share_one :
    (asset : ℕ) (p : PostingPair) (rows : List Account) (a : Account)
    → HasUniqueIds rows
    → find (has_id p.0) rows ≡ some a
    → sum_of (share asset p) rows ≡ (if a.asset_id == asset then p.1 else pos 0)
unfolding sum_of has_id
share_one asset p [] a u h = absurd (cc)
share_one asset p (b ∷ rows) a u h = elim (Bool-cases (b.id == p.0)) [
  | inl same ↦
      let this : some b ≡ some a = rw same at h in
      ap (λ s. share asset p b +ℤ s)
        (share_none asset p rows
          (subst (λ k. All (λ c. c.id ≢ k) rows) ((==_iff b.id p.0).0 same) u.0))
      ∙ add_zero (share asset p b)
      ∙ share_here asset p b same
      ∙ (let equal : b ≡ a = (cc) in
          ap (λ (c : Account). if c.asset_id == asset then p.1 else pos 0) equal)
  | inr other ↦
      let later : find (has_id p.0) rows ≡ some a = rw other at h in
      ap (λ x. x +ℤ sum_of (share asset p) rows) (share_there asset p b other)
      ∙ zero_add (sum_of (share asset p) rows)
      ∙ share_one asset p rows a u.1 later
]

-- What the postings add to the balances of one asset.
gain : ℕ → List PostingPair → Account → ℤ
gain asset postings a = if a.asset_id == asset then total_at a.id postings else pos 0

gain-cons :
    (asset : ℕ) (p : PostingPair) (ps : List PostingPair) (a : Account)
    → gain asset (p ∷ ps) a ≡ share asset p a +ℤ gain asset ps a
unfolding gain share total_at sum_of
gain-cons asset p ps a = elim (Bool-cases (a.asset_id == asset)) [
  | inl t ↦ rw t refl
  | inr f ↦ rw f (sym (zero_add (pos 0)))
]

sum_of-plus {ℓ} :
    {A : Type ℓ} (f g h : A → ℤ) (e : (a : A) → f a ≡ g a +ℤ h a) (xs : List A)
    → sum_of f xs ≡ sum_of g xs +ℤ sum_of h xs
unfolding sum_of
sum_of-plus f g h e [] = sym (zero_add (pos 0))
sum_of-plus f g h e (x ∷ xs) = rw (e x, sum_of-plus f g h e xs) (omega int_laws)

gain_none : (asset : ℕ) (rows : List Account) → sum_of (gain asset []) rows ≡ pos 0
unfolding sum_of gain total_at
gain_none asset [] = refl
gain_none asset (a ∷ rows) = rw (gain_none asset rows) (elim (Bool-cases (a.asset_id == asset)) [
  | inl t ↦ rw t (zero_add (pos 0))
  | inr f ↦ rw f (zero_add (pos 0))
])

-- The postings of an entry add their sum to the balances of its own asset, and nothing to others.
sum_of-gain :
    (asset own : ℕ) (postings : List PostingPair) (rows : List Account)
    → HasUniqueIds rows
    → All (λ p. HoldsAsset own rows p.0) postings
    → sum_of (gain asset postings) rows
      ≡ (if own == asset then sum_of (λ p. p.1) postings else pos 0)
unfolding sum_of
sum_of-gain asset own [] rows u h =
    gain_none asset rows
    ∙ elim (Bool-cases (own == asset)) [ inl t ↦ rw t refl | inr f ↦ rw f refl ]
sum_of-gain asset own (p ∷ ps) rows u ((a, found, same), rest) =
    sum_of-plus (gain asset (p ∷ ps)) (share asset p) (gain asset ps) (gain-cons asset p ps) rows
    ∙ rw (share_one asset p rows a u found, sum_of-gain asset own ps rows u rest, same)
        (elim (Bool-cases (own == asset)) [ inl t ↦ rw t refl | inr f ↦ rw f (zero_add (pos 0)) ])

balance_in-shift :
    (asset : ℕ) (postings : List PostingPair) (a : Account)
    → balance_in asset (shift postings a) ≡ balance_in asset a +ℤ gain asset postings a
unfolding balance_in shift gain
balance_in-shift asset postings a = elim (Bool-cases (a.asset_id == asset)) [
  | inl t ↦ rw t refl
  | inr f ↦ rw f (sym (zero_add (pos 0)))
]

sum_of-map {ℓ} :
    {A : Type ℓ} (f : A → ℤ) (g : A → A) (xs : List A)
    → sum_of f (map g xs) ≡ sum_of (λ a. f (g a)) xs
unfolding sum_of
sum_of-map f g [] = refl
sum_of-map f g (x ∷ xs) = ap (λ s. f (g x) +ℤ s) (sum_of-map f g xs)

-- An entry that sums to zero leaves the sum of every asset's balances alone.
pub sum_of-balance_in-shift :
    (asset own : ℕ) (postings : List PostingPair) (rows : List Account)
    → HasUniqueIds rows
    → All (λ p. HoldsAsset own rows p.0) postings
    → sum_of (λ p. p.1) postings ≡ pos 0
    → sum_of (balance_in asset) (map (shift postings) rows) ≡ sum_of (balance_in asset) rows
sum_of-balance_in-shift asset own postings rows u h zero_sum =
    sum_of-map (balance_in asset) (shift postings) rows
    ∙ sum_of-plus (λ a. balance_in asset (shift postings a)) (balance_in asset)
        (gain asset postings) (balance_in-shift asset postings) rows
    ∙ ap (λ x. sum_of (balance_in asset) rows +ℤ x)
        (sum_of-gain asset own postings rows u h
          ∙ rw zero_sum
              (elim (Bool-cases (own == asset)) [ inl t ↦ rw t refl | inr f ↦ rw f refl ]))
    ∙ add_zero (sum_of (balance_in asset) rows)
