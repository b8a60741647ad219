-- ===== src/Ledger/Consistency/Accepted.antt =====
-- What the checks of `post_entry` leave true of its postings: each names an account of the entry's
-- asset.
use crypto_processing_api.Prelude.{
  ℕ, ◌≡◌, sym, ℤ, ◌+ℤ◌, is_zero, List, [], ◌∷◌, map, some, All, All-of_map, find, leb, ◌==◌, ==_iff,
  Bool-cases, inl, inr,
}
use crypto_processing_api.Errors.{ok, bind-eq-ok, from_option, from_option-eq-ok, account_not_found}
use crypto_processing_api.Models.{Account}
use crypto_processing_api.Ledger.Store.{Ledger, has_id}
use crypto_processing_api.Ledger.Accounts.{lock_accounts, lock_each, sorted, insert_sorted}
use crypto_processing_api.Ledger.Entry.{
  PostingPair, EntryArgs, add_delta, collect_deltas, check_assets,
}
use crypto_processing_api.Ledger.Entry.Outcome.{Accepted}

-- The row with this id is there, and is of this asset.
abbrev pub HoldsAsset : ℕ → List Account → ℕ → Type 0
HoldsAsset asset rows k = (a : Account) × (find (has_id k) rows ≡ some a) × (a.asset_id ≡ asset)

module _ (P : ℕ → Type 0) where
  add_delta-All :
      (deltas : List PostingPair) (k : ℕ) (x : ℤ)
      → All (λ p. P p.0) (add_delta deltas (k, x))
      → P k × All (λ p. P p.0) deltas
  unfolding add_delta
  add_delta-All [] k x h = (h.0, tt)
  add_delta-All ((j, y) ∷ deltas) k x h = elim (Bool-cases (j == k)) [
    | inl same ↦
        let both : All (λ p. P p.0) ((j, y +ℤ x) ∷ deltas) = rw same at h in
        (rw (← (==_iff j k).0 same) both.0, both)
    | inr other ↦
        let both : All (λ p. P p.0) ((j, y) ∷ add_delta deltas (k, x)) = rw other at h in
        let (here, rest) = add_delta-All deltas k x both.1 in (here, (both.0, rest))
  ]

  pub collect_deltas-All :
      (deltas postings : List PostingPair) {all : List PostingPair}
      → collect_deltas deltas postings ≡ ok all
      → All (λ p. P p.0) all
      → All (λ p. P p.0) postings × All (λ p. P p.0) deltas
  unfolding collect_deltas
  collect_deltas-All deltas [] {all} h a = let same : all ≡ deltas = sym (cc) in (tt, rw same at a)
  collect_deltas-All deltas ((k, x) ∷ postings) h a = elim (Bool-cases (is_zero x)) [
    | inl zero_amount ↦ absurd (cc (rw zero_amount at h))
    | inr other ↦
        let (rest, more) =
          collect_deltas-All (add_delta deltas (k, x)) postings (rw other at h) a in
        let (here, before) = add_delta-All deltas k x more in ((here, rest), before)
  ]

  insert_sorted-All : (k : ℕ) (ids : List ℕ) → All P (insert_sorted k ids) → P k × All P ids
  unfolding insert_sorted
  insert_sorted-All k [] h = h
  insert_sorted-All k (j ∷ ids) h = elim (Bool-cases (leb k j)) [
    | inl low ↦ let all : All P (k ∷ j ∷ ids) = rw low at h in all
    | inr high ↦
        let all : All P (j ∷ insert_sorted k ids) = rw high at h in
        let (here, rest) = insert_sorted-All k ids all.1 in (here, (all.0, rest))
  ]

  pub sorted-All : (ids : List ℕ) → All P (sorted ids) → All P ids
  unfolding sorted
  sorted-All [] h = tt
  sorted-All (k ∷ ids) h =
      let (here, rest) = insert_sorted-All k (sorted ids) h in (here, sorted-All ids rest)

lock_each-HoldsAsset :
    (asset : ℕ) (ids : List ℕ) (rows : List Account) {locked : List Account}
    → lock_each ids rows ≡ ok locked
    → check_assets asset locked ≡ ok tt
    → All (HoldsAsset asset rows) ids
unfolding lock_each check_assets
lock_each-HoldsAsset asset [] rows h c = tt
lock_each-HoldsAsset asset (k ∷ ids) rows {locked} h c =
    let (a, found, h₁) = bind-eq-ok (from_option account_not_found (find (has_id k) rows)) _ h in
    let (rest, held, h₂) = bind-eq-ok (lock_each ids rows) _ h₁ in
    let split : locked ≡ a ∷ rest = sym (cc) in
    let c' : check_assets asset (a ∷ rest) ≡ ok tt = rw split at c in
    elim (Bool-cases (a.asset_id == asset)) [
      | inl same ↦ (
        (a, from_option-eq-ok _ _ found, (==_iff a.asset_id asset).0 same),
        lock_each-HoldsAsset asset ids rows held (rw same at c'),
      )
      | inr other ↦ absurd (cc (rw other at c'))
    ]

-- Every posting of an entry that was accepted names an account of the entry's asset.
pub postings-HoldsAsset :
    (args : EntryArgs) (l : Ledger)
    → Accepted args l
    → All (λ p. HoldsAsset args.asset_id l.accounts p.0) args.postings
unfolding lock_accounts
postings-HoldsAsset args l c =
    (collect_deltas-All (HoldsAsset args.asset_id l.accounts) [] args.postings c.collected (
      All-of_map (HoldsAsset args.asset_id l.accounts) (λ p. p.0) c.deltas
        (sorted-All (HoldsAsset args.asset_id l.accounts) (map (λ p. p.0) c.deltas) (
          lock_each-HoldsAsset args.asset_id (sorted (map (λ p. p.0) c.deltas)) l.accounts c.held
            c.one_asset)))).0
