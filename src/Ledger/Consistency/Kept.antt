-- ===== src/Ledger/Consistency/Kept.antt =====
-- `post_entry` keeps the books consistent.
use crypto_processing_api.Prelude.{
  ℕ, ◌+◌, ◌<◌, ◌≡◌, ◌≢◌, refl, sym, ◌∙◌, ap, subst, ℤ, pos, ◌+ℤ◌, is_zero, List, [], ◌∷◌, ◌++◌, map,
  All, All-map, All-imp, All-append, sum_of, sum_of-append, ◌==◌, ==_iff, Bool-cases, inl, inr,
  arith, zero_add,
}
use crypto_processing_api.Errors.{ok, bind, bind-eq-ok}
use crypto_processing_api.Exec.Keeps.{Keeps}
use crypto_processing_api.Exec.Atomic.{Keeps-of_Atomic}
use crypto_processing_api.Models.{Account, Posting}
use crypto_processing_api.Ledger.Store.{
  Ledger, has_id, check_account, check_row, check_rows, add_to, update_balance,
}
use crypto_processing_api.Ledger.Audit.{derived_balance, entry_total, amount_at, amount_in}
use crypto_processing_api.Ledger.Entry.{
  PostingPair, EntryArgs, apply_delta, apply_deltas, posting_of, post_entry, sorted_items,
  new_entry,
}
use crypto_processing_api.Ledger.Entry.Balances.{shift}
use crypto_processing_api.Ledger.Entry.Outcome.{
  Accepted, posted, shifted-eq, post_entry-eq-ok, post_entry-Atomic,
}
use crypto_processing_api.Ledger.Consistency.{HasUniqueIds, IsConsistent}
use crypto_processing_api.Ledger.Consistency.Accepted.{HoldsAsset, postings-HoldsAsset}
use crypto_processing_api.Ledger.Book.{IsHistory, then_post, is_there}
use crypto_processing_api.Ledger.Book.Posted.{book-posted}
use crypto_processing_api.Ledger.Consistency.Sources.{HasUniqueSources-append}
use crypto_processing_api.Ledger.Consistency.Sums.{
  sum_of-amount_at, sum_of-amount_in, sum_of-balance_in-shift,
}

abbrev IsAllowed : List Account → Type 0
IsAllowed = All (λ a. check_account a ≡ ok tt)

-- An update checks the rows that it changes.
check_row-allows :
    (k : ℕ) (delta : ℤ) (a : Account)
    → check_account a ≡ ok tt
    → check_row k (add_to k delta a) ≡ ok tt
    → check_account (add_to k delta a) ≡ ok tt
unfolding check_row add_to
check_row-allows k delta a h c = ground arith

check_rows-IsAllowed :
    (k : ℕ) (delta : ℤ) (rows : List Account)
    → IsAllowed rows
    → check_rows k (map (add_to k delta) rows) ≡ ok tt
    → IsAllowed (map (add_to k delta) rows)
unfolding check_rows
check_rows-IsAllowed k delta [] h c = tt
check_rows-IsAllowed k delta (a ∷ rows) h c =
    let (u, here, rest) = bind-eq-ok (check_row k (add_to k delta a)) _ c in
    (check_row-allows k delta a h.0 here, check_rows-IsAllowed k delta rows h.1 rest)

apply_delta-IsAllowed :
    (p : PostingPair) (rows : List Account) {rows' : List Account}
    → IsAllowed rows
    → apply_delta p rows ≡ ok rows'
    → IsAllowed rows'
unfolding apply_delta update_balance
apply_delta-IsAllowed (k, delta) rows {rows'} h e = elim (Bool-cases (is_zero delta)) [
  | inl nothing ↦
      let skipped : ok rows ≡ ok rows' = rw nothing at e in
      let same : rows ≡ rows' = (cc) in rw (← same) h
  | inr some_delta ↦
      let done : bind (check_rows k (map (add_to k delta) rows))
            (λ _. ok (map (add_to k delta) rows))
          ≡ ok rows' =
        rw some_delta at e in
      let (u, checked, e₁) = bind-eq-ok (check_rows k (map (add_to k delta) rows)) _ done in
      let same : map (add_to k delta) rows ≡ rows' = (cc) in
      rw (← same) (check_rows-IsAllowed k delta rows h checked)
]

apply_deltas-IsAllowed :
    (items : List PostingPair) (rows : List Account) {rows' : List Account}
    → IsAllowed rows
    → apply_deltas items rows ≡ ok rows'
    → IsAllowed rows'
unfolding apply_deltas
apply_deltas-IsAllowed [] rows {rows'} h e = let same : rows ≡ rows' = (cc) in rw (← same) h
apply_deltas-IsAllowed (p ∷ items) rows h e =
    let (rows₁, first, rest) = bind-eq-ok (apply_delta p rows) (apply_deltas items) e in
    apply_deltas-IsAllowed items rows₁ (apply_delta-IsAllowed p rows h first) rest

shift-HasUniqueIds :
    (ps : List PostingPair) (rows : List Account)
    → HasUniqueIds rows
    → HasUniqueIds (map (shift ps) rows)
unfolding shift
shift-HasUniqueIds ps [] h = tt
shift-HasUniqueIds ps (a ∷ rows) h =
    (All-map (λ (b : Account). b.id ≢ a.id) (shift ps) rows h.0, shift-HasUniqueIds ps rows h.1)

-- The account ids of a posting's row are below the sequence.
HoldsAsset-below :
    (asset : ℕ) (n : ℕ) (rows : List Account) (k : ℕ)
    → All (λ a. a.id < n) rows
    → HoldsAsset asset rows k
    → k < n
unfolding has_id
HoldsAsset-below asset n [] k h (a, found, own) = absurd (cc)
HoldsAsset-below asset n (b ∷ rows) k h (a, found, own) = elim (Bool-cases (b.id == k)) [
  | inl same ↦ rw (← (==_iff b.id k).0 same) h.0
  | inr other ↦ HoldsAsset-below asset n rows k h.1 (a, rw other at found, own)
]

module _ (args : EntryArgs) (l : Ledger) (h : IsConsistent l) (c : Accepted args l) where
  abbrev new_postings : List Posting
  new_postings = map (posting_of l.next_entry_id) args.postings

  derived_posted :
      (a : Account)
      → a.balance ≡ derived_balance l.postings a.id
      → (shift args.postings a).balance
        ≡ derived_balance (l.postings ++ new_postings) (shift args.postings a).id
  unfolding derived_balance shift
  derived_posted a e = sym (
      sum_of-append (amount_at a.id) l.postings new_postings
      ∙ ap (λ x. x +ℤ sum_of (amount_at a.id) new_postings) (sym e)
      ∙ ap (λ x. a.balance +ℤ x) (sum_of-amount_at l.next_entry_id a.id args.postings))

  balanced_posted : (e : ℕ) → entry_total (l.postings ++ new_postings) e ≡ pos 0
  unfolding entry_total
  balanced_posted e =
      sum_of-append (amount_in e) l.postings new_postings
      ∙ ap (λ x. x +ℤ sum_of (amount_in e) new_postings) (h.balanced e)
      ∙ zero_add (sum_of (amount_in e) new_postings)
      ∙ sum_of-amount_in l.next_entry_id e args.postings
      ∙ rw c.balanced
          (elim (Bool-cases (l.next_entry_id == e)) [ inl t ↦ rw t refl | inr f ↦ rw f refl ])

  posted_checks : IsAllowed (map (shift args.postings) l.accounts)
  posted_checks =
      rw (← shifted-eq args.postings c.deltas l.accounts c.collected c.applied)
        (apply_deltas-IsAllowed (sorted_items c.deltas) l.accounts h.allowed c.applied)

  new_posting_ids :
      (ps : List PostingPair)
      → All (λ p. HoldsAsset args.asset_id l.accounts p.0) ps
      → All
          (λ p. (p.account_id < l.next_account_id) × (p.entry_id < l.next_entry_id + 1))
          (map (posting_of l.next_entry_id) ps)
  unfolding posting_of
  new_posting_ids [] k = tt
  new_posting_ids (p ∷ ps) k = (
    (
      HoldsAsset-below args.asset_id l.next_account_id l.accounts p.0 h.account_ids k.0,
      omega arith,
    ),
    new_posting_ids ps k.1,
  )

  pub posted-IsConsistent : IsConsistent (posted args l)
  unfolding posted
  posted-IsConsistent = record {
    unique_ids = shift-HasUniqueIds args.postings l.accounts h.unique_ids;
    account_ids =
        unfold shift in
        All-map (λ (b : Account). b.id < l.next_account_id) (shift args.postings) l.accounts
          h.account_ids;
    posting_ids =
        All-append _ l.postings new_postings
          (All-imp _ _ (λ p k. (k.0, omega (arith, k.1))) l.postings h.posting_ids)
          (new_posting_ids args.postings (postings-HoldsAsset args l c));
    derived =
        All-map (λ (b : Account). b.balance ≡ derived_balance (l.postings ++ new_postings) b.id)
          (shift args.postings) l.accounts (All-imp _ _ derived_posted l.accounts h.derived);
    balanced = balanced_posted;
    residual = λ asset.
        sum_of-balance_in-shift asset args.asset_id args.postings l.accounts h.unique_ids
          (postings-HoldsAsset args l c) c.balanced
        ∙ h.residual asset;
    allowed = posted_checks;
    sources =
        unfold new_entry in
        HasUniqueSources-append l.entries (new_entry args l.next_entry_id) h.sources c.fresh;
    history =
        subst IsHistory (sym (book-posted args l))
          (then_post args h.history c.balanced (ap is_there c.fresh));
  }

-- Whatever `post_entry` is asked, the books stay consistent.
pub post_entry-IsConsistent : (args : EntryArgs) → Keeps IsConsistent (post_entry args)
post_entry-IsConsistent args =
    Keeps-of_Atomic IsConsistent (post_entry args) (post_entry-Atomic args) λ l e l' h p.
      let (accepted, made, left) = post_entry-eq-ok args l p in
      subst IsConsistent (sym left) (posted-IsConsistent args l h accepted)
