-- ===== src/Ledger/Entry/Outcome.antt =====
-- What `post_entry` does: everything when it returns, and nothing when it raises.
use crypto_processing_api.Prelude.{
  ℕ, ◌+◌, ◌≡◌, refl, sym, ◌∙◌, ap, pos, is_zero, is_zero→eq, false, List, [], ◌∷◌, ◌++◌, map, none,
  length, ltb, sum_of, find, Option-cases, Bool-cases, inl, inr, arith, zero_add, ◌+ℤ◌, map-cong,
  sum_of-nil,
}
use crypto_processing_api.Errors.{
  Error, Result, ok, err, Result-cases, integrity_error, ux_entry_source,
}
use crypto_processing_api.Exec.{savepoint, rolled_back}
use crypto_processing_api.Exec.Atomic.{ReadOnly, Atomic, atomic_rules}
use crypto_processing_api.Models.{Account, JournalEntry}
use crypto_processing_api.Ledger.Store.{Ledger, has_source}
use crypto_processing_api.Ledger.Accounts.{lock_accounts}
use crypto_processing_api.Ledger.Entry.{
  PostingPair, EntryArgs, collect_deltas, sorted_items, check_assets, apply_deltas, new_entry,
  posting_of, is_dangling, all_fit, write_entry, translate, post_entry,
}
use crypto_processing_api.Ledger.Entry.Deltas.{
  total_at, pair_at, pair_at-IsAdditive, sum_of-collect_deltas, sum_of-sorted_items,
}
use crypto_processing_api.Ledger.Entry.Balances.{shift, with_balance, apply_deltas-eq}

-- The ledger with the entry in it, and some account rows.
abbrev pub written : EntryArgs → Ledger → List Account → Ledger
written args l rows = record l {
  accounts = rows;
  entries = l.entries ++ new_entry args l.next_entry_id ∷ [];
  postings = l.postings ++ map (posting_of l.next_entry_id) args.postings;
  next_entry_id = l.next_entry_id + 1;
}

-- The ledger with the entry in it, and each balance moved by the sum of the postings to it.
unfoldable pub posted : EntryArgs → Ledger → Ledger
unfolding new_entry posting_of
posted args l = written args l (map (shift args.postings) l.accounts)

-- What a `post_entry` that returned has gone through.
pub record Accepted (args : EntryArgs) (l : Ledger) : Type 0 where
  pub deltas : List PostingPair
  pub locked : List Account
  pub rows : List Account
  pub enough : ltb (length args.postings) 2 ≡ false
  pub collected : collect_deltas [] args.postings ≡ ok deltas
  pub balanced : sum_of (λ p. p.1) args.postings ≡ pos 0
  pub held : (lock_accounts (map (λ p. p.0) deltas) l).0 ≡ ok locked
  pub one_asset : check_assets args.asset_id locked ≡ ok tt
  pub fresh : find (has_source args.kind args.source_ref) l.entries ≡ none
  pub applied : apply_deltas (sorted_items deltas) l.accounts ≡ ok rows

-- The deltas move every balance by the sum of the postings to it.
total_at-collected :
    (postings deltas : List PostingPair) (k : ℕ)
    → collect_deltas [] postings ≡ ok deltas
    → total_at k (sorted_items deltas) ≡ total_at k postings
unfolding total_at
total_at-collected postings deltas k h =
    sum_of-sorted_items (pair_at k) (pair_at-IsAdditive k) deltas
    ∙ sum_of-collect_deltas (pair_at k) (pair_at-IsAdditive k) [] postings h
    ∙ ap (λ x. x +ℤ sum_of (pair_at k) postings) (sum_of-nil (pair_at k))
    ∙ zero_add (sum_of (pair_at k) postings)

pub shifted-eq :
    (postings deltas : List PostingPair) (accounts : List Account) {rows : List Account}
    → collect_deltas [] postings ≡ ok deltas
    → apply_deltas (sorted_items deltas) accounts ≡ ok rows
    → rows ≡ map (shift postings) accounts
unfolding shift
shifted-eq postings deltas accounts collected applied =
    apply_deltas-eq (sorted_items deltas) accounts applied
    ∙ map-cong (shift (sorted_items deltas)) (shift postings)
        (λ a.
          ap (λ x. with_balance a (a.balance +ℤ x))
            (total_at-collected postings deltas a.id collected))
        accounts

-- Undoing the savepoint leaves the ledger as it was.
translate_error :
    (args : EntryArgs) (l : Ledger) (r : Result JournalEntry × Ledger) {e : Error} {l' : Ledger}
    → translate args (rolled_back l r) ≡ (err e, l')
    → l' ≡ l
unfolding translate
translate_error args l (ok a, k) h = absurd (cc)
translate_error args l (err (integrity_error ux_entry_source), k) h = sym (cc)
translate_error args l (err _, k) h = sym (cc)

translate_ok :
    (args : EntryArgs) (l : Ledger) (r : Result JournalEntry × Ledger) {e : JournalEntry}
    {l' : Ledger}
    → translate args (rolled_back l r) ≡ (ok e, l')
    → r ≡ (ok e, l')
unfolding translate
translate_ok args l (ok a, k) h = h
translate_ok args l (err (integrity_error ux_entry_source), k) h = absurd (cc)
translate_ok args l (err _, k) h = absurd (cc)

-- The entries with the new one.
abbrev with_new : EntryArgs → Ledger → List JournalEntry
with_new args l = l.entries ++ new_entry args l.next_entry_id ∷ []

write_entry_ok :
    (args : EntryArgs) (deltas : List PostingPair) (l : Ledger) {e : JournalEntry} {l' : Ledger}
    → write_entry args deltas l ≡ (ok e, l')
    → (rows : List Account) × (find (has_source args.kind args.source_ref) l.entries ≡ none)
      × (apply_deltas (sorted_items deltas) l.accounts ≡ ok rows)
      × (e ≡ new_entry args l.next_entry_id)
      × (l' ≡ written args l rows)
unfolding write_entry
write_entry_ok args deltas l h =
    elim (Option-cases (find (has_source args.kind args.source_ref) l.entries)) [
      | inl new ↦ elim (Bool-cases (is_dangling args.reverses_entry_id (with_new args l))) [
        | inl dangling ↦ absurd (ground arith)
        | inr linked ↦ elim (Bool-cases (all_fit args.postings)) [
          | inr too_big ↦ absurd (ground arith)
          | inl fit ↦ elim (Result-cases (apply_deltas (sorted_items deltas) l.accounts)) [
            | inl (rows, e₂) ↦ (rows, new, e₂, ground arith, ground arith)
            | inr (e, e₂) ↦ absurd (ground arith)
          ]
        ]
      ]
      | inr (old, e₁) ↦ absurd (ground arith)
    ]

lock_accounts-ReadOnly : (ids : List ℕ) → ReadOnly (lock_accounts ids)
unfolding lock_accounts
lock_accounts-ReadOnly ids = record { at = λ l. refl }

write-Atomic :
    (args : EntryArgs) (deltas : List PostingPair)
    → Atomic (λ l. translate args (savepoint (write_entry args deltas) l))
unfolding savepoint
write-Atomic args deltas = record {
  at = λ l h. translate_error args l (write_entry args deltas l) h;
}

-- A `post_entry` that raises has written nothing.
pub post_entry-Atomic : (args : EntryArgs) → Atomic (post_entry args)
unfolding post_entry
post_entry-Atomic args = search (atomic_rules, lock_accounts-ReadOnly, write-Atomic) depth 12

written-eq-posted :
    (args : EntryArgs) (l : Ledger) (deltas : List PostingPair) (rows : List Account) {l' : Ledger}
    → collect_deltas [] args.postings ≡ ok deltas
    → apply_deltas (sorted_items deltas) l.accounts ≡ ok rows
    → l' ≡ written args l rows
    → l' ≡ posted args l
unfolding posted
written-eq-posted args l deltas rows collected applied left =
    left ∙ ap (written args l) (shifted-eq args.postings deltas l.accounts collected applied)

-- A `post_entry` that returns has made every check and the whole change.
pub post_entry-eq-ok :
    (args : EntryArgs) (l : Ledger) {e : JournalEntry} {l' : Ledger}
    → post_entry args l ≡ (ok e, l')
    → Accepted args l × (e ≡ new_entry args l.next_entry_id) × (l' ≡ posted args l)
unfolding post_entry posted lock_accounts savepoint
post_entry-eq-ok args l {e} {l'} h = elim (Bool-cases (ltb (length args.postings) 2)) [
  | inl short ↦ absurd (ground arith)
  | inr enough ↦ elim (Result-cases (collect_deltas [] args.postings)) [
    | inr (x, e₁) ↦ absurd (ground arith)
    | inl (deltas, collected) ↦ elim (Bool-cases (is_zero (sum_of (λ p. p.1) args.postings))) [
      | inr off ↦ absurd (ground arith)
      | inl balanced ↦ elim (Result-cases (lock_accounts (map (λ p. p.0) deltas) l).0) [
        | inr (x, e₁) ↦ absurd (ground arith)
        | inl (locked, held) ↦ elim (Result-cases (check_assets args.asset_id locked)) [
          | inr (x, e₁) ↦ absurd (ground arith)
          | inl (u, one_asset) ↦
              let last : translate args (rolled_back l (write_entry args deltas l)) ≡ (ok e, l') =
                ground arith in
              let (rows, fresh, applied, made, left) =
                write_entry_ok args deltas l
                  (translate_ok args l (write_entry args deltas l) last) in
              (
                record {
                  deltas = deltas;
                  locked = locked;
                  rows = rows;
                  enough = enough;
                  collected = collected;
                  balanced = is_zero→eq _ balanced;
                  held = held;
                  one_asset = one_asset;
                  fresh = fresh;
                  applied = applied;
                },
                made,
                written-eq-posted args l deltas rows collected applied left,
              )
        ]
      ]
    ]
  ]
]
