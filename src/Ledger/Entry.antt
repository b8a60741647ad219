-- ===== src/Ledger/Entry.antt =====
-- `post_entry`, the one writer of postings (src/crypto_processing_api/ledger/service.py).
pub mod Deltas
pub mod Balances
pub mod Outcome
pub mod Replay
use crypto_processing_api.Prelude.{
  ℕ, zero, ◌+◌, ◌≤◌, leb, ltb, pos, ℤ, ◌+ℤ◌, is_zero, Bool, true, false, ◌&&◌, not, Option, none,
  some, List, [], ◌∷◌, ◌++◌, map, if◌then◌else◌, ◌==◌, find, sum_of, length,
}
use crypto_processing_api.Errors.{
  Result, ok, err, bind, raise_if, unbalanced_entry, zero_posting, asset_mismatch, already_posted,
  insufficient_funds, integrity_error, ux_entry_source, no_overdraft, no_negative_asset,
  other_constraint, out_of_range,
}
use crypto_processing_api.Exec.{
  Exec, lift, gets, or_raise, modify, guard, pure, savepoint, ◌>>=◌, ◌>>◌,
}
use crypto_processing_api.Models.{EntryKind, SourceRef, Account, JournalEntry, Posting}
use crypto_processing_api.Ledger.Store.{Ledger, has_source, update_balance, fits_bigint}
use crypto_processing_api.Ledger.Accounts.{lock_accounts}

-- A posting as the caller writes it: an account id, and an amount, positive for a debit.
abbrev pub PostingPair : Type 0
PostingPair = ℕ × ℤ

-- deltas[account_id] = deltas.get(account_id, 0) + amount
unfoldable pub add_delta : List PostingPair → PostingPair → List PostingPair
add_delta [] (k, x) = (k, pos 0 +ℤ x) ∷ []
add_delta ((j, y) ∷ deltas) (k, x) =
    if j == k then (j, y +ℤ x) ∷ deltas else (j, y) ∷ add_delta deltas (k, x)

-- The loop over the postings.
unfoldable pub collect_deltas : List PostingPair → List PostingPair → Result (List PostingPair)
collect_deltas deltas [] = ok deltas
collect_deltas deltas ((k, x) ∷ postings) =
    let rest = collect_deltas (add_delta deltas (k, x)) postings in
    if is_zero x then err zero_posting else rest

-- sorted(deltas.items()): by account id, which no two items share.
unfoldable pub insert_item : PostingPair → List PostingPair → List PostingPair
insert_item p [] = p ∷ []
insert_item p (q ∷ items) = if leb p.0 q.0 then p ∷ q ∷ items else q ∷ insert_item p items

unfoldable pub sorted_items : List PostingPair → List PostingPair
unfolding insert_item
sorted_items [] = []
sorted_items (p ∷ items) = insert_item p (sorted_items items)

-- `if account.asset_id != asset_id: raise AssetMismatch`, for each locked account.
unfoldable pub check_assets : ℕ → List Account → Result (Unit {0})
check_assets asset [] = ok tt
check_assets asset (a ∷ locked) =
    let rest = check_assets asset locked in if a.asset_id == asset then rest else err asset_mismatch

-- `if delta == 0: continue`
unfoldable pub apply_delta : PostingPair → List Account → Result (List Account)
apply_delta (k, delta) rows = if is_zero delta then ok rows else update_balance k delta rows

unfoldable pub apply_deltas : List PostingPair → List Account → Result (List Account)
unfolding apply_delta
apply_deltas [] rows = ok rows
apply_deltas (item ∷ items) rows = bind (apply_delta item rows) (apply_deltas items)

-- The arguments of `post_entry`; the memo is text that nothing reads.
pub record EntryArgs : Type 0 where
  pub kind : EntryKind
  pub asset_id : ℕ
  pub source_ref : SourceRef
  pub postings : List PostingPair
  pub reverses_entry_id : Option ℕ

unfoldable pub new_entry : EntryArgs → ℕ → JournalEntry
new_entry args k = record {
  id = k;
  kind = args.kind;
  asset_id = args.asset_id;
  source_ref = args.source_ref;
  reverses_entry_id = args.reverses_entry_id;
}

unfoldable pub posting_of : ℕ → PostingPair → Posting
posting_of entry (k, x) = record { entry_id = entry; account_id = k; amount = x }

-- session.add(entry); session.flush(): the unique constraint on (kind, source_ref).
unfoldable pub insert_entry : EntryArgs → Exec Ledger JournalEntry
unfolding new_entry
insert_entry args l = elim (find (has_source args.kind args.source_ref) l.entries) [
  | some e ↦ (err (integrity_error ux_entry_source), l)
  | none ↦
      let e = new_entry args l.next_entry_id in
      (ok e, record l { entries = l.entries ++ e ∷ []; next_entry_id = l.next_entry_id + 1 })
]

abbrev is_absent : Option JournalEntry → Bool
is_absent none = true
is_absent (some e) = false

-- `reverses_entry_id` is a foreign key to the entries.
unfoldable pub is_dangling : Option ℕ → List JournalEntry → Bool
is_dangling none entries = false
is_dangling (some k) entries = is_absent (find (λ e. e.id == k) entries)

-- `postings.amount` is a BIGINT.
unfoldable pub all_fit : List PostingPair → Bool
all_fit [] = true
all_fit ((k, x) ∷ postings) = fits_bigint x && all_fit postings

-- The body of `with session.begin_nested()`.
unfoldable pub write_entry : EntryArgs → List PostingPair → Exec Ledger JournalEntry
unfolding insert_entry posting_of
write_entry args deltas = do
  e ← insert_entry args
  dangling ← gets (λ l. is_dangling args.reverses_entry_id l.entries)
  guard dangling (integrity_error other_constraint)
  guard (not (all_fit args.postings)) out_of_range
  modify (λ l. record l { postings = l.postings ++ map (posting_of e.id) args.postings })
  rows ← (λ l. (apply_deltas (sorted_items deltas) l.accounts, l))
  modify (λ l. record l { accounts = rows })
  pure e

abbrev entry_id_of : Option JournalEntry → Option ℕ
entry_id_of none = none
entry_id_of (some e) = some e.id

-- `except IntegrityError`
unfoldable pub translate : EntryArgs → Result JournalEntry × Ledger → Result JournalEntry × Ledger
translate args (err (integrity_error ux_entry_source), l) =
    (err (already_posted (entry_id_of (find (has_source args.kind args.source_ref) l.entries))), l)
translate args (err (integrity_error no_overdraft), l) = (err (insufficient_funds no_overdraft), l)
translate args (err (integrity_error no_negative_asset), l) =
    (err (insufficient_funds no_negative_asset), l)
translate args (r, l) = (r, l)

unfoldable pub post_entry : EntryArgs → Exec Ledger JournalEntry
post_entry args = do
  guard (ltb (length args.postings) 2) unbalanced_entry
  deltas ← lift (collect_deltas [] args.postings)
  guard (not (is_zero (sum_of (λ p. p.1) args.postings))) unbalanced_entry
  locked ← lock_accounts (map (λ p. p.0) deltas)
  lift (check_assets args.asset_id locked)
  (λ l. translate args (savepoint (write_entry args deltas) l))
