-- ===== src/Ledger/Entry/Replay.antt =====
-- When `post_entry` returns, what it does to each balance, and what it says when it is called again.
use mathlib.Core.Option
use crypto_processing_api.Prelude.{
  find-append, find-map, ℕ, ◌≡◌, refl, sym, ◌∙◌, ap, is_zero, true, List, [], ◌∷◌, map, none, some,
  find, arith,
}
use crypto_processing_api.Errors.{
  ok, err, bind-eq-ok, from_option, from_option-eq-ok, account_not_found, already_posted,
}
use crypto_processing_api.Exec.{savepoint}
use crypto_processing_api.Models.{Account, JournalEntry, eq_entry_kind_self, eq_source_ref_self}
use crypto_processing_api.Ledger.Store.{Ledger, has_id, has_source}
use crypto_processing_api.Ledger.Accounts.{lock_accounts, lock_each, sorted}
use crypto_processing_api.Ledger.Entry.{
  PostingPair, EntryArgs, check_assets, new_entry, write_entry, translate, post_entry,
}
use crypto_processing_api.Ledger.Entry.Balances.{shift}
use crypto_processing_api.Ledger.Entry.Outcome.{Accepted, posted, post_entry-eq-ok}

pub has_id-shift :
    (ps : List PostingPair) (k : ℕ) (a : Account) → has_id k (shift ps a) ≡ has_id k a
unfolding has_id shift
has_id-shift ps k a = refl

-- A call that returns moves the balance of each account by the sum of the postings to it, and does
-- nothing else to the accounts.
pub post_entry_balances :
    (args : EntryArgs) (l : Ledger) (k : ℕ) {e : JournalEntry} {l' : Ledger}
    → post_entry args l ≡ (ok e, l')
    → find (has_id k) l'.accounts ≡ Option.map (shift args.postings) (find (has_id k) l.accounts)
unfolding posted
post_entry_balances args l k h =
    let (accepted, made, left) = post_entry-eq-ok args l h in
    ap (λ (m : Ledger). find (has_id k) m.accounts) left
    ∙ find-map (has_id k) (shift args.postings) (has_id-shift args.postings k) l.accounts

lock_each-shift :
    (ids : List ℕ) (ps : List PostingPair) (rows : List Account) {locked : List Account}
    → lock_each ids rows ≡ ok locked
    → lock_each ids (map (shift ps) rows) ≡ ok (map (shift ps) locked)
unfolding lock_each
lock_each-shift [] ps rows {locked} h =
    let none_locked : locked ≡ [] = sym (cc) in rw none_locked refl
lock_each-shift (k ∷ ids) ps rows {locked} h =
    let (a, found, h₁) = bind-eq-ok (from_option account_not_found (find (has_id k) rows)) _ h in
    let (rest, held, h₂) = bind-eq-ok (lock_each ids rows) _ h₁ in
    let split : locked ≡ a ∷ rest = sym (cc) in
    let moved : find (has_id k) (map (shift ps) rows) ≡ some (shift ps a) =
      find-map (has_id k) (shift ps) (has_id-shift ps k) rows
      ∙ ap (Option.map (shift ps)) (from_option-eq-ok _ _ found) in
    rw (moved, lock_each-shift ids ps rows held, split) refl

check_assets-shift :
    (asset : ℕ) (ps : List PostingPair) (locked : List Account)
    → check_assets asset (map (shift ps) locked) ≡ check_assets asset locked
unfolding check_assets shift
check_assets-shift asset ps [] = refl
check_assets-shift asset ps (a ∷ locked) = rw (check_assets-shift asset ps locked) refl

-- The entry is found by its source.
source_found :
    (args : EntryArgs) (k : ℕ) → has_source args.kind args.source_ref (new_entry args k) ≡ true
unfolding has_source new_entry
source_found args k = rw (eq_entry_kind_self args.kind, eq_source_ref_self args.source_ref) refl

posted_found :
    (args : EntryArgs) (l : Ledger)
    → find (has_source args.kind args.source_ref) l.entries ≡ none
    → find (has_source args.kind args.source_ref) (posted args l).entries
      ≡ some (new_entry args l.next_entry_id)
unfolding posted
posted_found args l fresh =
    find-append (has_source args.kind args.source_ref) l.entries (new_entry args l.next_entry_id)
      fresh
    ∙ rw (source_found args l.next_entry_id) refl

-- A source that is there is refused, whatever the deltas.
write_entry_refused :
    (args : EntryArgs) (deltas : List PostingPair) (l : Ledger) {e : JournalEntry}
    → find (has_source args.kind args.source_ref) l.entries ≡ some e
    → translate args (savepoint (write_entry args deltas) l) ≡ (err (already_posted (some e.id)), l)
unfolding write_entry translate savepoint
write_entry_refused args deltas l found = ground arith

replay_of_posted :
    (args : EntryArgs) (l : Ledger)
    → Accepted args l
    → post_entry args (posted args l) ≡ (err (already_posted (some l.next_entry_id)), posted args l)
unfolding post_entry lock_accounts posted
replay_of_posted args l c = ground (
  arith,
  ap is_zero c.balanced,
  lock_each-shift (sorted (map (λ p. p.0) c.deltas)) args.postings l.accounts c.held,
  check_assets-shift args.asset_id args.postings c.locked,
  write_entry_refused args c.deltas (posted args l) (posted_found args l c.fresh),
)

-- After a call that returned, the same call again raises `AlreadyPosted` with the id of the first
-- entry, and writes nothing.
pub post_entry_replayed :
    (args : EntryArgs) (l : Ledger) {e : JournalEntry} {l' : Ledger}
    → post_entry args l ≡ (ok e, l')
    → post_entry args l' ≡ (err (already_posted (some e.id)), l')
unfolding new_entry
post_entry_replayed args l h =
    let (accepted, made, left) = post_entry-eq-ok args l h in
    rw (left, made) (replay_of_posted args l accepted)
