-- ===== src/Ledger/Book.antt =====
-- What the ledger promises, without its tables: a balance for each account, and which sources have
-- been posted. A history is a sequence of posts, each in balance and each for a new source.
pub mod Posted
use crypto_processing_api.Prelude.{
  ℕ, ℤ, pos, ◌+ℤ◌, Bool, true, false, ◌&&◌, ◌||◌, ◌≡◌, Option, none, some, List, find, sum_of,
}
use crypto_processing_api.Models.{EntryKind, SourceRef, JournalEntry, eq_entry_kind, eq_source_ref}
use crypto_processing_api.Ledger.Store.{Ledger, has_source}
use crypto_processing_api.Ledger.Audit.{derived_balance}
use crypto_processing_api.Ledger.Entry.{EntryArgs}
use crypto_processing_api.Ledger.Entry.Deltas.{total_at}

pub record Book : Type 0 where
  pub balance : ℕ → ℤ
  pub is_posted : EntryKind → SourceRef → Bool

abbrev pub empty_book : Book
empty_book = record { balance = λ k. pos 0; is_posted = λ kind ref. false }

-- A post moves the balances by its postings, and takes its source.
abbrev pub after : EntryArgs → Book → Book
after args b = record {
  balance = λ k. b.balance k +ℤ total_at k args.postings;
  is_posted = λ kind ref.
      b.is_posted kind ref || (eq_entry_kind args.kind kind && eq_source_ref args.source_ref ref);
}

pub data IsHistory : Book → Type 0 where
  nothing_posted : IsHistory empty_book
  then_post :
      {b : Book} (args : EntryArgs)
      → IsHistory b
      → sum_of (λ p. p.1) args.postings ≡ pos 0
      → b.is_posted args.kind args.source_ref ≡ false
      → IsHistory (after args b)

abbrev pub is_there : Option JournalEntry → Bool
is_there none = false
is_there (some e) = true

-- The book that the tables stand for.
abbrev pub book : Ledger → Book
book l = record {
  balance = derived_balance l.postings;
  is_posted = λ kind ref. is_there (find (has_source kind ref) l.entries);
}
