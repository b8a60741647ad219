-- ===== src/Ledger/Consistency.antt =====
-- What the books promise between two calls of the ledger.
pub mod Accepted
pub mod Sums
pub mod Sources
pub mod Kept
pub mod Checks
pub mod Provision
use crypto_processing_api.Prelude.{ℕ, suc, ◌≤◌, ◌<◌, ◌≡◌, ◌≢◌, pos, List, [], ◌∷◌, All, sum_of}
use crypto_processing_api.Errors.{ok}
use crypto_processing_api.Models.{Account, JournalEntry, Posting}
use crypto_processing_api.Ledger.Store.{Ledger, check_account}
use crypto_processing_api.Ledger.Book.{IsHistory, book}
use crypto_processing_api.Ledger.Audit.{derived_balance, entry_total, balance_in}

-- No two accounts share an id.
abbrev pub HasUniqueIds : List Account → Type 0
HasUniqueIds [] = Unit
HasUniqueIds (a ∷ rows) = All (λ b. b.id ≢ a.id) rows × HasUniqueIds rows

-- Two entries were not posted for one source.
abbrev pub DiffersFrom : JournalEntry → JournalEntry → Type 0
DiffersFrom e f = ¬ ((f.kind ≡ e.kind) × (f.source_ref ≡ e.source_ref))

abbrev pub HasUniqueSources : List JournalEntry → Type 0
HasUniqueSources [] = Unit
HasUniqueSources (e ∷ es) = All (DiffersFrom e) es × HasUniqueSources es

pub record IsConsistent (l : Ledger) : Type 0 where
  pub unique_ids : HasUniqueIds l.accounts
  pub account_ids : All (λ a. a.id < l.next_account_id) l.accounts
  pub posting_ids :
      All (λ p. (p.account_id < l.next_account_id) × (p.entry_id < l.next_entry_id)) l.postings
  pub derived : All (λ a. a.balance ≡ derived_balance l.postings a.id) l.accounts
  pub balanced : (e : ℕ) → entry_total l.postings e ≡ pos 0
  pub residual : (asset : ℕ) → sum_of (balance_in asset) l.accounts ≡ pos 0
  pub allowed : All (λ a. check_account a ≡ ok tt) l.accounts
  pub sources : HasUniqueSources l.entries
  pub history : IsHistory (book l)
