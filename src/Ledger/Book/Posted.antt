-- ===== src/Ledger/Book/Posted.antt =====
-- `post_entry` makes the step of the book that its arguments say, or none.
use mathlib.Core.Path.{fun_ext, ap₂}
use crypto_processing_api.Prelude.{
  pos, ◌+ℤ◌, Bool, false, ◌||◌, ◌≡◌, refl, ◌∙◌, ap, List, [], ◌∷◌, ◌++◌, map, find, sum_of,
  sum_of-append, Bool-cases, inl, inr,
}
use crypto_processing_api.Errors.{Error, ok, err}
use crypto_processing_api.Models.{JournalEntry}
use crypto_processing_api.Ledger.Store.{Ledger, has_source}
use crypto_processing_api.Ledger.Audit.{derived_balance, amount_at}
use crypto_processing_api.Ledger.Entry.{EntryArgs, new_entry, posting_of, post_entry}
use crypto_processing_api.Ledger.Entry.Outcome.{posted, post_entry-eq-ok, post_entry-Atomic}
use crypto_processing_api.Ledger.Consistency.Sums.{sum_of-amount_at}
use crypto_processing_api.Ledger.Book.{after, is_there, book}

is_there-append :
    (p : JournalEntry → Bool) (es : List JournalEntry) (e : JournalEntry)
    → is_there (find p (es ++ e ∷ [])) ≡ (is_there (find p es) || p e)
is_there-append p [] e = elim (Bool-cases (p e)) [ inl t ↦ rw t refl | inr f ↦ rw f refl ]
is_there-append p (x ∷ es) e = elim (Bool-cases (p x)) [
  | inl t ↦ rw t refl
  | inr f ↦ rw f (is_there-append p es e)
]

pub book-posted : (args : EntryArgs) (l : Ledger) → book (posted args l) ≡ after args (book l)
unfolding posted derived_balance has_source new_entry
book-posted args l =
    ap₂ (λ f g. record { balance = f; is_posted = g })
      (fun_ext λ k.
        sum_of-append (amount_at k) l.postings (map (posting_of l.next_entry_id) args.postings)
        ∙ ap (λ x. sum_of (amount_at k) l.postings +ℤ x)
            (sum_of-amount_at l.next_entry_id k args.postings))
      (fun_ext λ kind.
        fun_ext
          λ ref. is_there-append (has_source kind ref) l.entries (new_entry args l.next_entry_id))

-- A call that returns makes the step of the book: its source was new, its postings are in balance,
-- each balance has moved by the postings to it, and the source is taken. A call that raises leaves
-- the book alone.
pub post_entry_refines :
    (args : EntryArgs) (l : Ledger)
    → ((e : JournalEntry) (l' : Ledger)
        → post_entry args l ≡ (ok e, l')
        → ((book l).is_posted args.kind args.source_ref ≡ false)
          × (sum_of (λ p. p.1) args.postings ≡ pos 0)
          × (book l' ≡ after args (book l)))
      × ((e : Error) (l' : Ledger) → post_entry args l ≡ (err e, l') → book l' ≡ book l)
post_entry_refines args l = (
  λ e l' h.
      let (c, made, left) = post_entry-eq-ok args l h in
      (ap is_there c.fresh, c.balanced, ap book left ∙ book-posted args l),
  λ e l' h. ap book ((post_entry-Atomic args).at l h),
)
