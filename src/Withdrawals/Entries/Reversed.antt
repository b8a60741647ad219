-- ===== src/Withdrawals/Entries/Reversed.antt =====
-- What `_post_unsubmit_entry` does after `_post_submit_entry`.
use mathlib.Core.Option
use crypto_processing_api.Prelude.{
  ℕ, ◌≡◌, ◌<◌, refl, sym, ◌∙◌, ap, subst, ℤ, pos, none, some, Option, List, map, All, find,
  find-map,
}
use crypto_processing_api.Errors.{Result, ok, err}
use crypto_processing_api.Exec.{Exec}
use crypto_processing_api.Exec.Keeps.{continue-eq-ok}
use crypto_processing_api.Models.{AccountKind, Account, JournalEntry, hot_wallet, payouts_in_flight}
use crypto_processing_api.Ledger.Store.{Ledger, has_id, has_key}
use crypto_processing_api.Ledger.Accounts.{get_system_account}
use crypto_processing_api.Ledger.Entry.{PostingPair, new_entry, post_entry}
use crypto_processing_api.Ledger.Entry.Balances.{shift}
use crypto_processing_api.Ledger.Entry.Outcome.{posted, post_entry-eq-ok}
use crypto_processing_api.Ledger.Consistency.{HasUniqueIds}
use crypto_processing_api.Fees.{FeeQuote, committed}
use crypto_processing_api.Withdrawals.Rows.{Withdrawal, Db, on_ledger, save}
use crypto_processing_api.Withdrawals.Entries.{
  submit_entry, unsubmit_entry, post_submit_entry, committed_from_entry, post_unsubmit_of,
  post_unsubmit_entry,
}
use crypto_processing_api.Withdrawals.Entries.Committed.{
  get_system_account-eq-ok, committed_from_entry-posted,
}
use crypto_processing_api.Withdrawals.Entries.Effects.{reservation_given_back}

on_ledger-eq-ok :
    {A : Type 0} (m : Exec Ledger A) (s : Db) {a : A} {s' : Db}
    → on_ledger m s ≡ (ok a, s')
    → m s.ledger ≡ (ok a, s'.ledger)
on_ledger-eq-ok m s h = ap (λ r. (r.0, r.1.ledger)) h

system_account_read :
    (asset : ℕ) (kind : AccountKind) (s : Db) {a : Account} {s' : Db}
    → on_ledger (get_system_account asset kind) s ≡ (ok a, s')
    → (find (has_key asset kind none) s.ledger.accounts ≡ some a) × (s.ledger ≡ s'.ledger)
system_account_read asset kind s h =
    get_system_account-eq-ok asset kind s.ledger
      (on_ledger-eq-ok (get_system_account asset kind) s h)

-- What a `_post_submit_entry` that returned has gone through.
record Submitted (w : Withdrawal) (c : ℤ) (l l' : Ledger) (o : Option ℕ) : Type 0 where
  hot : Account
  in_flight : Account
  entry : JournalEntry
  hot_found : find (has_key w.asset_id hot_wallet none) l.accounts ≡ some hot
  found : find (has_key w.asset_id payouts_in_flight none) l.accounts ≡ some in_flight
  sent : post_entry (submit_entry w in_flight.id hot.id c) l ≡ (ok entry, l')
  recorded : o ≡ some entry.id

recorded_in : Result Withdrawal × Db → Option ℕ
recorded_in (ok w, s) = w.submit_entry_id
recorded_in (err e, s) = none

submitted :
    (w : Withdrawal) (q : FeeQuote) (s s' : Db) (w' : Withdrawal)
    → post_submit_entry w q s ≡ (ok w', s')
    → Submitted w (committed q) s.ledger s'.ledger w'.submit_entry_id
unfolding post_submit_entry save recorded_in
submitted w q s s' w' h =
    let (hot, s₁, h₁, rest₁) =
      continue-eq-ok (on_ledger (get_system_account w.asset_id hot_wallet) s) _ h in
    let (in_flight, s₂, h₂, rest₂) =
      continue-eq-ok (on_ledger (get_system_account w.asset_id payouts_in_flight) s₁) _ rest₁ in
    let args = submit_entry w in_flight.id hot.id (committed q) in
    let (e, s₃, h₃, rest₃) = continue-eq-ok (on_ledger (post_entry args) s₂) _ rest₂ in
    let (hot_found, same₁) = system_account_read w.asset_id hot_wallet s h₁ in
    let (found, same₂) = system_account_read w.asset_id payouts_in_flight s₁ h₂ in
    let back = sym (same₁ ∙ same₂) in
    let last : s₃.ledger ≡ s'.ledger = ap (λ (r : Result Withdrawal × Db). r.1.ledger) rest₃ in
    record {
      hot = hot;
      in_flight = in_flight;
      entry = e;
      hot_found = hot_found;
      found =
          ap (λ (l : Ledger). find (has_key w.asset_id payouts_in_flight none) l.accounts) same₁
          ∙ found;
      sent =
          ap (post_entry args) (sym back)
          ∙ on_ledger-eq-ok (post_entry args) s₂ h₃
          ∙ ap (λ l. (ok e, l)) last;
      recorded = sym (ap recorded_in rest₃);
    }

committed_from_entry-read :
    (submit : ℕ) (l : Ledger) {c : ℤ} {l' : Ledger}
    → committed_from_entry submit l ≡ (ok c, l')
    → (committed_from_entry submit l ≡ (ok c, l)) × (l ≡ l')
unfolding committed_from_entry
committed_from_entry-read submit l h = (ap (λ r. (r.0, l)) h, ap (λ r. r.1) h)

-- What a `_post_unsubmit_entry` that returned has gone through, for a row with a submit entry.
record Reversed (v : Withdrawal) (submit : ℕ) (l l' : Ledger) : Type 0 where
  amount : ℤ
  hot : Account
  in_flight : Account
  entry : JournalEntry
  read_back : committed_from_entry submit l ≡ (ok amount, l)
  hot_found : find (has_key v.asset_id hot_wallet none) l.accounts ≡ some hot
  found : find (has_key v.asset_id payouts_in_flight none) l.accounts ≡ some in_flight
  reversed : post_entry (unsubmit_entry v submit hot.id in_flight.id amount) l ≡ (ok entry, l')

unsubmitted :
    (v : Withdrawal) (submit : ℕ) (s s' : Db) (o : Option JournalEntry)
    → post_unsubmit_of v (some submit) s ≡ (ok o, s')
    → Reversed v submit s.ledger s'.ledger
unfolding post_unsubmit_of
unsubmitted v submit s s' o h =
    let (c, s₀, h₀, rest₀) = continue-eq-ok (on_ledger (committed_from_entry submit) s) _ h in
    let (hot, s₁, h₁, rest₁) =
      continue-eq-ok (on_ledger (get_system_account v.asset_id hot_wallet) s₀) _ rest₀ in
    let (in_flight, s₂, h₂, rest₂) =
      continue-eq-ok (on_ledger (get_system_account v.asset_id payouts_in_flight) s₁) _ rest₁ in
    let args = unsubmit_entry v submit hot.id in_flight.id c in
    let (e, s₃, h₃, rest₃) = continue-eq-ok (on_ledger (post_entry args) s₂) _ rest₂ in
    let (hot_found, same₁) = system_account_read v.asset_id hot_wallet s₀ h₁ in
    let (found, same₂) = system_account_read v.asset_id payouts_in_flight s₁ h₂ in
    let (amount, same₀) =
      committed_from_entry-read submit s.ledger
        (on_ledger-eq-ok (committed_from_entry submit) s h₀) in
    let last : s₃.ledger ≡ s'.ledger =
      ap (λ (r : Result (Option JournalEntry) × Db). r.1.ledger) rest₃ in
    let at_key =
      λ (kind : AccountKind) (l : Ledger). find (has_key v.asset_id kind none) l.accounts in
    record {
      amount = c;
      hot = hot;
      in_flight = in_flight;
      entry = e;
      read_back = amount;
      hot_found = ap (at_key hot_wallet) same₀ ∙ hot_found;
      found = ap (at_key payouts_in_flight) (same₀ ∙ same₁) ∙ found;
      reversed =
          ap (post_entry args) (same₀ ∙ (same₁ ∙ same₂))
          ∙ on_ledger-eq-ok (post_entry args) s₂ h₃
          ∙ ap (λ l. (ok e, l)) last;
    }

id_in : Option Account → ℕ
id_in none = 0
id_in (some a) = a.id

amount_in : Result ℤ × Ledger → ℤ
amount_in (ok x, l) = x
amount_in (err e, l) = pos 0

-- The account of a key has the id it had before an entry.
same_id :
    (asset : ℕ) (kind : AccountKind) (ps : List PostingPair) (l l' : Ledger) {a b : Account}
    → find (has_key asset kind none) l.accounts ≡ some a
    → l'.accounts ≡ map (shift ps) l.accounts
    → find (has_key asset kind none) l'.accounts ≡ some b
    → a.id ≡ b.id
unfolding has_key shift id_in
same_id asset kind ps l l' h moved h' = ap id_in (
    sym (ap (Option.map (shift ps)) h)
    ∙ sym (find-map (has_key asset kind none) (shift ps) (λ a. refl) l.accounts)
    ∙ sym (ap (find (has_key asset kind none)) moved)
    ∙ h')

given_back :
    (w v : Withdrawal) (c : ℤ) (l l₁ l₂ : Ledger) (o : Option ℕ)
    → HasUniqueIds l.accounts
    → All (λ p. p.entry_id < l.next_entry_id) l.postings
    → v.asset_id ≡ w.asset_id
    → (sub : Submitted w c l l₁ o) → Reversed v sub.entry.id l₁ l₂
    → (k : ℕ) → find (has_id k) l₂.accounts ≡ find (has_id k) l.accounts
unfolding posted new_entry submit_entry amount_in
given_back w v c l l₁ l₂ o u below asset sub rev k =
    let args = submit_entry w sub.in_flight.id sub.hot.id c in
    let (accepted, made, left) = post_entry-eq-ok args l sub.sent in
    let moved : l₁.accounts ≡ map (shift args.postings) l.accounts =
      ap (λ (m : Ledger). m.accounts) left in
    let read =
      committed_from_entry-posted w.asset_id sub.hot sub.in_flight c l args.postings u below
        sub.hot_found sub.found l₁ moved (ap (λ (m : Ledger). m.postings) left) in
    let amount : rev.amount ≡ c =
      ap amount_in
        (sym rev.read_back ∙ ap (λ (e : JournalEntry). committed_from_entry e.id l₁) made ∙ read) in
    let at_key =
      λ (kind : AccountKind) (asset_id : ℕ). find (has_key asset_id kind none) l₁.accounts in
    let hot : sub.hot.id ≡ rev.hot.id =
      same_id w.asset_id hot_wallet args.postings l l₁ sub.hot_found moved
        (sym (ap (at_key hot_wallet) asset) ∙ rev.hot_found) in
    let in_flight : sub.in_flight.id ≡ rev.in_flight.id =
      same_id w.asset_id payouts_in_flight args.postings l l₁ sub.found moved
        (sym (ap (at_key payouts_in_flight) asset) ∙ rev.found) in
    reservation_given_back w v sub.entry.id sub.in_flight.id sub.hot.id c l l₁ l₂ sub.entry
      rev.entry sub.sent
      (ap (λ i. post_entry (unsubmit_entry v sub.entry.id i sub.in_flight.id c) l₁) hot
        ∙ ap (λ i. post_entry (unsubmit_entry v sub.entry.id rev.hot.id i c) l₁) in_flight
        ∙ ap (λ x. post_entry (unsubmit_entry v sub.entry.id rev.hot.id rev.in_flight.id x) l₁)
            (sym amount)
        ∙ rev.reversed)
      k

-- When the reservation of a withdrawal is posted, and then, with the ledger still as that left it,
-- reversed for a row of the same asset that has its submit entry, with the amount that the reversal
-- reads back from the postings, every account is as it was before; for account ids that are unique
-- and postings of entries that were there.
pub unsubmit_undoes_submit :
    (w v w' : Withdrawal) (q : FeeQuote) (s s₁ t t' : Db) (o : Option JournalEntry)
    → HasUniqueIds s.ledger.accounts
    → All (λ p. p.entry_id < s.ledger.next_entry_id) s.ledger.postings
    → post_submit_entry w q s ≡ (ok w', s₁)
    → v.asset_id ≡ w.asset_id
    → v.submit_entry_id ≡ w'.submit_entry_id
    → t.ledger ≡ s₁.ledger
    → post_unsubmit_entry v t ≡ (ok o, t')
    → (k : ℕ) → find (has_id k) t'.ledger.accounts ≡ find (has_id k) s.ledger.accounts
unfolding post_unsubmit_entry
unsubmit_undoes_submit w v w' q s s₁ t t' o u below sent asset entry same reversed k =
    let sub = submitted w q s s₁ w' sent in
    let rev =
      unsubmitted v sub.entry.id t t' o
        (ap (λ e. post_unsubmit_of v e t) (sym (entry ∙ sub.recorded)) ∙ reversed) in
    given_back w v (committed q) s.ledger s₁.ledger t'.ledger w'.submit_entry_id u below asset sub
      (subst (λ l. Reversed v sub.entry.id l t'.ledger) same rev) k
