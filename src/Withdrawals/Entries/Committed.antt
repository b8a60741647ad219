-- ===== src/Withdrawals/Entries/Committed.antt =====
-- What `_committed_from_entry` reads back from a submit entry.
use mathlib.Core.Option
use crypto_processing_api.Prelude.{
  ℕ, ◌≡◌, ◌≢◌, ◌<◌, refl, sym, ◌∙◌, ap, subst, ℤ, neg, Bool, true, false, ◌&&◌, inl, inr, none,
  some, Bool-cases, List, [], ◌∷◌, ◌++◌, map, All, All-imp, find, find-map, find-true, select, ◌==◌,
  ==_iff, ==_self, arith,
}
use crypto_processing_api.Errors.{ok, account_not_found}
use crypto_processing_api.Exec.{guard}
use crypto_processing_api.Exec.Keeps.{continue-eq-ok, guard-eq-ok, or_raise-eq-ok}
use crypto_processing_api.Models.{
  AccountKind, Account, Posting, hot_wallet, payouts_in_flight, eq_account_kind, eq_account_kind→eq,
  is_user_kind,
}
use crypto_processing_api.Ledger.Store.{Ledger, has_id, has_key}
use crypto_processing_api.Ledger.Accounts.{get_system_account}
use crypto_processing_api.Ledger.Entry.{PostingPair, posting_of}
use crypto_processing_api.Ledger.Entry.Balances.{shift}
use crypto_processing_api.Ledger.Entry.Replay.{has_id-shift}
use crypto_processing_api.Ledger.Consistency.{HasUniqueIds}
use crypto_processing_api.Withdrawals.Entries.{is_in_flight, only, committed_from_entry}

find-All {ℓ} :
    {A : Type 0} (P : A → Type ℓ) (p : A → Bool) (xs : List A) {a : A}
    → All P xs
    → find p xs ≡ some a
    → P a
find-All P p [] u h = absurd (cc)
find-All P p (x ∷ xs) u h = elim (Bool-cases (p x)) [
  | inl hit ↦ let this : some x ≡ some _ = rw hit at h in let same : x ≡ _ = cc in subst P same u.0
  | inr miss ↦ find-All P p xs u.1 (rw miss at h)
]

-- A row that some test finds is the row of its id.
found_by_id :
    (p : Account → Bool) (rows : List Account) {a : Account}
    → HasUniqueIds rows
    → find p rows ≡ some a
    → find (has_id a.id) rows ≡ some a
unfolding has_id
found_by_id p [] u h = absurd (cc)
found_by_id p (b ∷ rows) {a} u h = elim (Bool-cases (p b)) [
  | inl hit ↦
      let this : some b ≡ some a = rw hit at h in
      let same : b ≡ a = cc in
      let own : (b.id == a.id) ≡ true = (==_iff b.id a.id).1 (ap (λ (c : Account). c.id) same) in
      rw own this
  | inr miss ↦
      let later : find p rows ≡ some a = rw miss at h in
      elim (Bool-cases (b.id == a.id)) [
        | inl same ↦
            absurd (find-All (λ c. c.id ≢ b.id) p rows u.0 later (sym ((==_iff b.id a.id).0 same)))
        | inr other ↦ rw other (found_by_id p rows u.1 later)
      ]
]

pub get_system_account-eq-ok :
    (asset : ℕ) (kind : AccountKind) (l : Ledger) {a : Account} {l' : Ledger}
    → get_system_account asset kind l ≡ (ok a, l')
    → (find (has_key asset kind none) l.accounts ≡ some a) × (l ≡ l')
unfolding get_system_account
get_system_account-eq-ok asset kind l h =
    let (u, l₁, checked, rest) =
      continue-eq-ok (guard (is_user_kind kind) account_not_found l) _ h in
    let same = (guard-eq-ok (is_user_kind kind) account_not_found l checked).1 in
    let (found, same') =
      or_raise-eq-ok account_not_found (find (has_key asset kind none) l₁.accounts) l₁ rest in
    (ap (λ (m : Ledger). find (has_key asset kind none) m.accounts) same ∙ found, same ∙ same')

-- The kind of a row that a system key finds.
kind_of_found :
    (asset : ℕ) (kind : AccountKind) (rows : List Account) {a : Account}
    → find (has_key asset kind none) rows ≡ some a
    → a.kind ≡ kind
unfolding has_key
kind_of_found asset kind rows {a} h =
    let hit = find-true (has_key asset kind none) rows h in
    eq_account_kind→eq a.kind kind (elim (Bool-cases (eq_account_kind a.kind kind)) [
      | inl t ↦ t
      | inr f ↦ absurd (ground (arith, hit))
    ])

is_in_flight-found :
    (rows : List Account) (p : Posting) {a : Account}
    → find (has_id p.account_id) rows ≡ some a
    → is_in_flight rows p ≡ eq_account_kind a.kind payouts_in_flight
unfolding is_in_flight
is_in_flight-found rows p h =
    ap (λ o. elim o [ some a ↦ eq_account_kind a.kind payouts_in_flight | none ↦ false ]) h

-- Whether a posting to the account of a system key is one of `payouts_in_flight`.
is_in_flight-system :
    (asset : ℕ) (kind : AccountKind) (rows : List Account) (n : ℕ) (x : ℤ) {a : Account}
    → HasUniqueIds rows
    → find (has_key asset kind none) rows ≡ some a
    → (ps : List PostingPair)
    → is_in_flight (map (shift ps) rows) (posting_of n (a.id, x))
      ≡ eq_account_kind kind payouts_in_flight
unfolding posting_of shift
is_in_flight-system asset kind rows n x {a} u h ps =
    let here : find (has_id a.id) (map (shift ps) rows) ≡ some (shift ps a) =
      find-map (has_id a.id) (shift ps) (has_id-shift ps a.id) rows
      ∙ ap (Option.map (shift ps)) (found_by_id (has_key asset kind none) rows u h) in
    is_in_flight-found (map (shift ps) rows) (posting_of n (a.id, x)) here
    ∙ ap (λ k. eq_account_kind k payouts_in_flight) (kind_of_found asset kind rows h)

-- The rows before the last ones are left out.
select-last :
    {A : Type 0} (p : A → Bool) (xs ys : List A)
    → All (λ x. p x ≡ false) xs
    → select p (xs ++ ys) ≡ select p ys
select-last p [] ys h = refl
select-last p (x ∷ xs) ys h = rw h.0 (select-last p xs ys h.1)

elsewhere :
    (n : ℕ) (rows : List Account) (p : Posting)
    → p.entry_id < n
    → (p.entry_id == n && is_in_flight rows p) ≡ false
elsewhere n rows p below = elim (Bool-cases (p.entry_id == n)) [
  | inl t ↦ absurd (let same = (==_iff p.entry_id n).0 t in omega arith)
  | inr f ↦ rw f refl
]

read :
    (n : ℕ) (rows : List Account) (p q : PostingPair)
    → is_in_flight rows (posting_of n p) ≡ true
    → is_in_flight rows (posting_of n q) ≡ false
    → only (
        select (λ r. r.entry_id == n && is_in_flight rows r) (posting_of n p ∷ posting_of n q ∷ []))
      ≡ ok p.1
unfolding only posting_of
read n rows p q first second = rw (==_self n, first, second) refl

-- What is read back from the two postings of a submit entry is the amount they were posted with.
pub committed_from_entry-posted :
    (asset : ℕ) (hot in_flight : Account) (c : ℤ) (l : Ledger) (ps : List PostingPair)
    → HasUniqueIds l.accounts
    → All (λ p. p.entry_id < l.next_entry_id) l.postings
    → find (has_key asset hot_wallet none) l.accounts ≡ some hot
    → find (has_key asset payouts_in_flight none) l.accounts ≡ some in_flight
    → (t : Ledger) → t.accounts ≡ map (shift ps) l.accounts
    → t.postings
      ≡ l.postings ++ map (posting_of l.next_entry_id) ((in_flight.id, c) ∷ (hot.id, neg c) ∷ [])
    → committed_from_entry l.next_entry_id t ≡ (ok c, t)
unfolding committed_from_entry only eq_account_kind
committed_from_entry-posted asset hot in_flight c l ps u below hot_found found t accounts postings =
    let n = l.next_entry_id in
    let rows = map (shift ps) l.accounts in
    let first = is_in_flight-system asset payouts_in_flight l.accounts n c u found ps in
    let second = is_in_flight-system asset hot_wallet l.accounts n (neg c) u hot_found ps in
    ap (λ r. (r, t))
      (rw (accounts, postings)
        (ap only (
            select-last (λ p. p.entry_id == n && is_in_flight rows p) l.postings
              (map (posting_of n) ((in_flight.id, c) ∷ (hot.id, neg c) ∷ []))
              (All-imp _ _ (elsewhere n rows) l.postings below))
          ∙ read n rows (in_flight.id, c) (hot.id, neg c) first second))
