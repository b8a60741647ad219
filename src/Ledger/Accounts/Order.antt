-- ===== src/Ledger/Accounts/Order.antt =====
-- The order in which accounts are locked, by which two sessions cannot wait for each other.
use crypto_processing_api.Prelude.{
  ℕ, ◌+◌, ◌≤◌, ◌≡◌, refl, sym, ◌∙◌, ap, leb, Bool-cases, inl, inr, List, [], ◌∷◌, map, All, All-imp,
  find, ◌==◌, if◌then◌else◌, arith, some,
}
use crypto_processing_api.Errors.{ok, bind-eq-ok, from_option, from_option-eq-ok, account_not_found}
use crypto_processing_api.Models.{Account}
use crypto_processing_api.Ledger.Store.{Ledger, has_id}
use crypto_processing_api.Ledger.Accounts.{insert_sorted, sorted, lock_each, lock_accounts}

abbrev pub IsAscending : List ℕ → Type 0
IsAscending [] = Unit
IsAscending (k ∷ ids) = All (λ j. k ≤ j) ids × IsAscending ids

-- How many times an id stands in a list.
abbrev pub count : ℕ → List ℕ → ℕ
count k [] = 0
count k (j ∷ ids) = (if j == k then 1 else 0) + count k ids

insert_sorted-All :
    (P : ℕ → Type 0) (k : ℕ) (ids : List ℕ) → P k → All P ids → All P (insert_sorted k ids)
unfolding insert_sorted
insert_sorted-All P k [] p h = (p, tt)
insert_sorted-All P k (j ∷ ids) p h = elim (Bool-cases (leb k j)) [
  | inl before ↦ rw before (p, h)
  | inr behind ↦ rw behind (h.0, insert_sorted-All P k ids p h.1)
]

insert_sorted-IsAscending :
    (k : ℕ) (ids : List ℕ) → IsAscending ids → IsAscending (insert_sorted k ids)
unfolding insert_sorted
insert_sorted-IsAscending k [] h = (tt, tt)
insert_sorted-IsAscending k (j ∷ ids) h = elim (Bool-cases (leb k j)) [
  | inl before ↦
      let le : k ≤ j = ground arith in
      rw before ((le, All-imp _ _ (λ i q. omega (arith, le, q)) ids h.0), h)
  | inr behind ↦
      let le : j ≤ k = ground arith in
      rw behind (insert_sorted-All (λ i. j ≤ i) k ids le h.0, insert_sorted-IsAscending k ids h.1)
]

sorted-IsAscending : (ids : List ℕ) → IsAscending (sorted ids)
unfolding sorted
sorted-IsAscending [] = tt
sorted-IsAscending (k ∷ ids) = insert_sorted-IsAscending k (sorted ids) (sorted-IsAscending ids)

count-insert_sorted :
    (i k : ℕ) (ids : List ℕ)
    → count i (insert_sorted k ids) ≡ (if k == i then 1 else 0) + count i ids
unfolding insert_sorted
count-insert_sorted i k [] = refl
count-insert_sorted i k (j ∷ ids) = elim (Bool-cases (leb k j)) [
  | inl before ↦ rw before refl
  | inr behind ↦ rw (behind, count-insert_sorted i k ids) (omega arith)
]

count-sorted : (i : ℕ) (ids : List ℕ) → count i (sorted ids) ≡ count i ids
unfolding sorted
count-sorted i [] = refl
count-sorted i (k ∷ ids) =
    count-insert_sorted i k (sorted ids)
    ∙ ap (λ n. (if k == i then 1 else 0) + n) (count-sorted i ids)

find-has_id : (k : ℕ) (rows : List Account) {a : Account} → find (has_id k) rows ≡ some a → a.id ≡ k
unfolding has_id
find-has_id k [] h = absurd (cc)
find-has_id k (b ∷ rows) h = elim (Bool-cases (b.id == k)) [
  | inl same ↦ ground arith
  | inr other ↦ find-has_id k rows (rw other at h)
]

lock_each-ids :
    (ids : List ℕ) (rows : List Account) {locked : List Account}
    → lock_each ids rows ≡ ok locked
    → map (λ a. a.id) locked ≡ ids
unfolding lock_each
lock_each-ids [] rows {locked} h = let nothing : locked ≡ [] = sym (cc) in rw nothing refl
lock_each-ids (k ∷ ids) rows {locked} h =
    let (a, found, h₁) = bind-eq-ok (from_option account_not_found (find (has_id k) rows)) _ h in
    let (rest, held, h₂) = bind-eq-ok (lock_each ids rows) _ h₁ in
    let split : locked ≡ a ∷ rest = sym (cc) in
    rw (split, find-has_id k rows (from_option-eq-ok _ _ found), lock_each-ids ids rows held) refl

-- A call that locks accounts locks them by ascending id, whatever the order in which they are asked
-- for, and locks exactly those; and it changes nothing.
pub lock_accounts-IsAscending :
    (ids : List ℕ) (l l' : Ledger) (locked : List Account)
    → lock_accounts ids l ≡ (ok locked, l')
    → IsAscending (map (λ a. a.id) locked)
      × ((k : ℕ) → count k (map (λ a. a.id) locked) ≡ count k ids)
      × (l' ≡ l)
unfolding lock_accounts
lock_accounts-IsAscending ids l l' locked h =
    let held : lock_each (sorted ids) l.accounts ≡ ok locked = ap (λ r. r.0) h in
    rw (lock_each-ids (sorted ids) l.accounts held)
      (sorted-IsAscending ids, λ k. count-sorted k ids, sym (ap (λ r. r.1) h))
