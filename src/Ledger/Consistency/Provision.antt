-- ===== src/Ledger/Consistency/Provision.antt =====
-- Provisioning an account keeps the books consistent.
use crypto_processing_api.Prelude.{
  ℕ, ◌+◌, ◌<◌, ◌≡◌, refl, sym, ◌∙◌, ap, pos, ◌+ℤ◌, Option, none, List, [], ◌∷◌, ◌++◌, All, All-imp,
  All-append, find, sum_of, sum_of-append, ◌==◌, Bool-cases, Option-cases, inl, inr, arith,
  zero_add,
}
use crypto_processing_api.Errors.{ok}
use crypto_processing_api.Exec.Keeps.{Keeps, Keeps-bind, keeps_rules}
use crypto_processing_api.Models.{AccountKind, Account, Posting}
use crypto_processing_api.Ledger.Store.{Ledger, has_key, check_account}
use crypto_processing_api.Ledger.Audit.{derived_balance, amount_at, balance_in}
use crypto_processing_api.Ledger.Accounts.{
  insert_account, get_or_create_account, get_user_accounts, lock_accounts, lock_user_accounts,
  get_system_account, lock_asset_gate, ensure_each, ensure_system_accounts, system_account_kinds,
}
use crypto_processing_api.Ledger.Accounts.Provision.{new_account}
use crypto_processing_api.Ledger.Consistency.{HasUniqueIds, IsConsistent}

append-HasUniqueIds :
    (n : ℕ) (rows : List Account) (a : Account)
    → a.id ≡ n
    → All (λ b. b.id < n) rows
    → HasUniqueIds rows
    → HasUniqueIds (rows ++ a ∷ [])
append-HasUniqueIds n [] a e h u = (tt, tt)
append-HasUniqueIds n (b ∷ rows) a e h u = (
  All-append _ rows (a ∷ []) u.0 ((λ (p : a.id ≡ b.id). omega arith), tt),
  append-HasUniqueIds n rows a e h.1 u.1,
)

-- No posting names an id that the sequence has not given out.
derived_fresh :
    (n : ℕ) (m : ℕ) (ps : List Posting)
    → All (λ p. (p.account_id < n) × (p.entry_id < m)) ps
    → derived_balance ps n ≡ pos 0
unfolding derived_balance sum_of amount_at
derived_fresh n m [] h = refl
derived_fresh n m (p ∷ ps) h = rw (derived_fresh n m ps h.1) (ground (arith, h.0, zero_add (pos 0)))

check_account-new :
    (asset : ℕ) (kind : AccountKind) (user : Option ℕ) (k : ℕ)
    → check_account (new_account asset kind user k) ≡ ok tt
unfolding check_account
check_account-new asset AccountKind.user_available user k = refl
check_account-new asset _ user k = refl

module _ (asset : ℕ) (kind : AccountKind) (user : Option ℕ) (l : Ledger) (h : IsConsistent l) where
  abbrev row : Account
  row = new_account asset kind user l.next_account_id

  abbrev with_row : Ledger
  with_row = record l { accounts = l.accounts ++ row ∷ []; next_account_id = l.next_account_id + 1 }

  residual_row : (other : ℕ) → sum_of (balance_in other) (l.accounts ++ row ∷ []) ≡ pos 0
  unfolding balance_in
  residual_row other =
      sum_of-append (balance_in other) l.accounts (row ∷ [])
      ∙ ap (λ x. x +ℤ sum_of (balance_in other) (row ∷ [])) (h.residual other)
      ∙ unfold sum_of in
        elim (Bool-cases (asset == other)) [
          | inl t ↦ rw t (unfold ◌+ℤ◌ in refl)
          | inr f ↦ rw f (unfold ◌+ℤ◌ in refl)
        ]

  with_row-IsConsistent : IsConsistent with_row
  with_row-IsConsistent = record {
    unique_ids =
        append-HasUniqueIds l.next_account_id l.accounts row refl h.account_ids h.unique_ids;
    account_ids =
        All-append _ l.accounts (row ∷ [])
          (All-imp _ _ (λ a k. omega (arith, k)) l.accounts h.account_ids) (omega arith, tt);
    posting_ids = All-imp _ _ (λ p k. (omega (arith, k.0), k.1)) l.postings h.posting_ids;
    derived =
        All-append _ l.accounts (row ∷ []) h.derived
          (sym (derived_fresh l.next_account_id l.next_entry_id l.postings h.posting_ids), tt);
    balanced = h.balanced;
    residual = residual_row;
    allowed =
        All-append _ l.accounts (row ∷ []) h.allowed
          (check_account-new asset kind user l.next_account_id, tt);
    sources = h.sources;
    history = h.history;
  }

pub insert_account-IsConsistent :
    (asset : ℕ) (kind : AccountKind) (user : Option ℕ) (l : Ledger)
    → IsConsistent l
    → IsConsistent (insert_account asset kind user l)
unfolding insert_account
insert_account-IsConsistent asset kind user l h =
    elim (Option-cases (find (has_key asset kind user) l.accounts)) [
      | inl e ↦ rw (e, insert_account) (with_row-IsConsistent asset kind user l h)
      | inr (a, e) ↦ rw (e, insert_account) h
    ]

modify-IsConsistent :
    (asset : ℕ) (kind : AccountKind) (user : Option ℕ)
    → Keeps IsConsistent (λ l. (ok tt, insert_account asset kind user l))
modify-IsConsistent asset kind user = record {
  at = λ l h. insert_account-IsConsistent asset kind user l h;
}

pub get_or_create_account-IsConsistent :
    (asset : ℕ) (kind : AccountKind) (user : Option ℕ)
    → Keeps IsConsistent (get_or_create_account asset kind user)
unfolding get_or_create_account
get_or_create_account-IsConsistent asset kind user =
    search (keeps_rules, modify-IsConsistent) depth 12

pub get_user_accounts-IsConsistent :
    (asset user : ℕ) → Keeps IsConsistent (get_user_accounts asset user)
unfolding get_user_accounts
get_user_accounts-IsConsistent asset user =
    search (keeps_rules, get_or_create_account-IsConsistent) depth 8

lock_accounts-IsConsistent : (ids : List ℕ) → Keeps IsConsistent (lock_accounts ids)
unfolding lock_accounts
lock_accounts-IsConsistent ids = record { at = λ l h. h }

pub lock_user_accounts-IsConsistent :
    (asset user : ℕ) → Keeps IsConsistent (lock_user_accounts asset user)
unfolding lock_user_accounts
lock_user_accounts-IsConsistent asset user =
    search (keeps_rules, get_user_accounts-IsConsistent, lock_accounts-IsConsistent) depth 12

pub get_system_account-IsConsistent :
    (asset : ℕ) (kind : AccountKind) → Keeps IsConsistent (get_system_account asset kind)
unfolding get_system_account
get_system_account-IsConsistent asset kind = search keeps_rules depth 8

pub lock_asset_gate-IsConsistent : (asset : ℕ) → Keeps IsConsistent (lock_asset_gate asset)
unfolding lock_asset_gate
lock_asset_gate-IsConsistent asset = search keeps_rules depth 8

ensure_each-IsConsistent :
    (asset : ℕ) (kinds : List AccountKind) → Keeps IsConsistent (ensure_each asset kinds)
unfolding ensure_each
ensure_each-IsConsistent asset [] = search keeps_rules
ensure_each-IsConsistent asset (kind ∷ kinds) =
    Keeps-bind _ _ (get_or_create_account-IsConsistent asset kind none)
      λ a. Keeps-bind _ _ (ensure_each-IsConsistent asset kinds) λ rest. search keeps_rules

pub ensure_system_accounts-IsConsistent :
    (asset : ℕ) → Keeps IsConsistent (ensure_system_accounts asset)
unfolding ensure_system_accounts
ensure_system_accounts-IsConsistent asset = ensure_each-IsConsistent asset system_account_kinds
