-- ===== src/Ledger/Accounts/Provision.antt =====
-- Provisioning of accounts: it finds or makes the one account of a key, and does it once.
use crypto_processing_api.Prelude.{
  find-append, ℕ, ◌≡◌, refl, ◌∙◌, pos, true, Option, none, some, find, ==_self, Option-cases, inl,
  inr, arith,
}
use crypto_processing_api.Errors.{ok}
use crypto_processing_api.Models.{
  AccountKind, is_user_kind, normal_side_by_kind, Account, eq_account_kind_self,
}
use crypto_processing_api.Ledger.Store.{Ledger, has_key, eq_user}
use crypto_processing_api.Ledger.Accounts.{is_some, insert_account, get_or_create_account}

eq_user_self : (user : Option ℕ) → eq_user user user ≡ true
eq_user_self none = refl
eq_user_self (some u) = ==_self u

-- The row that an INSERT makes.
abbrev pub new_account : ℕ → AccountKind → Option ℕ → ℕ → Account
new_account asset kind user k = record {
  id = k;
  asset_id = asset;
  kind = kind;
  external_user_id = user;
  normal_side = normal_side_by_kind kind;
  balance = pos 0;
}

has_key-new :
    (asset : ℕ) (kind : AccountKind) (user : Option ℕ) (k : ℕ)
    → has_key asset kind user (new_account asset kind user k) ≡ true
unfolding has_key
has_key-new asset kind user k =
    rw (==_self asset, eq_account_kind_self kind, eq_user_self user) refl

-- After the INSERT the account is found.
insert_account-found :
    (asset : ℕ) (kind : AccountKind) (user : Option ℕ) (l : Ledger)
    → (a : Account) × (find (has_key asset kind user) (insert_account asset kind user l).accounts
        ≡ some a)
unfolding insert_account
insert_account-found asset kind user l =
    elim (Option-cases (find (has_key asset kind user) l.accounts)) [
      | inr (a, e) ↦ (a, rw (e, insert_account) e)
      | inl e ↦ (
        new_account asset kind user l.next_account_id,
        rw (e, insert_account)
            (find-append (has_key asset kind user) l.accounts
                (new_account asset kind user l.next_account_id) e
              ∙ rw (has_key-new asset kind user l.next_account_id) refl),
      )
    ]

insert_account-again :
    (asset : ℕ) (kind : AccountKind) (user : Option ℕ) (l : Ledger) {a : Account}
    → find (has_key asset kind user) l.accounts ≡ some a
    → insert_account asset kind user l ≡ l
unfolding insert_account
insert_account-again asset kind user l e = rw (e, insert_account) refl

-- A system kind takes no user, and a user kind takes one.
abbrev pub IsProvisionable : AccountKind → Option ℕ → Type 0
IsProvisionable kind user = is_user_kind kind ≡ is_some user

-- For a key that makes sense, provisioning returns an account, and makes it if there was none.
pub get_or_create_account_total :
    (asset : ℕ) (kind : AccountKind) (user : Option ℕ) (l : Ledger)
    → IsProvisionable kind user
    → (a : Account) × (get_or_create_account asset kind user l
        ≡ (ok a, insert_account asset kind user l))
      × (find (has_key asset kind user) (insert_account asset kind user l).accounts ≡ some a)
unfolding get_or_create_account
get_or_create_account_total asset kind user l h =
    let (a, e) = insert_account-found asset kind user l in (a, ground arith, e)

-- A provisioning that returned.
pub get_or_create_account-eq-ok :
    (asset : ℕ) (kind : AccountKind) (user : Option ℕ) (l : Ledger) {a : Account} {l' : Ledger}
    → get_or_create_account asset kind user l ≡ (ok a, l')
    → IsProvisionable kind user
      × (l' ≡ insert_account asset kind user l)
      × (find (has_key asset kind user) l'.accounts ≡ some a)
unfolding get_or_create_account
get_or_create_account-eq-ok asset kind user l h =
    let (b, e) = insert_account-found asset kind user l in
    (ground arith, ground arith, ground arith)

-- Provisioning again finds the same account and changes nothing.
get_or_create_account_idempotent :
    (asset : ℕ) (kind : AccountKind) (user : Option ℕ) (l : Ledger) {a : Account} {l' : Ledger}
    → get_or_create_account asset kind user l ≡ (ok a, l')
    → get_or_create_account asset kind user l' ≡ (ok a, l')
get_or_create_account_idempotent asset kind user l {a} {l'} h =
    let (valid, made, found) = get_or_create_account-eq-ok asset kind user l h in
    let (b, again, there) = get_or_create_account_total asset kind user l' valid in
    let same : insert_account asset kind user l' ≡ l' =
      insert_account-again asset kind user l' found in
    cc
