-- ===== src/Ledger/Accounts.antt =====
-- Provisioning and locking of account rows (src/crypto_processing_api/ledger/service.py).
pub mod Provision
pub mod Order
use crypto_processing_api.Prelude.{
  ℕ, ◌+◌, ◌≤◌, leb, pos, Bool, true, false, ◌&&◌, not, Option, none, some, List, [], ◌∷◌, ◌++◌,
  if◌then◌else◌, find,
}
use crypto_processing_api.Errors.{Result, ok, err, bind, from_option, raise_if, account_not_found}
use crypto_processing_api.Exec.{Exec, lift, gets, or_raise, modify, guard, pure, ◌>>=◌, ◌>>◌}
use crypto_processing_api.Models.{
  AccountKind, user_available, user_hold, hot_wallet, payouts_in_flight, fee_income,
  network_fee_expense, external, user_deficit, is_user_kind, normal_side_by_kind, Account,
}
use crypto_processing_api.Ledger.Store.{Ledger, has_id, has_key}

abbrev pub is_some : Option ℕ → Bool
is_some none = false
is_some (some u) = true

-- INSERT ... ON CONFLICT DO NOTHING against the unique index of the account's kind.
unfoldable pub insert_account : ℕ → AccountKind → Option ℕ → Ledger → Ledger
insert_account asset kind user l = elim (find (has_key asset kind user) l.accounts) [
  | some a ↦ l
  | none ↦ record l {
    accounts =
        l.accounts
        ++ record {
          id = l.next_account_id;
          asset_id = asset;
          kind = kind;
          external_user_id = user;
          normal_side = normal_side_by_kind kind;
          balance = pos 0;
        }
          ∷ [];
    next_account_id = l.next_account_id + 1;
  }
]

unfoldable pub get_or_create_account : ℕ → AccountKind → Option ℕ → Exec Ledger Account
get_or_create_account asset kind user = do
  guard (is_user_kind kind && not (is_some user)) account_not_found
  guard (not (is_user_kind kind) && is_some user) account_not_found
  modify (insert_account asset kind user)
  found ← gets (λ l. find (has_key asset kind user) l.accounts)
  or_raise account_not_found found

-- `(user_available, user_hold)`
unfoldable pub get_user_accounts : ℕ → ℕ → Exec Ledger (Account × Account)
get_user_accounts asset user = do
  available ← get_or_create_account asset user_available (some user)
  hold ← get_or_create_account asset user_hold (some user)
  pure (available, hold)

-- sorted(account_ids)
unfoldable pub insert_sorted : ℕ → List ℕ → List ℕ
insert_sorted k [] = k ∷ []
insert_sorted k (j ∷ ids) = if leb k j then k ∷ j ∷ ids else j ∷ insert_sorted k ids

unfoldable pub sorted : List ℕ → List ℕ
unfolding insert_sorted
sorted [] = []
sorted (k ∷ ids) = insert_sorted k (sorted ids)

-- The loop of `_lock_accounts` over ids in ascending order. The rows are listed in the order in
-- which they are locked; `locked[k]` is the row with id `k`.
unfoldable pub lock_each : List ℕ → List Account → Result (List Account)
lock_each [] rows = ok []
lock_each (k ∷ ids) rows =
    bind (from_option account_not_found (find (has_id k) rows))
      λ a. bind (lock_each ids rows) (λ locked. ok (a ∷ locked))

unfoldable pub lock_accounts : List ℕ → Exec Ledger (List Account)
unfolding lock_each sorted
lock_accounts ids l = (lock_each (sorted ids) l.accounts, l)

unfoldable pub locked_row : ℕ → List Account → Result Account
locked_row k rows = from_option account_not_found (find (has_id k) rows)

-- Provision, then lock, `(user_available, user_hold)`.
unfoldable pub lock_user_accounts : ℕ → ℕ → Exec Ledger (Account × Account)
lock_user_accounts asset user = do
  accounts ← get_user_accounts asset user
  locked ← lock_accounts (accounts.0.id ∷ accounts.1.id ∷ [])
  available ← lift (locked_row accounts.0.id locked)
  hold ← lift (locked_row accounts.1.id locked)
  pure (available, hold)

unfoldable pub get_system_account : ℕ → AccountKind → Exec Ledger Account
get_system_account asset kind = do
  guard (is_user_kind kind) account_not_found
  found ← gets (λ l. find (has_key asset kind none) l.accounts)
  or_raise account_not_found found

-- The lock on the asset's `hot_wallet` row, which serialises the decisions about one asset.
unfoldable pub lock_asset_gate : ℕ → Exec Ledger Account
lock_asset_gate asset = do
  found ← gets (λ l. find (has_key asset hot_wallet none) l.accounts)
  or_raise account_not_found found

abbrev pub system_account_kinds : List AccountKind
system_account_kinds =
    hot_wallet ∷ payouts_in_flight ∷ fee_income ∷ network_fee_expense ∷ external ∷ user_deficit ∷ []

unfoldable pub ensure_each : ℕ → List AccountKind → Exec Ledger (List Account)
ensure_each asset [] = pure []
ensure_each asset (kind ∷ kinds) = do
  a ← get_or_create_account asset kind none
  rest ← ensure_each asset kinds
  pure (a ∷ rest)

unfoldable pub ensure_system_accounts : ℕ → Exec Ledger (List Account)
unfolding ensure_each
ensure_system_accounts asset = ensure_each asset system_account_kinds
