-- ===== src/Ledger/Store.antt =====
-- The three tables of the ledger, the queries on them, and the CHECK constraints on a balance
-- (src/crypto_processing_api/ledger/models.py).
use crypto_processing_api.Prelude.{
  ℕ, ℤ, pos, negsuc, ◌+ℤ◌, ltb_ℤ, leb_ℤ, Bool, true, false, ◌&&◌, Option, none, some, List, [], ◌∷◌,
  map, if◌then◌else◌, ◌==◌,
}
use crypto_processing_api.Errors.{
  Result, ok, err, bind, integrity_error, out_of_range, no_overdraft, no_negative_asset,
}
use crypto_processing_api.Models.{
  AccountKind, EntryKind, SourceRef, NormalSide, debit, credit, is_unbounded, Account, JournalEntry,
  Posting, eq_account_kind, eq_entry_kind, eq_source_ref,
}

-- The next ids are those of the BIGSERIAL sequences.
pub record Ledger : Type 0 where
  pub accounts : List Account
  pub entries : List JournalEntry
  pub postings : List Posting
  pub next_account_id : ℕ
  pub next_entry_id : ℕ

abbrev pub empty : Ledger
empty = record {
  accounts = [];
  entries = [];
  postings = [];
  next_account_id = 1;
  next_entry_id = 1;
}

-- `Account.id == account_id`
unfoldable pub has_id : ℕ → Account → Bool
has_id k a = a.id == k

abbrev pub eq_user : Option ℕ → Option ℕ → Bool
eq_user none none = true
eq_user (some u) (some v) = u == v
eq_user _ _ = false

-- The asset, kind and user of an account: the key of `ux_accounts_user` and `ux_accounts_system`.
unfoldable pub has_key : ℕ → AccountKind → Option ℕ → Account → Bool
has_key asset kind user a =
    a.asset_id == asset && eq_account_kind a.kind kind && eq_user a.external_user_id user

unfoldable pub has_source : EntryKind → SourceRef → JournalEntry → Bool
has_source kind ref e = eq_entry_kind e.kind kind && eq_source_ref e.source_ref ref

-- BIGINT: from -2^63 to 2^63 - 1.
unfoldable pub fits_bigint : ℤ → Bool
fits_bigint x = leb_ℤ (negsuc 9223372036854775807) x && leb_ℤ x (pos 9223372036854775807)

unfoldable pub sign_allowed : NormalSide → ℤ → Result (Unit {0})
sign_allowed credit x = if ltb_ℤ (pos 0) x then err (integrity_error no_overdraft) else ok tt
sign_allowed debit x = if ltb_ℤ x (pos 0) then err (integrity_error no_negative_asset) else ok tt

-- The column type and the CHECK constraints `no_overdraft` and `no_negative_asset`.
unfoldable pub check_account : Account → Result (Unit {0})
unfolding sign_allowed fits_bigint
check_account a =
    if fits_bigint a.balance
    then (if is_unbounded a.kind then ok tt else sign_allowed a.normal_side a.balance)
    else err out_of_range

-- UPDATE accounts SET balance = balance + delta WHERE id = account_id
unfoldable pub add_to : ℕ → ℤ → Account → Account
add_to k delta a = if a.id == k then record a { balance = a.balance +ℤ delta } else a

unfoldable pub check_row : ℕ → Account → Result (Unit {0})
check_row k a = if a.id == k then check_account a else ok tt

unfoldable pub check_rows : ℕ → List Account → Result (Unit {0})
unfolding check_row
check_rows k [] = ok tt
check_rows k (a ∷ rows) = bind (check_row k a) (λ _. check_rows k rows)

unfoldable pub update_balance : ℕ → ℤ → List Account → Result (List Account)
update_balance k delta rows =
    let rows' = map (add_to k delta) rows in bind (check_rows k rows') (λ _. ok rows')
