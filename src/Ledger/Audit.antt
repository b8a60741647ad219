-- ===== src/Ledger/Audit.antt =====
-- The checks of src/crypto_processing_api/ledger/invariants.py.
use crypto_processing_api.Prelude.{
  ℕ, pos, neg, ℤ, ◌+ℤ◌, is_zero, eqb_ℤ, Bool, true, false, ◌&&◌, not, List, [], ◌∷◌, map,
  if◌then◌else◌, ◌==◌, sum_of, select,
}
use crypto_processing_api.Errors.{invariant_violation}
use crypto_processing_api.Exec.{Exec, guard, gets, ◌>>=◌, ◌>>◌}
use crypto_processing_api.Models.{
  AccountKind, hot_wallet, payouts_in_flight, Account, JournalEntry, Posting, eq_account_kind,
}
use crypto_processing_api.Ledger.Store.{Ledger}

-- The amount of a posting to one account, or 0.
unfoldable pub amount_at : ℕ → Posting → ℤ
amount_at k p = if p.account_id == k then p.amount else pos 0

-- SUM(postings.amount) of one account.
unfoldable pub derived_balance : List Posting → ℕ → ℤ
derived_balance postings k = sum_of (amount_at k) postings

-- The amount of a posting of one entry, or 0.
unfoldable pub amount_in : ℕ → Posting → ℤ
amount_in e p = if p.entry_id == e then p.amount else pos 0

unfoldable pub entry_total : List Posting → ℕ → ℤ
entry_total postings e = sum_of (amount_in e) postings

-- The entries whose postings do not sum to zero.
unfoldable pub unbalanced_entries : Ledger → List JournalEntry
unbalanced_entries l = select (λ e. not (is_zero (entry_total l.postings e.id))) l.entries

-- The accounts whose materialized balance is not the derived one.
unfoldable pub balance_drifts : Ledger → List Account
balance_drifts l = select (λ a. not (eqb_ℤ a.balance (derived_balance l.postings a.id))) l.accounts

-- The balance of an account of one asset, or 0; and of one asset and kind.
unfoldable pub balance_in : ℕ → Account → ℤ
balance_in asset a = if a.asset_id == asset then a.balance else pos 0

abbrev balance_of_kind : ℕ → AccountKind → Account → ℤ
balance_of_kind asset kind a =
    if a.asset_id == asset && eq_account_kind a.kind kind then a.balance else pos 0

unfoldable pub raw : List Account → ℕ → AccountKind → ℤ
raw accounts asset kind = sum_of (balance_of_kind asset kind) accounts

pub record CustodyReport : Type 0 where
  pub asset_id : ℕ
  pub custody : ℤ
  pub user_available : ℤ
  pub user_hold : ℤ
  pub fee_income : ℤ
  pub network_fee_expense : ℤ
  pub external : ℤ
  pub user_deficit : ℤ
  pub residual : ℤ

unfoldable pub custody_report : List Account → ℕ → CustodyReport
custody_report accounts asset = record {
  asset_id = asset;
  custody = raw accounts asset hot_wallet +ℤ raw accounts asset payouts_in_flight;
  user_available = neg (raw accounts asset AccountKind.user_available);
  user_hold = neg (raw accounts asset AccountKind.user_hold);
  fee_income = neg (raw accounts asset AccountKind.fee_income);
  network_fee_expense = raw accounts asset AccountKind.network_fee_expense;
  external = neg (raw accounts asset AccountKind.external);
  user_deficit = raw accounts asset AccountKind.user_deficit;
  residual = sum_of (balance_in asset) accounts;
}

-- The asset of each account, in the order of the rows; the code groups the rows by asset, and a
-- report that is made twice says the same.
unfoldable pub custody_reports : Ledger → List CustodyReport
custody_reports l = map (λ a. custody_report l.accounts a.asset_id) l.accounts

abbrev pub is_nonempty {ℓ} : {A : Type ℓ} → List A → Bool
is_nonempty [] = false
is_nonempty (x ∷ xs) = true

unfoldable pub assert_ledger_consistent : Exec Ledger (Unit {0})
assert_ledger_consistent = do
  imbalances ← gets unbalanced_entries
  guard (is_nonempty imbalances) invariant_violation
  drifts ← gets balance_drifts
  guard (is_nonempty drifts) invariant_violation
  reports ← gets custody_reports
  guard (is_nonempty (select (λ r. not (is_zero r.residual)) reports)) invariant_violation
