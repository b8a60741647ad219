-- ===== src/Samples.antt =====
-- A small exchange, for the tests: one asset, one user with 1000 units, one hot wallet.
use crypto_processing_api.Prelude.{
  ℕ, ℤ, pos, negsuc, Option, none, some, List, [], ◌∷◌, true, false,
}
use crypto_processing_api.Models
use crypto_processing_api.Models.{
  AccountKind, user_available, user_hold, hot_wallet, payouts_in_flight, fee_income,
  network_fee_expense, Account, JournalEntry, Posting, Status, normal_side_by_kind, btcpay_payment,
}
use crypto_processing_api.Ledger.Store.{Ledger}
use crypto_processing_api.Withdrawals.Rows.{Asset, Withdrawal, Db, btcpay_payout, ApprovalMode}
use crypto_processing_api.Withdrawals.Holds.{HoldRequest}

abbrev pub account : ℕ → AccountKind → Option ℕ → ℤ → Account
account k kind user balance = record {
  id = k;
  asset_id = 1;
  kind = kind;
  external_user_id = user;
  normal_side = normal_side_by_kind kind;
  balance = balance;
}

abbrev pub posting : ℕ → ℕ → ℤ → Posting
posting entry k amount = record { entry_id = entry; account_id = k; amount = amount }

-- A deposit of 1000 has been credited to user 7.
abbrev pub funded : Ledger
funded = record {
  accounts =
      account 1 user_available (some 7) (negsuc 999)
      ∷ account 2 user_hold (some 7) (pos 0)
      ∷ account 3 hot_wallet none (pos 1000)
      ∷ account 4 payouts_in_flight none (pos 0)
      ∷ account 5 fee_income none (pos 0)
      ∷ account 6 network_fee_expense none (pos 0)
      ∷ [];
  entries =
      record {
        id = 1;
        kind = Models.EntryKind.deposit_credit;
        asset_id = 1;
        source_ref = btcpay_payment 1 1;
        reverses_entry_id = none;
      }
      ∷ [];
  postings = posting 1 3 (pos 1000) ∷ posting 1 1 (negsuc 999) ∷ [];
  next_account_id = 7;
  next_entry_id = 2;
}

abbrev pub coin : Asset
coin = record {
  id = 1;
  decimals = 8;
  withdrawal_auto_limit = pos 500;
  withdrawal_daily_cap = pos 700;
  withdrawal_user_daily_cap = some (pos 600);
  withdrawal_min = pos 10;
  withdrawal_flat_fee = pos 0;
  enabled = true;
  btcpay_payment_method = 1;
  pooled_addresses = false;
  invoice_currency = none;
  deposit_expiry_minutes = none;
}

abbrev pub request : HoldRequest
request = record {
  external_user_id = 7;
  asset_id = 1;
  amount_gross = pos 400;
  destination_address = 42;
  backend = btcpay_payout;
  force_manual = false;
}

abbrev pub row : Status → Withdrawal
row status = record {
  id = 11;
  external_user_id = 7;
  asset_id = 1;
  destination_address = 42;
  amount_gross = pos 400;
  fee_amount = some (pos 30);
  amount_net = some (pos 370);
  status = status;
  approval_mode = ApprovalMode.auto;
  approved_by = none;
  backend = btcpay_payout;
  backend_ref = none;
  txid = none;
  hold_entry_id = none;
  submit_entry_id = none;
  settle_entry_id = none;
  release_entry_id = none;
  submitted_at = none;
  rejected_by = none;
  released_by = none;
  release_attestation = none;
  failure_reason = none;
  created_at = 100;
  updated_at = 100;
}

abbrev pub session : Ledger → List Withdrawal → Db
session l rows = record {
  ledger = l;
  assets = coin ∷ [];
  withdrawals = rows;
  deposits = [];
  deposit_payments = [];
  events = [];
  now = 200;
}
