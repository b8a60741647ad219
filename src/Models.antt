-- ===== src/Models.antt =====
-- The enums and tables of src/crypto_processing_api/ledger/models.py that the ledger reads, and the
-- CHECK constraints on a balance.
--
-- Ids, UUIDs and texts that the code only compares (asset ids, user ids) are numbers.
use crypto_processing_api.Prelude.{ℕ, ◌≡◌, refl, ℤ, Bool, true, false, ◌&&◌, Option, ◌==◌, arith}

pub data AccountKind : Type 0 where
  user_available user_hold hot_wallet payouts_in_flight : AccountKind
  fee_income network_fee_expense external user_deficit : AccountKind

pub data EntryKind : Type 0 where
  deposit_credit withdrawal_hold withdrawal_submit withdrawal_settle : EntryKind
  withdrawal_release adjustment reversal : EntryKind

pub data NormalSide : Type 0 where
  debit credit : NormalSide

-- NORMAL_SIDE_BY_KIND
abbrev pub normal_side_by_kind : AccountKind → NormalSide
normal_side_by_kind user_available = credit
normal_side_by_kind user_hold = credit
normal_side_by_kind hot_wallet = debit
normal_side_by_kind payouts_in_flight = debit
normal_side_by_kind fee_income = credit
normal_side_by_kind network_fee_expense = debit
normal_side_by_kind external = credit
normal_side_by_kind user_deficit = debit

-- `kind in USER_ACCOUNT_KINDS`
abbrev pub is_user_kind : AccountKind → Bool
is_user_kind user_available = true
is_user_kind user_hold = true
is_user_kind _ = false

-- `kind in UNBOUNDED_ACCOUNT_KINDS`
abbrev pub is_unbounded : AccountKind → Bool
is_unbounded external = true
is_unbounded user_deficit = true
is_unbounded _ = false

pub data Status : Type 0 where
  requested pending_approval approved rejected submitting : Status
  submitted broadcast confirmed failed refunded : Status

pub data DepositStatus : Type 0 where
  creating pending confirming settled expired review dismissed failed : DepositStatus

-- `AUTO_ACTOR`, the two machine actors, or the id of an admin.
pub data Actor : Type 0 where
  auto_actor never_submitted definitive_failure : Actor
  admin : ℕ → Actor

-- What an entry was posted for: `hold_of` is the text `withdrawal_hold:<uuid>`, and so on. Two of
-- these texts are one exactly when the prefixes and the ids are.
pub data SourceRef : Type 0 where
  hold_of submit_of settle_of submit_reversal_of release_of : ℕ → SourceRef
  btcpay_payment : ℕ → ℕ → SourceRef

pub record Account : Type 0 where
  pub id : ℕ
  pub asset_id : ℕ
  pub kind : AccountKind
  pub external_user_id : Option ℕ
  pub normal_side : NormalSide
  pub balance : ℤ

pub record JournalEntry : Type 0 where
  pub id : ℕ
  pub kind : EntryKind
  pub asset_id : ℕ
  pub source_ref : SourceRef
  pub reverses_entry_id : Option ℕ

pub record Posting : Type 0 where
  pub entry_id : ℕ
  pub account_id : ℕ
  pub amount : ℤ

-- equality of enum members
unfoldable pub eq_account_kind : AccountKind → AccountKind → Bool
eq_account_kind user_available user_available = true
eq_account_kind user_hold user_hold = true
eq_account_kind hot_wallet hot_wallet = true
eq_account_kind payouts_in_flight payouts_in_flight = true
eq_account_kind fee_income fee_income = true
eq_account_kind network_fee_expense network_fee_expense = true
eq_account_kind external external = true
eq_account_kind user_deficit user_deficit = true
eq_account_kind _ _ = false

pub eq_account_kind_self : (k : AccountKind) → eq_account_kind k k ≡ true
unfolding eq_account_kind
eq_account_kind_self user_available = refl
eq_account_kind_self _ = refl

pub eq_account_kind→eq : (k j : AccountKind) → eq_account_kind k j ≡ true → k ≡ j
unfolding eq_account_kind
eq_account_kind→eq k j h = ground arith

unfoldable pub eq_entry_kind : EntryKind → EntryKind → Bool
eq_entry_kind deposit_credit deposit_credit = true
eq_entry_kind withdrawal_hold withdrawal_hold = true
eq_entry_kind withdrawal_submit withdrawal_submit = true
eq_entry_kind withdrawal_settle withdrawal_settle = true
eq_entry_kind withdrawal_release withdrawal_release = true
eq_entry_kind adjustment adjustment = true
eq_entry_kind reversal reversal = true
eq_entry_kind _ _ = false

pub eq_entry_kind_self : (k : EntryKind) → eq_entry_kind k k ≡ true
unfolding eq_entry_kind
eq_entry_kind_self deposit_credit = refl
eq_entry_kind_self _ = refl

unfoldable pub eq_source_ref : SourceRef → SourceRef → Bool
eq_source_ref (hold_of a) (hold_of b) = a == b
eq_source_ref (submit_of a) (submit_of b) = a == b
eq_source_ref (settle_of a) (settle_of b) = a == b
eq_source_ref (submit_reversal_of a) (submit_reversal_of b) = a == b
eq_source_ref (release_of a) (release_of b) = a == b
eq_source_ref (btcpay_payment a c) (btcpay_payment b d) = a == b && c == d
eq_source_ref _ _ = false

pub eq_source_ref_self : (r : SourceRef) → eq_source_ref r r ≡ true
unfolding eq_source_ref
eq_source_ref_self (hold_of a) = ground arith
eq_source_ref_self _ = ground arith

pub eq_source_ref→eq : (q r : SourceRef) → eq_source_ref q r ≡ true → q ≡ r
unfolding eq_source_ref
eq_source_ref→eq (hold_of a) r h = ground arith
eq_source_ref→eq _ r h = ground arith
