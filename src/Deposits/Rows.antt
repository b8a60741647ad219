-- ===== src/Deposits/Rows.antt =====
-- The rows of the deposits (src/crypto_processing_api/ledger/models.py), what BTCPay answers
-- (src/crypto_processing_api/gateway/btcpay_models.py), and the gateway to it.
--
-- Ids, addresses and links are numbers, and 0 is the empty text. An amount that BTCPay reports is a
-- text.
use crypto_processing_api.Prelude.{ℕ, Bool, Option, List}
use crypto_processing_api.Errors.{Result}
use crypto_processing_api.Models.{DepositStatus, Actor}
use crypto_processing_api.Core.Text.{Text}

pub record Deposit : Type 0 where
  pub id : ℕ
  pub external_user_id : ℕ
  pub asset_id : ℕ
  pub btcpay_invoice_id : Option ℕ
  pub amount_expected : Option ℕ
  pub amount_credited : ℕ
  pub status : DepositStatus
  pub address : Option ℕ
  pub address_reserved_from : Option ℕ
  pub address_reserved_until : Option ℕ
  pub checkout_link : Option ℕ
  pub expires_at : Option ℕ
  pub monitoring_expires_at : Option ℕ
  pub last_payment_seen_at : Option ℕ
  pub created_at : ℕ
  pub updated_at : ℕ

-- The surrogate key is left out: the rows stand in its order, and the unique pair of the deposit
-- and the payment names a row.
pub record DepositPayment : Type 0 where
  pub deposit_id : ℕ
  pub btcpay_payment_id : ℕ
  pub amount : ℕ
  pub after_expiration : Bool
  pub ledger_entry_id : Option ℕ
  pub credited_at : Option ℕ
  pub resolved_by : Option Actor

-- The published fields of a deposit event; `payments` is there when a payment was detected.
pub record DepositEventData : Type 0 where
  pub deposit_id : ℕ
  pub external_user_id : ℕ
  pub asset : ℕ
  pub status : DepositStatus
  pub amount_credited : Text
  pub payments : Option (List ℕ)

-- Statuses that BTCPay owns: the ones that are acted on, and any other text.
pub data InvoiceStatus : Type 0 where
  new processing settled expired invalid : InvoiceStatus
  unrecognised : ℕ → InvoiceStatus

pub data AdditionalStatus : Type 0 where
  no_status paid_late paid_partial marked invalid paid_over : AdditionalStatus
  unrecognised : ℕ → AdditionalStatus

pub data PaymentStatus : Type 0 where
  invalid processing settled : PaymentStatus
  unrecognised : ℕ → PaymentStatus

-- `deposit_id` is what `deposit_id_from_metadata` finds in the metadata.
pub record Invoice : Type 0 where
  pub id : ℕ
  pub checkout_link : Option ℕ
  pub created_time : Option ℕ
  pub expiration_time : Option ℕ
  pub monitoring_expiration : Option ℕ
  pub status : InvoiceStatus
  pub additional_status : AdditionalStatus
  pub deposit_id : Option ℕ

pub record Payment : Type 0 where
  pub id : ℕ
  pub value : Text
  pub status : PaymentStatus

pub record InvoicePaymentMethod : Type 0 where
  pub payment_method_id : ℕ
  pub destination : Option ℕ
  pub payments : List Payment

-- The arguments of `create_top_up_invoice`; the metadata and the search term name the deposit.
pub record TopUp : Type 0 where
  pub currency : ℕ
  pub deposit_id : ℕ
  pub external_user_id : ℕ
  pub asset_id : ℕ
  pub payment_method : ℕ
  pub expiration_minutes : ℕ
  pub monitoring_minutes : ℕ

-- `BTCPayGateway`: what BTCPay answers while one operation runs, or what is raised.
pub record Gateway : Type 0 where
  pub get_invoice : ℕ → Result Invoice
  pub get_invoice_payment_methods : ℕ → Result (List InvoicePaymentMethod)
  pub list_invoices : ℕ → Result (List Invoice)
  pub create_top_up_invoice : TopUp → Result Invoice
