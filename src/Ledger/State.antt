-- ===== src/Ledger/State.antt =====
-- The rows that internal/billing/service.go reads and writes, and its errors.
--
-- Identifiers are numbers: the code only compares them. Stored amounts are whole numbers of
-- 10^-30, as in the `numeric(40, 30)` columns of migrations/027_billing_precision.sql.
use Prim.Native.String.{String}
use model_bridge.Base.{ℕ, List, Option, Bool, true, false}
use model_bridge.Base.Int.{ℤ}
use model_bridge.Base.Tables.{Table}
use model_bridge.Base.Texts.{Map}
use model_bridge.Base.Results.{Result}
use model_bridge.Metering.Defs.{Decimal, Quantities, MeteringError}
use model_bridge.Metering.Modes.{MeteringMode, Price}

pub data BillingError : Type 0 where
  invalid_request price_not_configured insufficient_balance account_not_found : BillingError
  duplicate_request duplicate_transaction reservation_not_found : BillingError
  reservation_closed settlement_pending usage_unavailable token_spend_limit : BillingError
  -- A constraint of the database refused a row.
  constraint_violation : BillingError
  metering : MeteringError → BillingError

-- A row of `ledger_accounts` of type `prepaid_balance`.
pub record Account : Type 0 where
  pub tenant_id : ℕ
  pub currency : String
  pub active : Bool
  pub balance : ℤ

pub data ReservationStatus : Type 0 where
  held pending settled released expired : ReservationStatus

-- A row of `billing_reservations`.
pub record Reservation : Type 0 where
  pub request_id : ℕ
  pub account_id : ℕ
  pub reserved_amount : ℕ
  pub settled_amount : ℕ
  pub released_amount : ℕ
  pub currency : String
  pub status : ReservationStatus
  pub expires_at : ℕ
  pub estimated_metrics : Quantities
  pub estimated_upstream_metrics : Quantities

pub data RequestStatus : Type 0 where
  started settlement_pending settled failed : RequestStatus

-- A row of `model_requests`, with the price snapshot that settlement reads back.
pub record ModelRequest : Type 0 where
  -- The text `request_id`, which is unique.
  pub request_id : String
  pub tenant_id : ℕ
  pub project_id : ℕ
  pub model_id : ℕ
  pub channel_id : Option ℕ
  pub idempotency_key : String
  pub token_id : ℕ
  pub status : RequestStatus
  pub estimated_amount : ℕ
  pub settled_amount : ℕ
  pub estimated_upstream_cost : ℕ
  pub upstream_cost : ℕ
  pub group_multiplier : ℕ
  pub metering_mode : MeteringMode
  pub metering_price : Decimal
  pub upstream_cost_discount : Decimal
  pub pricing_tier : String
  pub price : Price
  pub upstream_price : Price
  pub failure_reason : String
  pub usage_metrics : Quantities

-- A row of `api_tokens`; `usable` says that it is active, not deleted and not expired.
pub record ApiToken : Type 0 where
  pub usable : Bool
  pub spend_limit : ℕ
  pub spent_amount : ℕ

pub data Direction : Type 0 where
  debit credit : Direction

-- The account of a ledger line: a tenant's, or a system account by its code.
pub data Owner : Type 0 where
  tenant_account : ℕ → Owner
  system_account : String → Owner

-- The unique key of a transaction: a client's, or `billing:charge:` and a request.
pub data TransactionKey : Type 0 where
  client_key : String → TransactionKey
  charge_key : ℕ → TransactionKey

-- A row of `ledger_lines`, with the key of its row of `ledger_transactions`.
pub record LedgerLine : Type 0 where
  pub key : TransactionKey
  pub owner : Owner
  pub direction : Direction
  pub amount : ℕ

pub record Database : Type 0 where
  pub accounts : Table Account
  pub reservations : Table Reservation
  pub requests : Table ModelRequest
  pub tokens : Table ApiToken
  pub transactions : List TransactionKey
  pub lines : List LedgerLine
  -- The balances of the system accounts, by account code.
  pub system_balances : Map ℤ

-- What an operation returns: an error, which rolls its transaction back, or its result and the
-- database that it commits.
abbrev pub Committed : Type 0 → Type 0
Committed A = Result BillingError (A × Database)

-- Held, or pending its settlement: the amount is still set aside.
abbrev pub is_open : ReservationStatus → Bool
is_open ReservationStatus.held = true
is_open ReservationStatus.pending = true
is_open ReservationStatus.settled = false
is_open ReservationStatus.released = false
is_open ReservationStatus.expired = false
