-- ===== src/Ledger/Credit.antt =====
-- `SQLService.Credit` of internal/billing/service.go: an operator credits or debits a tenant.
use Prim.Native.String.{String, len, ◌++◌}
use model_bridge.Base.{
  ℕ, [], ◌∷◌, Option, none, some, Bool, true, false, ◌&&◌, ◌||◌, not, leb, ◌==◌, if◌then◌else◌,
  is_some,
}
use model_bridge.Base.Int.{ℤ, pos, ◌+ℤ◌, ◌-ℤ◌}
use model_bridge.Base.Tables.{Table, find, put}
use model_bridge.Base.Texts.{str_eq, trim_space}
use model_bridge.Base.Results.{ok, err, ◌>>=◌, ◌>>◌, guard, or_error}
use model_bridge.Metering.Defs.{Decimal, valid_metered_decimal}
use model_bridge.Metering.Select.{to_lower, is_zero_amount}
use model_bridge.Ledger.State.{
  BillingError, Account, Direction, TransactionKey, Database, Committed,
}
use model_bridge.Ledger.Quote.{Catalog, Billed}
use model_bridge.Ledger.Reserve.{prepaid_account}
use model_bridge.Ledger.Posting.{double_entry, has_transaction, add_to_system}

-- `CreditRequest`, its texts trimmed and its currency in capitals.
pub record CreditRequest : Type 0 where
  pub tenant_id : Option ℕ
  pub currency : String
  pub amount : Decimal
  pub idempotency_key : String
  pub reason : String
  pub direction : String

unfoldable pub parse_direction : String → Billed Direction
parse_direction text =
    let d = to_lower (trim_space text) in
    if str_eq d "" || str_eq d "credit"
    then ok Direction.credit
    else if str_eq d "debit"
    then ok Direction.debit
    else err BillingError.invalid_request

-- `validPositiveDecimal`
unfoldable pub positive_amount : Decimal → Billed ℕ
positive_amount Decimal.blank = err BillingError.invalid_request
positive_amount Decimal.malformed = err BillingError.invalid_request
positive_amount (Decimal.amount v) =
    if valid_metered_decimal (Decimal.amount v) && not (is_zero_amount (Decimal.amount v))
    then ok v
    else err BillingError.invalid_request

abbrev pub opposite : Direction → Direction
opposite Direction.credit = Direction.debit
opposite Direction.debit = Direction.credit

-- `balance + accountDelta`
unfoldable pub moved : Direction → ℤ → ℕ → ℤ
moved Direction.credit balance amount = balance +ℤ pos amount
moved Direction.debit balance amount = balance -ℤ pos amount

-- An account of the tenant in the currency, whatever its status.
abbrev pub any_account : Table Account → ℕ → String → Bool
any_account [] tenant currency = false
any_account ((id, a) ∷ t) tenant currency =
    (a.tenant_id == tenant && str_eq a.currency currency) || any_account t tenant currency

-- The active account, or a new one under the identifier `fresh`. An account that is not active
-- blocks the insert, and the query after it finds no row.
unfoldable pub open_account : Table Account → ℕ → ℕ → String → Billed (ℕ × Account)
open_account accounts fresh tenant currency = elim (prepaid_account accounts tenant currency) [
  | some found ↦ ok found
  | none ↦
      if any_account accounts tenant currency || is_some (find fresh accounts)
      then err BillingError.constraint_violation
      else ok (
        fresh,
        record { tenant_id = tenant; currency = currency; active = true; balance = pos 0 },
      )
]

-- The account of the tenant in the currency, whatever its status (the three are unique).
unfoldable pub account_of : Table Account → ℕ → String → Option (ℕ × Account)
account_of [] tenant currency = none
account_of ((id, a) ∷ t) tenant currency =
    let rest = account_of t tenant currency in
    if a.tenant_id == tenant && str_eq a.currency currency then some (id, a) else rest

-- `EnsurePrepaidAccount`, of a currency that is trimmed and in capitals: the account is opened, or
-- made active again. That the tenant exists is not checked here.
unfoldable pub ensure_prepaid_account : ℕ → Option ℕ → String → Database → Committed ℕ
ensure_prepaid_account fresh tenant_id currency db = do
  tenant ← or_error tenant_id BillingError.invalid_request
  guard (not (str_eq currency "")) BillingError.invalid_request
  elim (account_of db.accounts tenant currency) [
    | some found ↦ ok (
      found.0,
      record db { accounts = put found.0 (record found.1 { active = true }) db.accounts },
    )
    | none ↦
        if is_some (find fresh db.accounts)
        then err BillingError.constraint_violation
        else ok (
          fresh,
          record db {
            accounts =
                put fresh
                  (record {
                    tenant_id = tenant;
                    currency = currency;
                    active = true;
                    balance = pos 0;
                  })
                  db.accounts;
          },
        )
  ]

abbrev pub topup_account : String → String
topup_account currency = "system:topup:" ++ currency

-- The writes of `Credit`. The top-up account gains the amount in both directions.
unfoldable pub write_credit : Database → String → String → Direction → ℕ → ℕ → Account → Database
write_credit db key currency direction amount id account = record db {
  accounts =
      put id (record account { balance = moved direction account.balance amount }) db.accounts;
  transactions = TransactionKey.client_key key ∷ db.transactions;
  lines =
      double_entry (TransactionKey.client_key key) id direction (topup_account currency)
        (opposite direction) amount db.lines;
  system_balances = add_to_system (topup_account currency) amount db.system_balances;
}

-- `SQLService.Credit`: the account's new balance.
unfoldable pub apply_credit : Catalog → ℕ → CreditRequest → Database → Committed ℤ
apply_credit catalog fresh r db = do
  direction ← parse_direction r.direction
  tenant ← or_error r.tenant_id BillingError.invalid_request
  let key = trim_space r.idempotency_key
  guard (not (str_eq key "") && leb (len key) 256 && leb (len r.reason) 1024)
      BillingError.invalid_request
  amount ← positive_amount r.amount
  guard (not (has_transaction (TransactionKey.client_key key) db.transactions))
      BillingError.duplicate_transaction
  currency ← or_error (catalog.tenant_currency tenant) BillingError.account_not_found
  guard (str_eq r.currency "" || str_eq r.currency currency) BillingError.invalid_request
  found ← open_account db.accounts fresh tenant currency
  ok (
    moved direction found.1.balance amount,
    write_credit db key currency direction amount found.0 found.1,
  )
