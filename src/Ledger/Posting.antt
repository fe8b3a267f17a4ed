-- ===== src/Ledger/Posting.antt =====
-- Ledger transactions of internal/billing/service.go: a transaction posts two lines, one to a
-- tenant's account and one to a system account.
use Prim.Native.String.{String, ◌++◌}
use model_bridge.Base.{ℕ, List, [], ◌∷◌, Bool, false, ◌||◌, ◌==◌, if◌then◌else◌, or_else}
use model_bridge.Base.Int.{ℤ, pos, ◌+ℤ◌}
use model_bridge.Base.Texts.{Map, str_eq, lookup, insert}
use model_bridge.Base.Results.{ok, err}
use model_bridge.Ledger.State.{BillingError, Direction, Owner, TransactionKey, LedgerLine, Database}
use model_bridge.Ledger.Quote.{Billed}

-- `ensureSystemAccountKind`, then `balance = balance + $2`.
unfoldable pub add_to_system : String → ℕ → Map ℤ → Map ℤ
add_to_system account_code amount balances =
    insert account_code (or_else (lookup account_code balances) (pos 0) +ℤ pos amount) balances

abbrev revenue_account : String → String
revenue_account currency = "system:revenue:" ++ currency

abbrev same_key : TransactionKey → TransactionKey → Bool
same_key (TransactionKey.client_key a) (TransactionKey.client_key b) = str_eq a b
same_key (TransactionKey.charge_key a) (TransactionKey.charge_key b) = a == b
same_key (TransactionKey.client_key a) (TransactionKey.charge_key b) = false
same_key (TransactionKey.charge_key a) (TransactionKey.client_key b) = false

abbrev pub has_transaction : TransactionKey → List TransactionKey → Bool
has_transaction key [] = false
has_transaction key (k ∷ ks) = same_key k key || has_transaction key ks

-- The two lines of a transaction: a tenant's account and a system account, in opposite directions.
abbrev pub double_entry :
    TransactionKey → ℕ → Direction → String → Direction → ℕ → List LedgerLine → List LedgerLine
double_entry key account direction system opposite amount lines =
    record {
      key = key;
      owner = Owner.tenant_account account;
      direction = direction;
      amount = amount;
    }
    ∷ record {
      key = key;
      owner = Owner.system_account system;
      direction = opposite;
      amount = amount;
    }
    ∷ lines

-- The ledger transaction of a charge, which a charge of zero does not have.
unfoldable pub post_charge : ℕ → ℕ → String → ℕ → Database → Billed Database
post_charge request account currency amount db =
    if amount == 0
    then ok db
    else if has_transaction (TransactionKey.charge_key request) db.transactions
    then err BillingError.constraint_violation
    else ok (record db {
      transactions = TransactionKey.charge_key request ∷ db.transactions;
      lines =
          double_entry (TransactionKey.charge_key request) account Direction.debit
            (revenue_account currency) Direction.credit amount db.lines;
      system_balances = add_to_system (revenue_account currency) amount db.system_balances;
    })
