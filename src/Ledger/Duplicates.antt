-- ===== src/Ledger/Duplicates.antt =====
-- `Credit` of internal/billing/service.go refuses a key exactly where it stands in the ledger.
use Prim.Native.String.{String}
use model_bridge.Base.{
  ℕ, ◌≡◌, refl, Option, none, some, Bool, true, false, not, arith, Bool-cases, inl, inr,
}
use model_bridge.Base.Int.{ℤ}
use model_bridge.Base.Texts.{trim_space}
use model_bridge.Base.Results.{Result, ok, err, ◌>>=◌, guard, or_error}
use model_bridge.Metering.Defs.{Decimal}
use model_bridge.Ledger.State.{BillingError, TransactionKey, Database}
use model_bridge.Ledger.Quote.{Catalog}
use model_bridge.Ledger.Posting.{has_transaction}
use model_bridge.Ledger.Retries.{str_eq_refl}
use model_bridge.Ledger.Credit.{
  CreditRequest, parse_direction, positive_amount, open_account, apply_credit, write_credit,
}
use model_bridge.Ledger.Credited.{apply_credit-Credited}

-- `errors.Is(err, billing.ErrDuplicateTransaction)`
abbrev pub is_duplicate : BillingError → Bool
is_duplicate BillingError.duplicate_transaction = true
is_duplicate e = false

-- A result that is not the refusal of a duplicate.
abbrev NotDuplicate {ℓ} : {A : Type ℓ} → Result BillingError A → Type 0
NotDuplicate (ok a) = Unit
NotDuplicate (err e) = is_duplicate e ≡ false

bind-NotDuplicate {ℓ κ} :
    {A : Type ℓ} {B : Type κ} (m : Result BillingError A) (f : A → Result BillingError B)
    → NotDuplicate m
    → ((a : A) → NotDuplicate (f a))
    → NotDuplicate (m >>= f)
bind-NotDuplicate (ok a) f h k = k a
bind-NotDuplicate (err e) f h k = h

guard-NotDuplicate :
    (b : Bool) (e : BillingError) → is_duplicate e ≡ false → NotDuplicate (guard b e)
guard-NotDuplicate true e h = tt
guard-NotDuplicate false e h = h

or_error-NotDuplicate {ℓ} :
    {A : Type ℓ} (o : Option A) (e : BillingError)
    → is_duplicate e ≡ false
    → NotDuplicate (or_error o e)
or_error-NotDuplicate none e h = h
or_error-NotDuplicate (some a) e h = tt

parse_direction-NotDuplicate : (text : String) → NotDuplicate (parse_direction text)
unfolding parse_direction
parse_direction-NotDuplicate text = ground arith

positive_amount-NotDuplicate : (d : Decimal) → NotDuplicate (positive_amount d)
unfolding positive_amount
positive_amount-NotDuplicate Decimal.blank = refl
positive_amount-NotDuplicate Decimal.malformed = refl
positive_amount-NotDuplicate (Decimal.amount v) = ground arith

open_account-NotDuplicate :
    (db : Database) (fresh tenant : ℕ) (currency : String)
    → NotDuplicate (open_account db.accounts fresh tenant currency)
unfolding open_account
open_account-NotDuplicate db fresh tenant currency = ground arith

guarded_key-NotDuplicate :
    (key : TransactionKey) (db : Database)
    → has_transaction key db.transactions ≡ false
    → NotDuplicate
        (guard (not (has_transaction key db.transactions)) BillingError.duplicate_transaction)
guarded_key-NotDuplicate key db new = rw new tt

-- A key that is new is not refused as a duplicate.
apply_credit-NotDuplicate :
    (catalog : Catalog) (fresh : ℕ) (r : CreditRequest) (db : Database)
    → has_transaction (TransactionKey.client_key (trim_space r.idempotency_key)) db.transactions
      ≡ false
    → NotDuplicate (apply_credit catalog fresh r db)
unfolding apply_credit
apply_credit-NotDuplicate catalog fresh r db new =
    bind-NotDuplicate (parse_direction r.direction) _ (parse_direction-NotDuplicate r.direction)
      λ direction.
        bind-NotDuplicate (or_error r.tenant_id BillingError.invalid_request) _
          (or_error-NotDuplicate r.tenant_id BillingError.invalid_request refl)
          λ tenant.
            bind-NotDuplicate (guard _ BillingError.invalid_request) _
              (guard-NotDuplicate _ BillingError.invalid_request refl)
              λ bounded.
                bind-NotDuplicate (positive_amount r.amount) _
                  (positive_amount-NotDuplicate r.amount)
                  λ amount.
                    bind-NotDuplicate (guard _ BillingError.duplicate_transaction) _
                      (guarded_key-NotDuplicate _ db new)
                      λ unseen.
                        bind-NotDuplicate
                          (or_error (catalog.tenant_currency tenant) BillingError.account_not_found)
                          _
                          (or_error-NotDuplicate (catalog.tenant_currency tenant)
                            BillingError.account_not_found refl)
                          λ currency.
                            bind-NotDuplicate (guard _ BillingError.invalid_request) _
                              (guard-NotDuplicate _ BillingError.invalid_request refl)
                              λ same.
                                bind-NotDuplicate (open_account db.accounts fresh tenant currency) _
                                  (open_account-NotDuplicate db fresh tenant currency) λ found. tt

-- A credit that is refused as a duplicate has its key in the ledger.
pub refused-has_transaction :
    (catalog : Catalog) (fresh : ℕ) (r : CreditRequest) (db : Database) {e : BillingError}
    → apply_credit catalog fresh r db ≡ err e
    → is_duplicate e ≡ true
    → has_transaction (TransactionKey.client_key (trim_space r.idempotency_key)) db.transactions
      ≡ true
refused-has_transaction catalog fresh r db {e} c dup =
    let key = TransactionKey.client_key (trim_space r.idempotency_key) in
    elim (Bool-cases (has_transaction key db.transactions)) [
      | inl seen ↦ seen
      | inr new ↦
          let other : is_duplicate e ≡ false =
            rw c at (apply_credit-NotDuplicate catalog fresh r db new) in
          cc (dup, other)
    ]

-- A credit that has committed has its key in the ledger.
pub committed-has_transaction :
    (catalog : Catalog) (fresh : ℕ) (r : CreditRequest) (db : Database) {b : ℤ} {db' : Database}
    → apply_credit catalog fresh r db ≡ ok (b, db')
    → has_transaction (TransactionKey.client_key (trim_space r.idempotency_key)) db'.transactions
      ≡ true
unfolding write_credit
committed-has_transaction catalog fresh r db c =
    let k = apply_credit-Credited catalog fresh r db c in
    rw (k.committed, str_eq_refl (trim_space r.idempotency_key)) refl

-- The same request again is refused as a duplicate, wherever its key is in the ledger.
pub apply_credit-again :
    (catalog : Catalog) (fresh later_fresh : ℕ) (r : CreditRequest) (db later : Database) {b : ℤ}
    {db' : Database}
    → apply_credit catalog fresh r db ≡ ok (b, db')
    → has_transaction (TransactionKey.client_key (trim_space r.idempotency_key)) later.transactions
      ≡ true
    → apply_credit catalog later_fresh r later ≡ err BillingError.duplicate_transaction
unfolding apply_credit
apply_credit-again catalog fresh later_fresh r db later c seen =
    let k = apply_credit-Credited catalog fresh r db c in
    rw (k.parsed, apply_credit, k.tenant_known, k.in_bounds, k.positive, seen) refl
