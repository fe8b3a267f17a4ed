-- ===== src/Ledger/Moves.antt =====
-- The money that `Credit` of internal/billing/service.go moves.
use Prim.Native.String.{String}
use model_bridge.Base.{
  ℕ, ◌≡◌, refl, ap, subst, some, true, or_else, arith, ◌&&◌, Bool-cases, inl, inr, ltb, not, ◌||◌,
  ◌==◌, ◌≢◌, is_some, if◌then◌else◌, eqb→eq, [], ◌∷◌, Option-cases,
}
use model_bridge.Base.Int.{ℤ, pos, ◌+ℤ◌, ◌-ℤ◌}
use model_bridge.Base.Texts.{lookup, lookup-insert, trim_space, str_eq, eq_iff}
use model_bridge.Base.Tables.{Table, find, put, find-put, UniqueKeys}
use model_bridge.Base.Results.{ok, ok-injective}
use model_bridge.Metering.Defs.{Decimal, valid_metered_decimal}
use model_bridge.Metering.Select.{is_zero_amount, to_lower}
use model_bridge.Ledger.Reserve.{prepaid_account}
use model_bridge.Ledger.State.{Account, Database, Direction}
use model_bridge.Ledger.Quote.{Catalog}
use model_bridge.Ledger.Posting.{add_to_system}
use model_bridge.Ledger.Credited.{apply_credit-Credited}
use model_bridge.Ledger.Credit.{
  CreditRequest, moved, topup_account, write_credit, apply_credit, positive_amount, parse_direction,
  open_account, any_account,
}
use model_bridge.Ledger.Reconcile.Books.{balance_in}
use model_bridge.Ledger.Reconcile.Credits.{open_account-balance}
use model_bridge.Ledger.Retries.{str_eq_refl}

find-put_same : {V : Type 0} (k : ℕ) (v : V) (t : Table V) → find k (put k v t) ≡ some v
find-put_same k v t = ground (arith, find-put k k v t)

positive_amount-lt : (d : Decimal) {v : ℕ} → positive_amount d ≡ ok v → ltb 0 v ≡ true
unfolding positive_amount
positive_amount-lt Decimal.blank h = cc
positive_amount-lt Decimal.malformed h = cc
positive_amount-lt (Decimal.amount w) {v} h =
    elim (Bool-cases
      (valid_metered_decimal (Decimal.amount w) && not (is_zero_amount (Decimal.amount w)))) [
        | inl fine ↦
            let same : w ≡ v = ok-injective (rw fine at h) in
            let more : ltb 0 w ≡ true = ground (arith, fine) in rw same at more
        | inr bad ↦ cc (rw bad at h)
      ]

topup-moves :
    (db : Database) (key currency : String) (direction : Direction) (amount id : ℕ)
    (account : Account)
    → or_else
        (lookup
          (topup_account currency)
          (write_credit db key currency direction amount id account).system_balances)
        (pos 0)
      ≡ or_else (lookup (topup_account currency) db.system_balances) (pos 0) +ℤ pos amount
unfolding write_credit add_to_system
topup-moves db key currency direction amount id account =
    rw
      (
        lookup-insert (topup_account currency) (topup_account currency) _ db.system_balances,
        str_eq_refl (topup_account currency),
      )
      refl

-- What is left of a balance after a credit or debit that a text names.
abbrev pub credited_balance : String → ℤ → ℕ → ℤ
credited_balance direction balance amount =
    if str_eq (to_lower (trim_space direction)) "debit"
    then balance -ℤ pos amount
    else balance +ℤ pos amount

parse_direction-moved :
    (text : String) {direction : Direction} (balance : ℤ) (amount : ℕ)
    → parse_direction text ≡ ok direction
    → moved direction balance amount ≡ credited_balance text balance amount
unfolding parse_direction moved
parse_direction-moved text {direction} balance amount h =
    let d = to_lower (trim_space text) in
    elim (Bool-cases (str_eq d "debit")) [
      | inl debit ↦
          let named : d ≡ "debit" = (eq_iff d "debit").0 debit in
          let is : Direction.debit ≡ direction = ok-injective (rw named at h) in
          rw (← is, debit) refl
      | inr other ↦ elim (Bool-cases (str_eq d "" || str_eq d "credit")) [
        | inl credit ↦
            let is : Direction.credit ≡ direction = ok-injective (rw credit at h) in
            rw (← is, other) refl
        | inr neither ↦ cc (rw (neither, other) at h)
      ]
    ]

positive_amount-is : (d : Decimal) {v : ℕ} → positive_amount d ≡ ok v → d ≡ Decimal.amount v
unfolding positive_amount
positive_amount-is Decimal.blank h = cc
positive_amount-is Decimal.malformed h = cc
positive_amount-is (Decimal.amount w) {v} h =
    elim (Bool-cases
      (valid_metered_decimal (Decimal.amount w) && not (is_zero_amount (Decimal.amount w)))) [
        | inl fine ↦ ap Decimal.amount (ok-injective (rw fine at h))
        | inr bad ↦ cc (rw bad at h)
      ]

-- A row that is active, and of the tenant and the currency.
record OwnedBy (tenant : ℕ) (currency : String) (a : Account) : Type 0 where
  pub tenant_is : a.tenant_id ≡ tenant
  pub currency_is : a.currency ≡ currency
  pub is_active : a.active ≡ true

prepaid_account-OwnedBy :
    (t : Table Account) (tenant : ℕ) (currency : String) {found : ℕ × Account}
    → prepaid_account t tenant currency ≡ some found
    → OwnedBy tenant currency found.1
unfolding prepaid_account
prepaid_account-OwnedBy [] tenant currency h = cc
prepaid_account-OwnedBy ((k, b) ∷ t) tenant currency {found} h =
    elim (Bool-cases (b.tenant_id == tenant && b.active && str_eq b.currency currency)) [
      | inl mine ↦
          let is : (k, b) ≡ found = ground (arith, rw mine at h) in
          subst (λ (x : ℕ × Account). OwnedBy tenant currency x.1) is
            (record {
              tenant_is = eqb→eq b.tenant_id tenant (ground (arith, mine));
              currency_is = (eq_iff b.currency currency).0 (ground (arith, mine));
              is_active = ground (arith, mine);
            })
      | inr other ↦ prepaid_account-OwnedBy t tenant currency {found = found} (rw other at h)
    ]

open_account-OwnedBy :
    (accounts : Table Account) (fresh tenant : ℕ) (currency : String) {found : ℕ × Account}
    → open_account accounts fresh tenant currency ≡ ok found
    → OwnedBy tenant currency found.1
unfolding open_account
open_account-OwnedBy accounts fresh tenant currency {found} c =
    elim (Option-cases (prepaid_account accounts tenant currency)) [
      | inr (old, e) ↦
          subst (λ (x : ℕ × Account). OwnedBy tenant currency x.1)
            (ok-injective (rw (e, open_account) at c))
            (prepaid_account-OwnedBy accounts tenant currency e)
      | inl e ↦
          elim (Bool-cases
            (any_account accounts tenant currency || is_some (find fresh accounts))) [
              | inl clash ↦ cc (rw (e, clash, open_account) at c)
              | inr free ↦
                  subst (λ (x : ℕ × Account). OwnedBy tenant currency x.1)
                    (ok-injective (rw (e, free, open_account) at c))
                    (record { tenant_is = refl; currency_is = refl; is_active = refl })
            ]
    ]

-- What a credit or debit of a request does to the accounts and to the top-up account.
pub record Transferred (catalog : Catalog) (r : CreditRequest) (db : Database) (b : ℤ)
    (db' : Database) : Type 0 where
  pub tenant : ℕ
  pub currency : String
  pub amount : ℕ
  pub tenant_is : r.tenant_id ≡ some tenant
  pub currency_is : catalog.tenant_currency tenant ≡ some currency
  pub currency_asked : (str_eq r.currency "" || str_eq r.currency currency) ≡ true
  pub amount_is : r.amount ≡ Decimal.amount amount
  pub positive : ltb 0 amount ≡ true
  pub id : ℕ
  pub row : Account
  pub row_written : find id db'.accounts ≡ some row
  pub row_tenant : row.tenant_id ≡ tenant
  pub row_currency : row.currency ≡ currency
  pub balance : row.balance ≡ credited_balance r.direction (balance_in id db.accounts) amount
  pub result : b ≡ row.balance
  pub others : (j : ℕ) → j ≢ id → find j db'.accounts ≡ find j db.accounts
  pub top_up :
      or_else (lookup (topup_account currency) db'.system_balances) (pos 0)
      ≡ or_else (lookup (topup_account currency) db.system_balances) (pos 0) +ℤ pos amount

written-row :
    (db : Database) (key currency : String) (direction : Direction) (amount id : ℕ)
    (account : Account)
    → find id (write_credit db key currency direction amount id account).accounts
      ≡ some (record account { balance = moved direction account.balance amount })
unfolding write_credit
written-row db key currency direction amount id account = find-put_same id _ db.accounts

written-others :
    (db : Database) (key currency : String) (direction : Direction) (amount id : ℕ)
    (account : Account) (j : ℕ)
    → j ≢ id
    → find j (write_credit db key currency direction amount id account).accounts
      ≡ find j db.accounts
unfolding write_credit
written-others db key currency direction amount id account j other = ground (
  arith,
  other,
  find-put id j (record account { balance = moved direction account.balance amount }) db.accounts,
)

-- A committed credit or debit moves the balance of one account, which is of the request's tenant
-- and in the tenant's currency, by the amount of the request: down where the direction asked for is
-- "debit" and up otherwise. The amount is positive and the currency asked for, if any, is the
-- tenant's; the new balance is returned, every other account stays as it is, and in both directions
-- the top-up account of the currency gains the amount. No account is in two rows before.
pub apply_credit-moves :
    (catalog : Catalog) (fresh : ℕ) (r : CreditRequest) (db : Database)
    → UniqueKeys db.accounts
    → {b : ℤ} {db' : Database} → apply_credit catalog fresh r db ≡ ok (b, db')
    → Transferred catalog r db b db'
apply_credit-moves catalog fresh r db u {b} {db'} c =
    let k = apply_credit-Credited catalog fresh r db c in
    let key = trim_space r.idempotency_key in
    let before = open_account-balance db.accounts fresh k.tenant k.currency u k.opened in
    let owned = open_account-OwnedBy db.accounts fresh k.tenant k.currency k.opened in
    record {
      tenant = k.tenant;
      currency = k.currency;
      amount = k.amount;
      tenant_is = k.tenant_known;
      currency_is = k.currency_known;
      currency_asked = k.currency_asked;
      amount_is = positive_amount-is r.amount k.positive;
      positive = positive_amount-lt r.amount k.positive;
      id = k.id;
      row = record k.account { balance = moved k.direction k.account.balance k.amount };
      row_written =
          rw k.committed (written-row db key k.currency k.direction k.amount k.id k.account);
      row_tenant = owned.tenant_is;
      row_currency = owned.currency_is;
      balance = rw before (parse_direction-moved r.direction k.account.balance k.amount k.parsed);
      result = k.result;
      others = λ j other.
          rw k.committed
            (written-others db key k.currency k.direction k.amount k.id k.account j other);
      top_up = rw k.committed (topup-moves db key k.currency k.direction k.amount k.id k.account);
    }
