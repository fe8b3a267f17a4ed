-- ===== src/Ledger/Credited.antt =====
-- What a successful `Credit` of internal/billing/service.go has checked.
use Prim.Native.String.{String, len}
use model_bridge.Base.{ℕ, ◌≡◌, some, true, ◌&&◌, ◌||◌, not, leb, sym, ap}
use model_bridge.Base.Int.{ℤ}
use model_bridge.Base.Texts.{str_eq, trim_space}
use model_bridge.Base.Results.{ok, guard-then, or_error-then, ok-injective, >>=-eq-ok}
use model_bridge.Ledger.State.{Account, Direction, TransactionKey, Database}
use model_bridge.Ledger.Quote.{Catalog}
use model_bridge.Ledger.Posting.{has_transaction}
use model_bridge.Ledger.Credit.{
  CreditRequest, parse_direction, positive_amount, moved, open_account, write_credit, apply_credit,
}

pub record Credited (catalog : Catalog) (fresh : ℕ) (r : CreditRequest) (db : Database) (b : ℤ)
    (db' : Database) : Type 0 where
  pub direction : Direction
  pub tenant : ℕ
  pub currency : String
  pub amount : ℕ
  pub id : ℕ
  pub account : Account
  pub currency_known : catalog.tenant_currency tenant ≡ some currency
  pub currency_asked : (str_eq r.currency "" || str_eq r.currency currency) ≡ true
  pub tenant_known : r.tenant_id ≡ some tenant
  pub in_bounds :
      (not (str_eq (trim_space r.idempotency_key) "")
        && leb (len (trim_space r.idempotency_key)) 256
        && leb (len r.reason) 1024)
      ≡ true
  pub new_key :
      not
        (has_transaction (TransactionKey.client_key (trim_space r.idempotency_key)) db.transactions)
      ≡ true
  pub positive : positive_amount r.amount ≡ ok amount
  pub parsed : parse_direction r.direction ≡ ok direction
  pub opened : open_account db.accounts fresh tenant currency ≡ ok (id, account)
  pub result : b ≡ moved direction account.balance amount
  pub committed :
      db' ≡ write_credit db (trim_space r.idempotency_key) currency direction amount id account

pub apply_credit-Credited :
    (catalog : Catalog) (fresh : ℕ) (r : CreditRequest) (db : Database) {b : ℤ} {db' : Database}
    → apply_credit catalog fresh r db ≡ ok (b, db')
    → Credited catalog fresh r db b db'
unfolding apply_credit
apply_credit-Credited catalog fresh r db c =
    let (direction, ed, c1) = >>=-eq-ok (parse_direction r.direction) _ c in
    let (tenant, et, c2) = or_error-then r.tenant_id _ _ c1 in
    let key = trim_space r.idempotency_key in
    let (eb, c3) =
      guard-then (not (str_eq key "") && leb (len key) 256 && leb (len r.reason) 1024) _ _ c2 in
    let (amount, ea, c4) = >>=-eq-ok (positive_amount r.amount) _ c3 in
    let (new, c5) =
      guard-then (not (has_transaction (TransactionKey.client_key key) db.transactions)) _ _ c4 in
    let (currency, known, c6) = or_error-then (catalog.tenant_currency tenant) _ _ c5 in
    let (asked, c7) = guard-then (str_eq r.currency "" || str_eq r.currency currency) _ _ c6 in
    let (found, e, c8) = >>=-eq-ok (open_account db.accounts fresh tenant currency) _ c7 in
    let same = ok-injective c8 in
    record {
      direction = direction;
      tenant = tenant;
      currency = currency;
      amount = amount;
      currency_known = known;
      currency_asked = asked;
      tenant_known = et;
      in_bounds = eb;
      id = found.0;
      account = found.1;
      new_key = new;
      positive = ea;
      parsed = ed;
      opened = e;
      result = sym (ap (λ (x : ℤ × Database). x.0) same);
      committed = sym (ap (λ (x : ℤ × Database). x.1) same);
    }
