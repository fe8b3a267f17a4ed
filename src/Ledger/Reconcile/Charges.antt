-- ===== src/Ledger/Reconcile/Charges.antt =====
-- Settlements and credits keep the books: what they move has its ledger lines.
use Prim.Native.String.{String}
use model_bridge.Base.{
  ℕ, ◌+◌, ◌≡◌, refl, subst, some, true, false, ◌==◌, if◌then◌else◌, sum_by, arith, Bool-cases, inl,
  inr,
}
use model_bridge.Base.Int.{pos, ◌+ℤ◌, ◌-ℤ◌, int_laws}
use model_bridge.Base.Tables.{find, put, rows-put}
use model_bridge.Base.Results.{ok, or_error-then, ok-injective, >>=-eq-ok}
use model_bridge.Metering.Defs.{Quantities}
use model_bridge.Ledger.State.{
  Account, Reservation, ModelRequest, ApiToken, TransactionKey, Database, is_open,
}
use model_bridge.Ledger.Keys.{Grown}
use model_bridge.Ledger.Links.{Even}
use model_bridge.Ledger.Posting.{has_transaction, post_charge}
use model_bridge.Ledger.Settle.{settled_row, write_settlement}
use model_bridge.Ledger.Reconcile.Books.{
  balance_in-put, balance_in-find, held_in-close, credit_of, debit_of, Balanced-move, Reconciled,
}

-- What the posting of a charge leaves alone, and the lines that it adds.
pub record Posted (account amount : ℕ) (db posted : Database) : Type 0 where
  pub accounts : posted.accounts ≡ db.accounts
  pub reservations : posted.reservations ≡ db.reservations
  pub requests : posted.requests ≡ db.requests
  pub tokens : posted.tokens ≡ db.tokens
  pub debits :
      (a : ℕ)
      → sum_by (debit_of a) posted.lines
        ≡ (if account == a then amount else 0) + sum_by (debit_of a) db.lines
  pub even : Even db.lines → Even posted.lines
  pub keys : Grown db.transactions posted.transactions
  pub credits : (a : ℕ) → sum_by (credit_of a) posted.lines ≡ sum_by (credit_of a) db.lines

pub post_charge-Posted :
    (request account : ℕ) (currency : String) (amount : ℕ) (db : Database) {posted : Database}
    → post_charge request account currency amount db ≡ ok posted
    → Posted account amount db posted
unfolding post_charge
post_charge-Posted request account currency amount db c = elim (Bool-cases (amount == 0)) [
  | inl zero_amount ↦
      subst (Posted account amount db) (ok-injective (rw zero_amount at c)) (record {
        accounts = refl;
        reservations = refl;
        requests = refl;
        tokens = refl;
        debits = λ a. ground (arith, zero_amount);
        even = λ h. h;
        keys = Grown.same;
        credits = λ a. refl;
      })
  | inr more ↦
      elim (Bool-cases (has_transaction (TransactionKey.charge_key request) db.transactions)) [
        | inl seen ↦ cc (rw (more, seen) at c)
        | inr unseen ↦
            subst (Posted account amount db) (ok-injective (rw (more, unseen) at c)) (record {
              accounts = refl;
              reservations = refl;
              requests = refl;
              tokens = refl;
              debits = λ a. ground arith;
              even = λ h. omega (arith, h);
              keys = Grown.posted (TransactionKey.charge_key request) unseen;
              credits = λ a. ground arith;
            })
      ]
]

settled_row-closed : (actual : ℕ) (r : Reservation) → is_open (settled_row actual r).status ≡ false
unfolding settled_row
settled_row-closed actual r = refl

-- The write of the settlement itself.
pub write_settlement-Reconciled :
    (extra a id : ℕ) (r : Reservation) (q : ModelRequest) (token : ApiToken) (actual cost : ℕ)
    (metrics : Quantities) (db : Database)
    → find id db.reservations ≡ some r
    → is_open r.status ≡ true
    → Reconciled extra a db
    → {u : Unit {0}} {db' : Database}
    → write_settlement db id r q token actual cost metrics ≡ ok (u, db')
    → Reconciled extra a db'
unfolding write_settlement
write_settlement-Reconciled extra a id r q token actual cost metrics db e o h c =
    let (account, f, c1) = or_error-then (find r.account_id db.accounts) _ _ c in
    let paid : Account = record account {
      balance = account.balance +ℤ pos r.reserved_amount -ℤ pos actual;
    } in
    let charged : Database = record db {
      tokens =
          put q.token_id (record token { spent_amount = token.spent_amount + actual }) db.tokens;
      accounts = put r.account_id paid db.accounts;
    } in
    let (posted, p, c2) =
      >>=-eq-ok (post_charge r.request_id r.account_id r.currency actual charged) _ c1 in
    let facts = post_charge-Posted r.request_id r.account_id r.currency actual charged p in
    let closed =
      held_in-close a id r (settled_row actual r) db.reservations e o
        (settled_row-closed actual r) in
    subst (λ (x : Unit {0} × Database). Reconciled extra a x.1) (ok-injective c2)
      (rw
        (
          facts.accounts,
          facts.reservations,
          facts.debits a,
          facts.credits a,
          rows-put id (settled_row actual r) r db.reservations e,
          balance_in-put a r.account_id paid db.accounts,
        )
        (elim (Bool-cases (r.account_id == a)) [
          | inl same ↦ rw same (
              Balanced-move (rw (balance_in-find a r.account_id account db.accounts f same) at h)
                (omega (int_laws, rw same at closed)))
          | inr other ↦ rw other (Balanced-move h (omega (int_laws, rw other at closed)))
        ]))
