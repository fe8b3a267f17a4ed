-- ===== src/Ledger/Reconcile/Credits.antt =====
-- Every commit of `Credit` keeps the books, and the identifiers of accounts stay unique.
use Prim.Native.String.{String}
use model_bridge.Base.{
  ℕ, ◌≡◌, subst, true, ◌==◌, ◌||◌, is_some, inl, inr, arith, eqb→eq, Bool-cases, Option-cases, refl,
}
use model_bridge.Base.Int.{ℤ, pos, ◌+ℤ◌, ◌-ℤ◌, int_laws}
use model_bridge.Base.Tables.{find, UniqueKeys, Table}
use model_bridge.Base.Texts.{trim_space}
use model_bridge.Base.Results.{ok, ok-injective}
use model_bridge.Ledger.State.{Account, Direction, Database}
use model_bridge.Ledger.Quote.{Catalog}
use model_bridge.Ledger.Reserve.{prepaid_account}
use model_bridge.Ledger.Admission.{prepaid_account-find}
use model_bridge.Ledger.Credit.{
  CreditRequest, moved, any_account, open_account, write_credit, apply_credit,
}
use model_bridge.Ledger.Credited.{apply_credit-Credited}
use model_bridge.Ledger.Reconcile.Books.{balance_in, balance_in-put, Balanced-move, Reconciled}

-- The account that `Credit` opens or finds holds what the books say.
pub open_account-balance :
    (accounts : Table Account) (fresh tenant : ℕ) (currency : String) {found : ℕ × Account}
    → UniqueKeys accounts
    → open_account accounts fresh tenant currency ≡ ok found
    → balance_in found.0 accounts ≡ found.1.balance
unfolding open_account
open_account-balance accounts fresh tenant currency {found} u c =
    elim (Option-cases (prepaid_account accounts tenant currency)) [
      | inl e ↦
          elim (Bool-cases
            (any_account accounts tenant currency || is_some (find fresh accounts))) [
              | inl clash ↦ cc (rw (e, clash, open_account) at c)
              | inr free ↦
                  subst (λ (x : ℕ × Account). balance_in x.0 accounts ≡ x.1.balance)
                    (ok-injective (rw (e, free, open_account) at c)) (ground arith)
            ]
      | inr (got, e) ↦
          let same : got ≡ found = ok-injective (rw (e, open_account) at c) in
          subst (λ (x : ℕ × Account). balance_in x.0 accounts ≡ x.1.balance) same
            (rw (prepaid_account-find accounts tenant currency u e, balance_in) refl)
    ]

balance_in-same :
    (a id : ℕ) (b : ℤ) (db : Database)
    → balance_in id db.accounts ≡ b
    → (id == a) ≡ true
    → balance_in a db.accounts ≡ b
balance_in-same a id b db e same = rw (eqb→eq id a same) at e

write_credit-Reconciled :
    (extra a : ℕ) (key currency : String) (direction : Direction) (amount id : ℕ)
    (account : Account) (db : Database)
    → balance_in id db.accounts ≡ account.balance
    → Reconciled extra a db
    → Reconciled extra a (write_credit db key currency direction amount id account)
unfolding write_credit moved
write_credit-Reconciled extra a key currency Direction.credit amount id account db e h =
    rw
      (balance_in-put a id (record account { balance = account.balance +ℤ pos amount }) db.accounts)
      (elim (Bool-cases (id == a)) [
        | inl same ↦ rw same (
            Balanced-move (rw (balance_in-same a id account.balance db e same) at h)
              (omega int_laws))
        | inr other ↦ rw other (Balanced-move h (omega int_laws))
      ])
write_credit-Reconciled extra a key currency Direction.debit amount id account db e h =
    rw
      (balance_in-put a id (record account { balance = account.balance -ℤ pos amount }) db.accounts)
      (elim (Bool-cases (id == a)) [
        | inl same ↦ rw same (
            Balanced-move (rw (balance_in-same a id account.balance db e same) at h)
              (omega int_laws))
        | inr other ↦ rw other (Balanced-move h (omega int_laws))
      ])

pub apply_credit-Reconciled :
    (catalog : Catalog) (extra a fresh : ℕ) (r : CreditRequest) (db : Database)
    → UniqueKeys db.accounts
    → Reconciled extra a db
    → {b : ℤ} {db' : Database} → apply_credit catalog fresh r db ≡ ok (b, db')
    → Reconciled extra a db'
apply_credit-Reconciled catalog extra a fresh r db unique h c =
    let k = apply_credit-Credited catalog fresh r db c in
    let balance = open_account-balance db.accounts fresh k.tenant k.currency unique k.opened in
    rw k.committed (
      write_credit-Reconciled extra a (trim_space r.idempotency_key) k.currency k.direction k.amount
        k.id k.account db balance h)
