-- ===== src/Ledger/Reconcile/Books.antt =====
-- The books of one account, read off the rows of internal/billing/service.go.
use model_bridge.Base.{
  ℕ, ◌+◌, ◌≡◌, none, some, true, false, ◌&&◌, ◌==◌, if◌then◌else◌, sum_by, arith, Option-cases, ap,
  inl, inr,
}
use model_bridge.Base.Int.{ℤ, pos, pos_part, neg_part, ◌+ℤ◌, ◌≤ℤ◌, int_laws}
use model_bridge.Base.Tables.{Table, find, put, total, rows, find-put, total-put}
use model_bridge.Ledger.State.{
  Account, Reservation, ModelRequest, Direction, Owner, LedgerLine, Database, is_open,
}
use model_bridge.Ledger.Release.{update_request}

-- The balance of an account; an account that is not there counts as empty.
abbrev pub balance_in : ℕ → Table Account → ℤ
balance_in a t = elim (find a t) [ none ↦ pos 0 | some row ↦ row.balance ]

-- What a reservation sets aside from the account.
abbrev pub open_on : ℕ → Reservation → ℕ
open_on a r = if r.account_id == a && is_open r.status then r.reserved_amount else 0

abbrev pub held_in : ℕ → Table Reservation → ℕ
held_in a = total (open_on a)

abbrev pub credit_of : ℕ → LedgerLine → ℕ
credit_of a l = elim l.owner [
  | Owner.system_account s ↦ 0
  | Owner.tenant_account b ↦
      if b == a then elim l.direction [ Direction.credit ↦ l.amount | Direction.debit ↦ 0 ] else 0
]

abbrev pub debit_of : ℕ → LedgerLine → ℕ
debit_of a l = elim l.owner [
  | Owner.system_account s ↦ 0
  | Owner.tenant_account b ↦
      if b == a then elim l.direction [ Direction.credit ↦ 0 | Direction.debit ↦ l.amount ] else 0
]

-- Balance and holds equal credits less debits, up to a number of units of 10^-30, which the rounding
-- of two stored amounts may add (never take away): one for each reservation ever made, and one for
-- each that was bound to another model.
pub record Balanced (balance : ℤ) (held credits debits units : ℕ) : Type 0 where
  pub lower : pos credits ≤ℤ balance +ℤ pos (held + debits)
  pub upper : balance +ℤ pos (held + debits) ≤ℤ pos (credits + units)

abbrev pub Reconciled : ℕ → ℕ → Database → Type 0
Reconciled extra a db =
    Balanced (balance_in a db.accounts) (held_in a db.reservations) (sum_by (credit_of a) db.lines)
      (sum_by (debit_of a) db.lines) (rows db.reservations + extra)

-- An update of a request is no entry in the books.
pub update_request-Reconciled :
    (extra a id : ℕ) (f : ModelRequest → ModelRequest) (db : Database)
    → Reconciled extra a db
    → Reconciled extra a (update_request id f db)
update_request-Reconciled extra a id f db h = elim (Option-cases (find id db.requests)) [
  | inl e ↦ rw (e, update_request) h
  | inr (q, e) ↦ rw (e, update_request) h
]

-- Money that moves between the balance, the holds and the lines keeps the books balanced.
pub Balanced-move :
    {b b' : ℤ} {held held' credits credits' debits debits' n : ℕ}
    → Balanced b held credits debits n
    → b' +ℤ pos (held' + debits' + credits) ≡ b +ℤ pos (held + debits + credits')
    → Balanced b' held' credits' debits' n
Balanced-move h e = record {
  lower = omega (int_laws, ap pos_part e, ap neg_part e, h.lower);
  upper = omega (int_laws, ap pos_part e, ap neg_part e, h.upper);
}

-- The balance of an account after a write to one of the accounts.
pub balance_in-put :
    (a k : ℕ) (row : Account) (t : Table Account)
    → balance_in a (put k row t) ≡ (if k == a then row.balance else balance_in a t)
balance_in-put a k row t = ground (arith, find-put k a row t)

pub balance_in-find :
    (a k : ℕ) (row : Account) (t : Table Account)
    → find k t ≡ some row
    → (k == a) ≡ true
    → balance_in a t ≡ row.balance
balance_in-find a k row t e s = ground arith

-- A closed row gives up what the open row set aside.
pub held_in-close :
    (a id : ℕ) (r closed : Reservation) (t : Table Reservation)
    → find id t ≡ some r
    → is_open r.status ≡ true
    → is_open closed.status ≡ false
    → held_in a (put id closed t) + (if r.account_id == a then r.reserved_amount else 0)
      ≡ held_in a t
held_in-close a id r closed t e o c = ground (arith, total-put (open_on a) id closed r t e)
