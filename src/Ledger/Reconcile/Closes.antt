-- ===== src/Ledger/Reconcile/Closes.antt =====
-- The ends of a reservation keep the books: release, expiry, the pending mark and the extension.
use Prim.Native.String.{String, len}
use model_bridge.Base.{
  ℕ, ◌+◌, ◌*◌, ◌≡◌, leb, ltb, not, refl, Option, some, true, false, ◌&&◌, ◌==◌, sum_by, arith, ap,
  subst, Bool-cases, inl, inr,
}
use model_bridge.Base.Int.{pos, ◌+ℤ◌, int_laws}
use model_bridge.Base.Tables.{find, put, total-put, rows-put}
use model_bridge.Base.Results.{ok, guard-then, or_error-then, ok-injective}
use model_bridge.Ledger.State.{Account, Reservation, Database, Committed, is_open}
use model_bridge.Ledger.Release.{
  second, Target, released_row, fail_request, release_held, release_reservation, fail,
  mark_settlement_pending, extend_reservation, pend_request, pending_row,
}
use model_bridge.Ledger.Statuses.{on_held-eq-ok, by_status-eq-ok}
use model_bridge.Metering.Defs.{Quantities}
use model_bridge.Base.Texts.{trim_space, str_eq}
use model_bridge.Ledger.Reconcile.Books.{
  balance_in, open_on, held_in, balance_in-put, balance_in-find, held_in-close, credit_of, debit_of,
  Balanced-move, Reconciled, update_request-Reconciled,
}

released_row-closed :
    (target : Target) (r : Reservation) → is_open (released_row target r).status ≡ false
unfolding released_row
released_row-closed Target.to_released r = refl
released_row-closed Target.to_expired r = refl

-- The books of one account while a reservation is given back.
release-balance :
    (a id d c : ℕ) (r : Reservation) (account : Account) (target : Target) (db : Database)
    → find id db.reservations ≡ some r
    → is_open r.status ≡ true
    → find r.account_id db.accounts ≡ some account
    → balance_in a (
          put r.account_id
            (record account { balance = account.balance +ℤ pos r.reserved_amount })
            db.accounts)
        +ℤ pos (held_in a (put id (released_row target r) db.reservations) + d + c)
      ≡ balance_in a db.accounts +ℤ pos (held_in a db.reservations + d + c)
release-balance a id d c r account target db e o f =
    let closed =
      held_in-close a id r (released_row target r) db.reservations e o
        (released_row-closed target r) in
    let paid : Account = record account { balance = account.balance +ℤ pos r.reserved_amount } in
    rw (balance_in-put a r.account_id paid db.accounts) (elim (Bool-cases (r.account_id == a)) [
      | inl same ↦
          rw (same, balance_in-find a r.account_id account db.accounts f same)
            (omega (int_laws, rw same at closed))
      | inr other ↦ rw other (omega (int_laws, rw other at closed))
    ])

-- An operation that commits the database as it was.
pub unchanged-Reconciled :
    (extra a : ℕ) (db : Database)
    → Reconciled extra a db
    → {u : Unit {0}} {db' : Database} → ◌≡◌ {A = Committed (Unit {0})} (ok (tt, db)) (ok (u, db'))
    → Reconciled extra a db'
unchanged-Reconciled extra a db h c =
    subst (λ (x : Unit {0} × Database). Reconciled extra a x.1) (ok-injective c) h

-- Giving a held reservation back keeps the books of every account.
release_held-Reconciled :
    (extra a id : ℕ) (r : Reservation) (reason : String) (target : Target) (db : Database)
    → find id db.reservations ≡ some r
    → is_open r.status ≡ true
    → Reconciled extra a db
    → {u : Unit {0}} {db' : Database} → release_held db id r reason target ≡ ok (u, db')
    → Reconciled extra a db'
unfolding release_held
release_held-Reconciled extra a id r reason target db e o h c =
    let (account, f, c') = or_error-then (find r.account_id db.accounts) _ _ c in
    let given : Database = record db {
      accounts =
          put r.account_id (record account { balance = account.balance +ℤ pos r.reserved_amount })
            db.accounts;
      reservations = put id (released_row target r) db.reservations;
    } in
    let moved =
      release-balance a id (sum_by (debit_of a) db.lines) (sum_by (credit_of a) db.lines) r account
        target db e o f in
    let books : Reconciled extra a given =
      rw (rows-put id (released_row target r) r db.reservations e) (Balanced-move h moved) in
    subst (λ (x : Unit {0} × Database). Reconciled extra a x.1) (ok-injective c')
      (update_request-Reconciled extra a r.request_id (fail_request reason) given books)

-- Whatever `releaseReservation` commits keeps the books of every account.
pub release_reservation-Reconciled :
    (extra a id : ℕ) (reason : String) (target : Target) (db : Database)
    → Reconciled extra a db
    → {u : Unit {0}} {db' : Database} → release_reservation id reason target db ≡ ok (u, db')
    → Reconciled extra a db'
unfolding release_reservation
release_reservation-Reconciled extra a id reason target db h c =
    let (_, c1) = guard-then (leb (len (trim_space reason)) 1024) _ _ c in
    let (r, e, c2) = or_error-then (find id db.reservations) _ _ c1 in
    elim (on_held-eq-ok r.status _ _ c2) [
      | inl (held, c3) ↦
          release_held-Reconciled extra a id r (trim_space reason) target db e (ap is_open held) h
            c3
      | inr same ↦ unchanged-Reconciled extra a db h same
    ]

-- Whatever `Fail` commits keeps the books of every account.
pub fail-Reconciled :
    (extra a id : ℕ) (reason : String) (db : Database)
    → Reconciled extra a db
    → {u : Unit {0}} {db' : Database} → fail id reason db ≡ ok (u, db')
    → Reconciled extra a db'
unfolding fail
fail-Reconciled extra a id reason db h c =
    release_reservation-Reconciled extra a id reason Target.to_released db h c

-- A mark or an extension moves no money.
put_open-Reconciled :
    (extra a id : ℕ) (r r' : Reservation) (db : Database)
    → find id db.reservations ≡ some r
    → open_on a r' ≡ open_on a r
    → Reconciled extra a db
    → Reconciled extra a (record db { reservations = put id r' db.reservations })
put_open-Reconciled extra a id r r' db e same h =
    let held : held_in a (put id r' db.reservations) ≡ held_in a db.reservations =
      omega (arith, total-put (open_on a) id r' r db.reservations e, same) in
    rw (held, rows-put id r' r db.reservations e) h

pub mark_settlement_pending-Reconciled :
    (extra a id : ℕ) (reason : String) (usage : Option Quantities) (db : Database)
    → Reconciled extra a db
    → {u : Unit {0}} {db' : Database} → mark_settlement_pending id reason usage db ≡ ok (u, db')
    → Reconciled extra a db'
unfolding mark_settlement_pending pending_row
mark_settlement_pending-Reconciled extra a id reason usage db h c =
    let (_, c1) =
      guard-then (not (str_eq (trim_space reason) "") && leb (len (trim_space reason)) 1024) _ _
        c in
    let (r, e, c2) = or_error-then (find id db.reservations) _ _ c1 in
    elim (by_status-eq-ok r.status _ _ c2) [
      | inl (live, c3) ↦
          let marked : Database = record db {
            reservations = put id (pending_row r) db.reservations;
          } in
          subst (λ (x : Unit {0} × Database). Reconciled extra a x.1) (ok-injective c3)
            (update_request-Reconciled extra a r.request_id (pend_request (trim_space reason) usage)
              marked
              (put_open-Reconciled extra a id r (pending_row r) db e (ground (arith, live)) h))
      | inr (_, same) ↦ unchanged-Reconciled extra a db h same
    ]

pub extend_reservation-Reconciled :
    (extra a id extension now : ℕ) (db : Database)
    → Reconciled extra a db
    → {u : Unit {0}} {db' : Database} → extend_reservation id extension now db ≡ ok (u, db')
    → Reconciled extra a db'
unfolding extend_reservation
extend_reservation-Reconciled extra a id extension now db h c =
    let (_, c1) = guard-then (ltb 0 extension && leb extension (86400 * second)) _ _ c in
    let (r, e, c2) = or_error-then (find id db.reservations) _ _ c1 in
    let (_, c3) = guard-then (is_open r.status) _ _ c2 in
    subst (λ (x : Unit {0} × Database). Reconciled extra a x.1) (ok-injective c3)
      (put_open-Reconciled extra a id r _ db e refl h)
