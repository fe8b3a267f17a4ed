-- ===== src/Ledger/Reconcile/Rebinds.antt =====
-- A rebinding to another model adds at most one unit to the books; the opening of an account adds
-- nothing.
use Prim.Native.String.{String}
use model_bridge.Base.{
  ℕ, ◌+◌, ◌≡◌, refl, subst, some, true, false, ◌==◌, arith, Option, Bool-cases, eqb→eq, inl, inr,
}
use model_bridge.Base.Int.{ℤ, pos, ◌+ℤ◌, ◌≤ℤ◌, int_laws}
use model_bridge.Base.Tables.{find, put, total-put, rows-put, UniqueKeys}
use model_bridge.Base.Results.{ok, guard-then, or_error-then, ok-injective}
use model_bridge.Ledger.State.{Account, Reservation, Database, is_open}
use model_bridge.Ledger.Quote.{Catalog, ChannelTarget, Quote}
use model_bridge.Ledger.Reserve.{stored, covers, after_hold}
use model_bridge.Ledger.Credit.{ensure_prepaid_account}
use model_bridge.Ledger.Rebind.{
  rebound_row, rebound_request, write_rebind, rebind_reservation_channel,
}
use model_bridge.Ledger.Rebound.{rebind_reservation_channel-Rebound, ensure_prepaid_account-Ensured}
use model_bridge.Ledger.Reconcile.Books.{
  balance_in, open_on, balance_in-put, balance_in-find, Balanced, Reconciled,
  update_request-Reconciled,
}
use model_bridge.Ledger.Reconcile.Holds.{after_hold-stored}
use model_bridge.Ledger.Reconcile.Closes.{unchanged-Reconciled}

-- A hold of x takes the place of one of y.
Balanced-swap :
    {b b' : ℤ} {held held' credits debits n : ℕ} (x y : ℕ)
    → Balanced b held credits debits n
    → (b +ℤ pos y) ≤ℤ b' +ℤ pos x
    → b' +ℤ pos x ≤ℤ (b +ℤ pos y) +ℤ pos 1
    → held' + y ≡ held + x
    → Balanced b' held' credits debits (n + 1)
Balanced-swap x y h lo hi e = record {
  lower = omega (int_laws, h.lower, lo, e);
  upper = omega (int_laws, h.upper, hi, e);
}

-- More room.
Balanced-more :
    {b : ℤ} {held held' credits debits n : ℕ}
    → Balanced b held credits debits n
    → held' ≡ held
    → Balanced b held' credits debits (n + 1)
Balanced-more h e = record {
  lower = omega (int_laws, h.lower, e);
  upper = omega (int_laws, h.upper, e);
}

rebound-open_on :
    (a : ℕ) (quote : Quote) (r : Reservation)
    → (r.account_id == a) ≡ true
    → is_open r.status ≡ true
    → open_on a (rebound_row quote r) ≡ stored quote.amount
unfolding rebound_row
rebound-open_on a quote r same live = rw (same, live) refl

rebound-open_on_other :
    (a : ℕ) (quote : Quote) (r : Reservation)
    → (r.account_id == a) ≡ false
    → open_on a (rebound_row quote r) ≡ 0
unfolding rebound_row
rebound-open_on_other a quote r other = rw other refl

held_by :
    (a : ℕ) (r : Reservation)
    → (r.account_id == a) ≡ true
    → is_open r.status ≡ true
    → open_on a r ≡ r.reserved_amount
held_by a r same live = rw (same, live) refl

held_by_other : (a : ℕ) (r : Reservation) → (r.account_id == a) ≡ false → open_on a r ≡ 0
held_by_other a r other = rw other refl

Balanced-units :
    {b : ℤ} {held credits debits n m : ℕ}
    → Balanced b held credits debits n
    → m ≡ n
    → Balanced b held credits debits m
Balanced-units h e = record { lower = h.lower; upper = omega (int_laws, h.upper, e) }

Reconciled-more :
    (extra a : ℕ) (db : Database) → Reconciled extra a db → Reconciled (1 + extra) a db
Reconciled-more extra a db h = record { lower = h.lower; upper = omega (int_laws, h.upper) }

write_rebind-Reconciled :
    (extra a id channel : ℕ) (target : ChannelTarget) (r : Reservation) (quote : Quote)
    (db : Database) {u : Unit {0}} {db' : Database}
    → find id db.reservations ≡ some r
    → is_open r.status ≡ true
    → Reconciled extra a db
    → write_rebind id channel target r quote db ≡ ok (u, db')
    → Reconciled (1 + extra) a db'
unfolding write_rebind
write_rebind-Reconciled extra a id channel target r quote db e live books c =
    let (account, f, c1) = or_error-then (find r.account_id db.accounts) _ _ c in
    let freed = account.balance +ℤ pos r.reserved_amount in
    let (enough, c2) = guard-then (covers freed quote.amount) _ _ c1 in
    let row = rebound_row quote r in
    let paid : Account = record account { balance = after_hold freed quote.amount } in
    let written : Database = record db {
      accounts = put r.account_id paid db.accounts;
      reservations = put id row db.reservations;
    } in
    let held = total-put (open_on a) id row r db.reservations e in
    let (lo, hi) = after_hold-stored freed quote.amount enough in
    let done : Reconciled (1 + extra) a written =
      rw (rows-put id row r db.reservations e, balance_in-put a r.account_id paid db.accounts)
        (elim (Bool-cases (r.account_id == a)) [
          | inl same ↦
              let new = rebound-open_on a quote r same live in
              let old = held_by a r same live in
              rw same (
                Balanced-units
                  (Balanced-swap (stored quote.amount) r.reserved_amount
                    (rw (balance_in-find a r.account_id account db.accounts f same) at books) lo hi
                    (omega (arith, held, new, old)))
                  (omega arith))
          | inr other ↦
              let new = rebound-open_on_other a quote r other in
              let old = held_by_other a r other in
              rw other
                (Balanced-units (Balanced-more books (omega (arith, held, new, old))) (omega arith))
        ]) in
    subst (λ (x : Unit {0} × Database). Reconciled (1 + extra) a x.1) (ok-injective c2)
      (update_request-Reconciled (1 + extra) a r.request_id (rebound_request channel target quote)
        written done)

-- A rebinding of an open reservation adds at most one unit.
pub rebind_reservation_channel-Reconciled :
    (catalog : Catalog) (extra a id channel : ℕ) (db : Database) {u : Unit {0}} {db' : Database}
    → Reconciled extra a db
    → rebind_reservation_channel catalog id channel db ≡ ok (u, db')
    → Reconciled (1 + extra) a db'
rebind_reservation_channel-Reconciled catalog extra a id channel db h c =
    elim (rebind_reservation_channel-Rebound catalog id channel db c) [
      | inr same ↦ unchanged-Reconciled (1 + extra) a db (Reconciled-more extra a db h) same
      | inl b ↦ elim b.done [
        | inr (target, w) ↦
            write_rebind-Reconciled extra a id channel target b.reservation w.quote db
              b.reservation_row b.live h w.written
        | inl w ↦ rw w.written (Reconciled-more extra a db h)
      ]
    ]

-- The opening of an account moves no money.
pub ensure_prepaid_account-Reconciled :
    (extra a fresh : ℕ) (tenant_id : Option ℕ) (currency : String) (db : Database) {id : ℕ}
    {db' : Database}
    → UniqueKeys db.accounts
    → Reconciled extra a db
    → ensure_prepaid_account fresh tenant_id currency db ≡ ok (id, db')
    → Reconciled extra a db'
ensure_prepaid_account-Reconciled extra a fresh tenant_id currency db u h c =
    let w = ensure_prepaid_account-Ensured fresh tenant_id currency db c in
    rw (w.written, balance_in-put a w.id w.row db.accounts)
      (elim (Bool-cases (w.id == a)) [
        | inl same ↦
            let kept : balance_in a db.accounts ≡ w.row.balance =
              rw (eqb→eq w.id a same) at w.balance u in
            rw (same, ← kept) h
        | inr other ↦ rw other h
      ])
