-- ===== src/Ledger/Reconcile/Holds.antt =====
-- Reservations, settlements and credits keep the books.
use model_bridge.Base.{
  ℕ, suc, ◌+◌, ◌*◌, ◌≡◌, refl, subst, none, some, true, false, not, is_some, ◌==◌, arith, leb→le,
  ◌≤◌, Option, Bool-cases, inl, inr,
}
use model_bridge.Base.Int.{ℤ, pos, negsuc, ◌+ℤ◌, ◌≤ℤ◌, int_laws}
use model_bridge.Base.Tables.{find, total-put_new, rows-put_new, UniqueKeys}
use model_bridge.Base.Results.{ok, guard-then, or_error-then, ok-injective}
use model_bridge.Ledger.State.{Account, Database}
use model_bridge.Ledger.Quote.{Catalog, Request}
use model_bridge.Ledger.Reserve.{
  has_request_id, Fresh, Hold, micro, stored, covers, after_hold, prepaid_account, reservation_row,
  write_hold, place_hold, reserve,
}
use model_bridge.Ledger.Admission.{prepaid_account-find, reserve-Admitted}
use model_bridge.Ledger.Reconcile.Books.{
  open_on, balance_in-put, balance_in-find, Balanced, Reconciled,
}

-- The two roundings of a hold: what leaves the balance and what is set aside differ by at most
-- one unit, in the tenant's favour.
pub after_hold-stored :
    (b : ℤ) (exact : ℕ)
    → covers b exact ≡ true
    → (b ≤ℤ after_hold b exact +ℤ pos (stored exact))
      × (after_hold b exact +ℤ pos (stored exact) ≤ℤ b +ℤ pos 1)
unfolding covers after_hold stored
after_hold-stored (pos b) exact h =
    let within : exact ≤ b * micro = leb→le exact (b * micro) h in
    (omega (int_laws, within), omega (int_laws, within))
after_hold-stored (negsuc n) exact h = cc

-- A new hold on the account.
Balanced-hold :
    {b b' : ℤ} {held held' credits debits n m : ℕ} (x : ℕ)
    → Balanced b held credits debits n
    → b ≤ℤ b' +ℤ pos x
    → b' +ℤ pos x ≤ℤ b +ℤ pos 1
    → held' ≡ held + x
    → m ≡ suc n
    → Balanced b' held' credits debits m
Balanced-hold x h lo hi e k = record {
  lower = omega (int_laws, h.lower, lo, e, k);
  upper = omega (int_laws, h.upper, hi, e, k);
}

-- A new hold on another account.
Balanced-other :
    {b : ℤ} {held held' credits debits n m : ℕ}
    → Balanced b held credits debits n
    → held' ≡ held
    → m ≡ suc n
    → Balanced b held' credits debits m
Balanced-other h e k = record {
  lower = omega (int_laws, h.lower, e, k);
  upper = omega (int_laws, h.upper, e, k);
}

none_of : {A : Type 0} (o : Option A) → not (is_some o) ≡ true → o ≡ none
none_of none h = refl
none_of (some a) h = cc

row-open_on :
    (a id : ℕ) (h : Hold) (fresh : Fresh)
    → (id == a) ≡ true
    → open_on a (reservation_row h fresh id) ≡ stored h.quote.amount
unfolding reservation_row
row-open_on a id h fresh same = rw same

row-open_on_other :
    (a id : ℕ) (h : Hold) (fresh : Fresh)
    → (id == a) ≡ false
    → open_on a (reservation_row h fresh id) ≡ 0
unfolding reservation_row
row-open_on_other a id h fresh other = rw other

write_hold-Reconciled :
    (extra a id : ℕ) (account : Account) (h : Hold) (fresh : Fresh) (db : Database)
    → find id db.accounts ≡ some account
    → Reconciled extra a db
    → {r : ℕ} {db' : Database} → write_hold db h fresh id account ≡ ok (r, db')
    → Reconciled extra a db'
unfolding write_hold
write_hold-Reconciled extra a id account h fresh db e books c =
    let (enough, c1) = guard-then (covers account.balance h.quote.amount) _ _ c in
    let (_, c2) = guard-then (not (is_some (find fresh.model_request_id db.requests))) _ _ c1 in
    let (_, c3) = guard-then (not (has_request_id h.request_id db.requests)) _ _ c2 in
    let (new, c4) = guard-then (not (is_some (find fresh.reservation_id db.reservations))) _ _ c3 in
    let row = reservation_row h fresh id in
    let x = stored h.quote.amount in
    let absent = none_of (find fresh.reservation_id db.reservations) new in
    let paid : Account = record account { balance = after_hold account.balance h.quote.amount } in
    let held = total-put_new (open_on a) fresh.reservation_id row db.reservations absent in
    let (lo, hi) = after_hold-stored account.balance h.quote.amount enough in
    subst (λ (x : ℕ × Database). Reconciled extra a x.1) (ok-injective c4)
      (rw
        (
          rows-put_new fresh.reservation_id row db.reservations absent,
          balance_in-put a id paid db.accounts,
        )
        (elim (Bool-cases (id == a)) [
          | inl same ↦
              let set_aside : open_on a row ≡ x = row-open_on a id h fresh same in
              rw same (
                Balanced-hold x (rw (balance_in-find a id account db.accounts e same) at books) lo
                  hi (omega (arith, held, set_aside)) (omega arith))
          | inr other ↦
              let none_aside : open_on a row ≡ 0 = row-open_on_other a id h fresh other in
              rw other (Balanced-other books (omega (arith, held, none_aside)) (omega arith))
        ]))

place_hold-Reconciled :
    (extra a : ℕ) (h : Hold) (fresh : Fresh) (db : Database)
    → UniqueKeys db.accounts
    → Reconciled extra a db
    → {id : ℕ} {db' : Database} → place_hold db h fresh ≡ ok (id, db')
    → Reconciled extra a db'
unfolding place_hold
place_hold-Reconciled extra a h fresh db unique books c =
    let (found, e, c') = or_error-then (prepaid_account db.accounts h.tenant_id h.currency) _ _ c in
    write_hold-Reconciled extra a found.0 found.1 h fresh db
      (prepaid_account-find db.accounts h.tenant_id h.currency unique e) books c'

-- A committed reservation moves its amount from the balance to the holds.
pub reserve-Reconciled :
    (catalog : Catalog) (extra a : ℕ) (fresh : Fresh) (r : Request) (db : Database)
    → UniqueKeys db.accounts
    → Reconciled extra a db
    → {id : ℕ} {db' : Database} → reserve catalog fresh r db ≡ ok (id, db')
    → Reconciled extra a db'
reserve-Reconciled catalog extra a fresh r db unique books c =
    let admitted = reserve-Admitted catalog fresh r db c in
    place_hold-Reconciled extra a admitted.hold fresh db unique books admitted.placed
