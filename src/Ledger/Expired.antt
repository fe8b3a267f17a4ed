-- ===== src/Ledger/Expired.antt =====
-- What a round of `ExpireReservations` of internal/billing/service.go has closed.
use Prim.Native.String.{len}
use model_bridge.Base.{
  ℕ, zero, suc, ◌+◌, ◌≡◌, ◌≢◌, ◌⊎◌, refl, sym, Option, List, [], ◌∷◌, some, none, true, ◌==◌, leb,
  arith, All, length, Bool-cases, Option-cases, eqb→eq, inl, inr,
}
use model_bridge.Base.Int.{pos, ◌+ℤ◌}
use model_bridge.Base.Texts.{trim_space, trim_left, trim_right, keep_unless_blank}
use model_bridge.Base.Tables.{Table, find, put, find-put, UniqueKeys}
use model_bridge.Base.Results.{ok, err}
use model_bridge.Ledger.State.{BillingError, Reservation, ReservationStatus, Database}
use model_bridge.Ledger.Release.{
  Target, released_row, release_held, release_reservation, on_held, is_held, due, expire_each,
  expire_reservations, update_request, fail_request,
}
use model_bridge.Ledger.Retries.{update_request-reservations}
use model_bridge.Ledger.Expiry.{
  is_due, DueIn, due-DueIn, expire_each-other, release_reservation-other,
}

-- One of the identifiers.
abbrev Listed : ℕ → List ℕ → Type 0
Listed id [] = ⊥
Listed id (j ∷ rest) = (id ≡ j) ⊎ Listed id rest

abbrev Distinct : List ℕ → Type 0
Distinct [] = Unit
Distinct (k ∷ rest) = All (λ (j : ℕ). j ≢ k) rest × Distinct rest

-- The row is held.
abbrev HeldIn : Database → ℕ → Type 0
HeldIn db id =
    (r : Reservation) × (find id db.reservations ≡ some r) × (r.status ≡ ReservationStatus.held)

-- The row of an expired reservation, all of whose amount is released.
abbrev pub expired_row : Reservation → Reservation
expired_row r = record r { released_amount = r.reserved_amount; status = ReservationStatus.expired }

short : leb (len (trim_space "reservation_expired")) 1024 ≡ true
unfolding trim_space trim_left trim_right keep_unless_blank
short = refl

put_same : (id : ℕ) (r : Reservation) (t : Table Reservation) → find id (put id r t) ≡ some r
put_same id r t = ground (arith, find-put id id r t)

-- The release of a held reservation commits, unless its account is missing.
release_reservation-held :
    (id : ℕ) (r : Reservation) (db : Database)
    → find id db.reservations ≡ some r
    → r.status ≡ ReservationStatus.held
    → (release_reservation id "reservation_expired" Target.to_expired db
        ≡ err BillingError.account_not_found)
      ⊎ ((db' : Database) × (release_reservation id "reservation_expired" Target.to_expired db
            ≡ ok (tt, db'))
          × (find id db'.reservations ≡ some (expired_row r)))
unfolding release_reservation release_held on_held released_row
release_reservation-held id r db e held = elim (Option-cases (find r.account_id db.accounts)) [
  | inl missing ↦ inl (rw (short, e, held, missing) refl)
  | inr (account, found) ↦ inr (
    update_request r.request_id (fail_request (trim_space "reservation_expired")) (record db {
      accounts =
          put r.account_id (record account { balance = account.balance +ℤ pos r.reserved_amount })
            db.accounts;
      reservations = put id (released_row Target.to_expired r) db.reservations;
    }),
    rw (short, e, held, found) refl,
    rw (update_request-reservations r.request_id _ _)
        (put_same id (released_row Target.to_expired r) db.reservations),
  )
]

-- The held rows of a list stay held while another is given back.
HeldIn-kept :
    (j : ℕ) (ids : List ℕ) (db : Database) {u : Unit {0}} {db' : Database}
    → release_reservation j "reservation_expired" Target.to_expired db ≡ ok (u, db')
    → All (λ (k : ℕ). k ≢ j) ids
    → All (HeldIn db) ids
    → All (HeldIn db') ids
HeldIn-kept j [] db c other h = tt
HeldIn-kept j (k ∷ ids) db c (apart, other) ((r, e, held), h) = (
  (
    r,
    rw
        (release_reservation-other k j "reservation_expired" Target.to_expired db
          (λ same. apart (sym same)) c)
        e,
    held,
  ),
  HeldIn-kept j ids db c other h,
)

-- What the loop has done to a list of held reservations, where no error ended it.
record Closed (ids : List ℕ) (released : ℕ) (db : Database)
    (result : ℕ × Option BillingError × Database) : Type 0 where
  pub count : result.0 ≡ released + length ids
  pub rows :
      (id : ℕ) (r : Reservation)
      → Listed id ids
      → find id db.reservations ≡ some r
      → find id result.2.reservations ≡ some (expired_row r)

expire_each-Closed :
    (ids : List ℕ) (released : ℕ) (db : Database)
    → Distinct ids
    → All (HeldIn db) ids
    → (expire_each ids released db).1 ≡ none
    → Closed ids released db (expire_each ids released db)
unfolding expire_each
expire_each-Closed [] released db d h fine = record {
  count = omega arith;
  rows = λ id r listed e. absurd listed;
}
expire_each-Closed (j ∷ rest) released db d ((r, e, held), h) fine =
    elim (release_reservation-held j r db e held) [
      | inl missing ↦ cc (rw (missing, expire_each) at fine)
      | inr (db', c, row) ↦
          let later =
            expire_each-Closed rest (released + 1) db' d.1 (HeldIn-kept j rest db c d.0 h)
              (rw (c, expire_each) at fine) in
          rw (c, expire_each)
            (record {
              count = omega (arith, later.count);
              rows = λ id q listed f. elim listed [
                | inl same ↦
                    let equal : q ≡ r = cc (f, e, same) in
                    rw (same, equal, expire_each-other j rest (released + 1) db' d.0) row
                | inr listed' ↦ elim (Bool-cases (id == j)) [
                  | inl same ↦
                      let equal : q ≡ r = cc (f, e, eqb→eq id j same) in
                      rw (eqb→eq id j same, equal, expire_each-other j rest (released + 1) db' d.0)
                        row
                  | inr other ↦ later.rows id q listed' (
                      rw
                        (release_reservation-other id j "reservation_expired" Target.to_expired db
                          (λ same. ground (arith, same, other)) c)
                        f)
                ]
              ];
            })
    ]

not_listed :
    (now k : ℕ) (t : Table Reservation) (ids : List ℕ)
    → find k t ≡ none
    → All (DueIn now t) ids
    → All (λ (j : ℕ). j ≢ k) ids
not_listed now k t [] new h = tt
not_listed now k t (j ∷ ids) new ((r, e, d), h) =
    (λ same. cc (rw same at e, new), not_listed now k t ids new h)

due-Distinct : (limit now : ℕ) (t : Table Reservation) → UniqueKeys t → Distinct (due limit now t)
unfolding due
due-Distinct zero now t u = tt
due-Distinct (suc limit) now [] u = tt
due-Distinct (suc limit) now ((k, r) ∷ t) u = elim (Bool-cases (is_due now r)) [
  | inl d ↦ rw d (
    not_listed now k t (due limit now t) u.0 (due-DueIn limit now t u.1),
    due-Distinct limit now t u.1,
  )
  | inr live ↦ rw live (due-Distinct (suc limit) now t u.1)
]

-- The query takes every row that is due, or is full.
due-takes :
    (limit now id : ℕ) (r : Reservation) (t : Table Reservation)
    → find id t ≡ some r
    → is_due now r ≡ true
    → Listed id (due limit now t) ⊎ (length (due limit now t) ≡ limit)
unfolding due
due-takes zero now id r t e d = inr refl
due-takes (suc limit) now id r [] e d = cc e
due-takes (suc limit) now id r ((k, s) ∷ t) e d = elim (Bool-cases (is_due now s)) [
  | inl taken ↦ rw taken (elim (Bool-cases (id == k)) [
    | inl same ↦ inl (inl (eqb→eq id k same))
    | inr other ↦ elim (due-takes limit now id r t (rw other at e) d) [
      | inl listed ↦ inl (inr listed)
      | inr full ↦ inr (omega (arith, full))
    ]
  ])
  | inr skipped ↦ rw skipped (elim (Bool-cases (id == k)) [
    | inl same ↦ let equal : s ≡ r = ground (arith, e, same) in cc (rw equal at skipped, d)
    | inr other ↦ due-takes (suc limit) now id r t (rw other at e) d
  ])
]

held_of : (s : ReservationStatus) → is_held s ≡ true → s ≡ ReservationStatus.held
held_of ReservationStatus.held h = refl
held_of ReservationStatus.pending h = cc h
held_of ReservationStatus.settled h = cc h
held_of ReservationStatus.released h = cc h
held_of ReservationStatus.expired h = cc h

due-HeldIn :
    (now : ℕ) (db : Database) (ids : List ℕ)
    → All (DueIn now db.reservations) ids
    → All (HeldIn db) ids
due-HeldIn now db [] h = tt
due-HeldIn now db (j ∷ ids) ((r, e, d), h) =
    ((r, e, held_of r.status (ground (arith, d))), due-HeldIn now db ids h)

-- After a round of expiry that no error ended, a reservation that was held and past its time is
-- expired, with the whole amount that it set aside released, unless the round closed a hundred
-- reservations, its limit. No reservation is in two rows before.
pub expire_reservations-closes_due :
    (now id : ℕ) (r : Reservation) (db : Database)
    → UniqueKeys db.reservations
    → (expire_reservations now db).1 ≡ none
    → find id db.reservations ≡ some r
    → is_due now r ≡ true
    → (find id (expire_reservations now db).2.reservations ≡ some (expired_row r))
      ⊎ ((expire_reservations now db).0 ≡ 100)
unfolding expire_reservations
expire_reservations-closes_due now id r db u fine e d =
    let ids = due 100 now db.reservations in
    let closed =
      expire_each-Closed ids 0 db (due-Distinct 100 now db.reservations u)
        (due-HeldIn now db ids (due-DueIn 100 now db.reservations u)) fine in
    elim (due-takes 100 now id r db.reservations e d) [
      | inl listed ↦ inl (closed.rows id r listed e)
      | inr full ↦ inr (omega (arith, closed.count, full))
    ]
