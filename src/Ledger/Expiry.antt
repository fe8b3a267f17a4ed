-- ===== src/Ledger/Expiry.antt =====
-- `ExpireReservations` of internal/billing/service.go: a round of at most a hundred releases.
use Prim.Native.String.{String, len}
use model_bridge.Base.{
  ℕ, zero, suc, ◌+◌, ◌≤◌, ◌≡◌, ◌≢◌, refl, subst, List, [], ◌∷◌, some, none, true, false, Bool, ◌==◌,
  ◌&&◌, leb, arith, All, length, Option, Bool-cases, eqb→eq, inl, inr,
}
use model_bridge.Base.Texts.{trim_space}
use model_bridge.Base.Tables.{Table, find, put, find-put, UniqueKeys}
use model_bridge.Base.Results.{ok, err, guard-then, or_error-then, ok-injective}
use model_bridge.Ledger.State.{BillingError, Reservation, Database, Committed}
use model_bridge.Ledger.Quote.{Catalog}
use model_bridge.Ledger.Release.{
  Target, release_held, release_reservation, fail_request, is_held, due, expire_each,
  expire_reservations,
}
use model_bridge.Ledger.Statuses.{on_held-eq-ok}
use model_bridge.Ledger.Runs.{Step, Reach}
use model_bridge.Ledger.Retries.{update_request-reservations}

-- Held and past its time.
abbrev pub is_due : ℕ → Reservation → Bool
is_due now r = is_held r.status && leb r.expires_at now

put-other :
    (id j : ℕ) (row : Reservation) (t : Table Reservation)
    → j ≢ id
    → find id (put j row t) ≡ find id t
put-other id j row t other = ground (arith, other, find-put j id row t)

pub release_reservation-other :
    (id j : ℕ) (reason : String) (target : Target) (db : Database)
    → j ≢ id
    → {u : Unit {0}} {db' : Database} → release_reservation j reason target db ≡ ok (u, db')
    → find id db'.reservations ≡ find id db.reservations
unfolding release_reservation release_held
release_reservation-other id j reason target db other c =
    let (_, c1) = guard-then (leb (len (trim_space reason)) 1024) _ _ c in
    let (r, e, c2) = or_error-then (find j db.reservations) _ _ c1 in
    elim (on_held-eq-ok r.status _ _ c2) [
      | inr same ↦
          subst (λ (x : Unit {0} × Database). find id x.1.reservations ≡ find id db.reservations)
            (ok-injective same) refl
      | inl (held, c3) ↦
          let (account, _, c4) = or_error-then (find r.account_id db.accounts) _ _ c3 in
          subst (λ (x : Unit {0} × Database). find id x.1.reservations ≡ find id db.reservations)
            (ok-injective c4)
            (rw (update_request-reservations r.request_id (fail_request (trim_space reason)) _)
              (put-other id j _ db.reservations other))
    ]

-- A round of the loop, by what its first release returned.
module _ (P : ℕ × Option BillingError × Database → Type 0) (rest : List ℕ) (released : ℕ)
    (db : Database) where
  after_release :
      (m : Committed (Unit {0}))
      → ((db' : Database) → m ≡ ok (tt, db') → P (expire_each rest (released + 1) db'))
      → P (expire_each rest released db)
      → ((e : BillingError) → P (released, some e, db))
      → P (elim m [
        | ok (_, db') ↦ expire_each rest (released + 1) db'
        | err BillingError.reservation_closed ↦ expire_each rest released db
        | err BillingError.reservation_not_found ↦ expire_each rest released db
        | err e ↦ (released, some e, db)
      ])
  after_release (ok (u, db')) done skip stop = done db' refl
  after_release (err BillingError.reservation_closed) done skip stop = skip
  after_release (err BillingError.reservation_not_found) done skip stop = skip
  after_release (err BillingError.invalid_request) done skip stop = stop _
  after_release (err BillingError.price_not_configured) done skip stop = stop _
  after_release (err BillingError.insufficient_balance) done skip stop = stop _
  after_release (err BillingError.account_not_found) done skip stop = stop _
  after_release (err BillingError.duplicate_request) done skip stop = stop _
  after_release (err BillingError.duplicate_transaction) done skip stop = stop _
  after_release (err BillingError.settlement_pending) done skip stop = stop _
  after_release (err BillingError.usage_unavailable) done skip stop = stop _
  after_release (err BillingError.token_spend_limit) done skip stop = stop _
  after_release (err BillingError.constraint_violation) done skip stop = stop _
  after_release (err (BillingError.metering e)) done skip stop = stop _

expire_each-Reach :
    (catalog : Catalog) (start : Database) (ids : List ℕ) (released : ℕ) (db : Database)
    → Reach start db
    → Reach start (expire_each ids released db).2
unfolding expire_each
expire_each-Reach catalog start [] released db run = run
expire_each-Reach catalog start (id ∷ rest) released db run =
    after_release (λ x. Reach start x.2) rest released db _
      (λ db' c.
        expire_each-Reach catalog start rest (released + 1) db'
          (Reach.next catalog run (Step.released id "reservation_expired" Target.to_expired c)))
      (expire_each-Reach catalog start rest released db run) (λ e. run)

expire_each-le :
    (ids : List ℕ) (released : ℕ) (db : Database)
    → (expire_each ids released db).0 ≤ released + length ids
unfolding expire_each
expire_each-le [] released db = omega arith
expire_each-le (id ∷ rest) released db =
    after_release (λ x. x.0 ≤ released + suc (length rest)) rest released db _
      (λ db' c. omega (arith, expire_each-le rest (released + 1) db'))
      (omega (arith, expire_each-le rest released db)) (λ e. omega arith)

length-due : (limit now : ℕ) (t : Table Reservation) → length (due limit now t) ≤ limit
unfolding due
length-due zero now t = omega arith
length-due (suc limit) now [] = omega arith
length-due (suc limit) now ((id, r) ∷ t) =
    ground (arith, length-due limit now t, length-due (suc limit) now t)

-- A round of expiry closes at most a hundred reservations, each by a transaction of its own: its
-- final state is one that commits of the service reach, whether or not an error ended the round.
pub expire_reservations-Reach :
    (catalog : Catalog) (now : ℕ) (db : Database)
    → ((expire_reservations now db).0 ≤ 100) × Reach db (expire_reservations now db).2
unfolding expire_reservations
expire_reservations-Reach catalog now db = (
  omega (
    arith,
    expire_each-le (due 100 now db.reservations) 0 db,
    length-due 100 now db.reservations,
  ),
  expire_each-Reach catalog db (due 100 now db.reservations) 0 db Reach.here,
)

-- The row under an identifier is due.
abbrev pub DueIn : ℕ → Table Reservation → ℕ → Type 0
DueIn now t id = (r : Reservation) × (find id t ≡ some r) × (is_due now r ≡ true)

DueIn-cons :
    (now k : ℕ) (s : Reservation) (t : Table Reservation) (ids : List ℕ)
    → find k t ≡ none
    → All (DueIn now t) ids
    → All (DueIn now ((k, s) ∷ t)) ids
DueIn-cons now k s t [] new h = tt
DueIn-cons now k s t (i ∷ ids) new ((r, e, d), h) = (
  (
    r,
    elim (Bool-cases (i == k)) [
      | inl same ↦ cc (rw (eqb→eq i k same) at e, new)
      | inr other ↦ rw other e
    ],
    d,
  ),
  DueIn-cons now k s t ids new h,
)

pub due-DueIn :
    (limit now : ℕ) (t : Table Reservation) → UniqueKeys t → All (DueIn now t) (due limit now t)
unfolding due
due-DueIn zero now t u = tt
due-DueIn (suc limit) now [] u = tt
due-DueIn (suc limit) now ((k, r) ∷ t) u = elim (Bool-cases (is_due now r)) [
  | inl d ↦ rw d ((r, ground arith, d), DueIn-cons now k r t _ u.0 (due-DueIn limit now t u.1))
  | inr live ↦ rw live (DueIn-cons now k r t _ u.0 (due-DueIn (suc limit) now t u.1))
]

pub expire_each-other :
    (id : ℕ) (ids : List ℕ) (released : ℕ) (db : Database)
    → All (λ (j : ℕ). j ≢ id) ids
    → find id (expire_each ids released db).2.reservations ≡ find id db.reservations
unfolding expire_each
expire_each-other id [] released db h = refl
expire_each-other id (j ∷ rest) released db h =
    after_release (λ x. find id x.2.reservations ≡ find id db.reservations) rest released db _
      (λ db' c.
        rw (expire_each-other id rest (released + 1) db' h.1)
          (release_reservation-other id j "reservation_expired" Target.to_expired db h.0 c))
      (expire_each-other id rest released db h.1) (λ e. refl)

not_due-other :
    (now id : ℕ) (r : Reservation) (t : Table Reservation) (ids : List ℕ)
    → find id t ≡ some r
    → is_due now r ≡ false
    → All (DueIn now t) ids
    → All (λ (j : ℕ). j ≢ id) ids
not_due-other now id r t [] e live h = tt
not_due-other now id r t (j ∷ ids) e live ((s, f, d), h) =
    (λ same. cc (rw same at f, e, live, d), not_due-other now id r t ids e live h)

-- A round of expiry leaves a reservation that is not held, or whose time has not come, as it is,
-- where no reservation is in two rows.
pub expire_reservations-keeps_live :
    (now id : ℕ) (r : Reservation) (db : Database)
    → UniqueKeys db.reservations
    → find id db.reservations ≡ some r
    → is_due now r ≡ false
    → find id (expire_reservations now db).2.reservations ≡ some r
unfolding expire_reservations
expire_reservations-keeps_live now id r db u e live =
    let ids = due 100 now db.reservations in
    rw
      (expire_each-other id ids 0 db
        (not_due-other now id r db.reservations ids e live (due-DueIn 100 now db.reservations u)))
      e
