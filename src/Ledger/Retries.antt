-- ===== src/Ledger/Retries.antt =====
-- What a repeated or a late call of internal/billing/service.go finds: a request is reserved once
-- and a reservation is closed once.
use Prim.Native.String.{String, len}
use model_bridge.Base.{
  ℕ, ◌≡◌, ◌⊎◌, refl, ap, subst, some, true, ◌&&◌, not, leb, arith, Option, Option-cases, inl, inr,
}
use model_bridge.Base.Texts.{str_eq, eq_iff, trim_space}
use model_bridge.Base.Tables.{Table, find, put, find-put}
use model_bridge.Base.Results.{ok, err, guard-then, or_error-then, ok-injective, >>=-eq-ok}
use model_bridge.Metering.Defs.{Quantities}
use model_bridge.Metering.Usage.{normalize_metered_usage}
use model_bridge.Ledger.State.{
  BillingError, Reservation, ReservationStatus, ModelRequest, ApiToken, Database, is_open,
}
use model_bridge.Ledger.Quote.{Catalog, Request}
use model_bridge.Ledger.Reserve.{Fresh, has_key, request_row, reserve}
use model_bridge.Ledger.Posting.{post_charge}
use model_bridge.Ledger.Reported.{Usage, valid_usage_source, normalize_usage, usage_metrics_for}
use model_bridge.Ledger.Settle.{or_invalid, settle, settled_row, write_settlement, by_status}
use model_bridge.Ledger.Release.{
  Target, release_reservation, on_held, update_request, mark_settlement_pending, pending_row,
  pend_request,
}
use model_bridge.Ledger.Admission.{reserve-Admitted}
use model_bridge.Ledger.Limits.{place_hold-Placed}
use model_bridge.Ledger.Known.{KeyAt, KeyAt-has_key}
use model_bridge.Ledger.Runs.{Reach, Reach-KeysKept}
use model_bridge.Ledger.Settlement.{settle-Settled}
use model_bridge.Ledger.Statuses.{by_status-eq-ok}

pub str_eq_refl : (s : String) → str_eq s s ≡ true
str_eq_refl s = (eq_iff s s).1 refl

-- After a reservation has committed, and after any run that follows of commits of the operations
-- that write accounts, reservations or the ledger, a second reservation of the same request, under any identifiers, at any time and with any tables of models and prices,
-- returns `duplicate_request`.
pub reserve-once :
    (catalog other : Catalog) (fresh again : Fresh) (r : Request) (db : Database) {id : ℕ}
    {db' later : Database}
    → reserve catalog fresh r db ≡ ok (id, db')
    → Reach db' later
    → reserve other again r later ≡ err BillingError.duplicate_request
unfolding reserve request_row
reserve-once catalog other fresh again r db {id} {db'} {later} c run =
    let a = reserve-Admitted catalog fresh r db c in
    let p = place_hold-Placed a.hold fresh db a.placed in
    let new = fresh.model_request_id in
    let written : KeyAt new r.idempotency_key db'.requests = rw p.committed (record {
      row = request_row a.hold;
      row_found = rw (find-put new new (request_row a.hold) db.requests) (ground arith);
      key_is = a.key;
    }) in
    let known : has_key r.idempotency_key later.requests ≡ true =
      KeyAt-has_key new r.idempotency_key later.requests
        (Reach-KeysKept run new r.idempotency_key written) in
    rw (a.multiplier, a.discount, a.mode, a.valid, a.token, a.project_id, a.tenant, known) refl

put-found : (id : ℕ) (r : Reservation) (t : Table Reservation) → find id (put id r t) ≡ some r
put-found id r t = ground (arith, find-put id id r t)

pub update_request-reservations :
    (id : ℕ) (f : ModelRequest → ModelRequest) (db : Database)
    → (update_request id f db).reservations ≡ db.reservations
update_request-reservations id f db = elim (Option-cases (find id db.requests)) [
  | inl e ↦ rw (e, update_request) refl
  | inr (q, e) ↦ rw (e, update_request) refl
]

-- The row of a reservation in a status.
pub record Found (id : ℕ) (status : ReservationStatus) (db : Database) : Type 0 where
  pub row : Reservation
  pub row_found : find id db.reservations ≡ some row
  pub status_is : row.status ≡ status

write_settlement-row :
    (id : ℕ) (r : Reservation) (q : ModelRequest) (token : ApiToken) (actual cost : ℕ)
    (metrics : Quantities) (db : Database) {u : Unit {0}} {db' : Database}
    → write_settlement db id r q token actual cost metrics ≡ ok (u, db')
    → find id db'.reservations ≡ some (settled_row actual r)
unfolding write_settlement
write_settlement-row id r q token actual cost metrics db c =
    let (account, _, c1) = or_error-then (find r.account_id db.accounts) _ _ c in
    let (posted, p, c2) =
      >>=-eq-ok (post_charge r.request_id r.account_id r.currency actual _) _ c1 in
    subst (λ (x : Unit {0} × Database). find id x.1.reservations ≡ some (settled_row actual r))
      (ok-injective c2) (put-found id (settled_row actual r) posted.reservations)

pub settle-Found :
    (id : ℕ) (usage : Usage) (db : Database) {u : Unit {0}} {db' : Database}
    → settle id usage db ≡ ok (u, db')
    → Found id ReservationStatus.settled db'
unfolding settled_row
settle-Found id usage db c = elim (settle-Settled id usage db c) [
  | inl s ↦
      let w = s.settlement in
      record {
        row = settled_row w.actual s.reservation;
        row_found =
            write_settlement-row id s.reservation w.request w.token w.actual w.cost s.metrics db
              w.written;
        status_is = refl;
      }
  | inr same ↦
      subst (λ (x : Unit {0} × Database). Found id ReservationStatus.settled x.1)
        (ok-injective same.unchanged)
        (record {
          row = same.reservation;
          row_found = same.reservation_row;
          status_is = same.is_settled;
        })
]

-- A settlement that has committed can be repeated: the second call commits and changes nothing.
pub settle-retry :
    (id : ℕ) (usage : Usage) (db : Database) {u : Unit {0}} {db' : Database}
    → settle id usage db ≡ ok (u, db')
    → settle id usage db' ≡ ok (tt, db')
unfolding settle by_status
settle-retry id usage db c =
    let found = settle-Found id usage db c in
    let (valid, c1) = guard-then (valid_usage_source usage.source) _ _ c in
    let (metrics, em, _) =
      >>=-eq-ok (or_invalid (normalize_metered_usage (usage_metrics_for (normalize_usage usage)))) _
        c1 in
    rw (valid, em, found.row_found, found.status_is) refl

-- After a settlement has committed, giving its reservation back, with a reason of at most 1024
-- characters, commits and changes nothing: the charge stands.
pub settle-then-release :
    (id : ℕ) (usage : Usage) (reason : String) (target : Target) (db : Database)
    → leb (len (trim_space reason)) 1024 ≡ true
    → {u : Unit {0}} {db' : Database} → settle id usage db ≡ ok (u, db')
    → release_reservation id reason target db' ≡ ok (tt, db')
unfolding release_reservation on_held
settle-then-release id usage reason target db short c =
    let found = settle-Found id usage db c in rw (short, found.row_found, found.status_is) refl

pub mark-Found :
    (id : ℕ) (why : String) (usage : Option Quantities) (db : Database) {u : Unit {0}}
    {db' : Database}
    → mark_settlement_pending id why usage db ≡ ok (u, db')
    → Found id ReservationStatus.settled db' ⊎ Found id ReservationStatus.pending db'
unfolding mark_settlement_pending pending_row
mark-Found id why usage db {u} {db'} c =
    let text = trim_space why in
    let (_, c1) = guard-then (not (str_eq text "") && leb (len text) 1024) _ _ c in
    let (r, e, c2) = or_error-then (find id db.reservations) _ _ c1 in
    elim (by_status-eq-ok r.status _ _ c2) [
      | inr (closed, same) ↦ inl (
          subst (λ (x : Unit {0} × Database). Found id ReservationStatus.settled x.1)
            (ok-injective same) (record { row = r; row_found = e; status_is = closed }))
      | inl (live, c3) ↦ inr (
          subst (λ (x : Unit {0} × Database). Found id ReservationStatus.pending x.1)
            (ok-injective c3)
            (record {
              row = pending_row r;
              row_found =
                  rw (update_request-reservations r.request_id (pend_request text usage) _)
                    (put-found id (pending_row r) db.reservations);
              status_is = refl;
            }))
    ]

-- After a held or pending reservation has been marked as pending its settlement, it is not given
-- back and does not expire: a release with a reason of at most 1024 bytes returns
-- `reservation_closed`.
pub mark-then-release :
    (id : ℕ) (why reason : String) (usage : Option Quantities) (target : Target) (r : Reservation)
    (db : Database)
    → find id db.reservations ≡ some r
    → is_open r.status ≡ true
    → leb (len (trim_space reason)) 1024 ≡ true
    → {u : Unit {0}} {db' : Database} → mark_settlement_pending id why usage db ≡ ok (u, db')
    → release_reservation id reason target db' ≡ err BillingError.reservation_closed
unfolding release_reservation mark_settlement_pending on_held pending_row
mark-then-release id why reason usage target r db e live short {u} {db'} c =
    let text = trim_space why in
    let (_, c1) = guard-then (not (str_eq text "") && leb (len text) 1024) _ _ c in
    let (r', e', c2) = or_error-then (find id db.reservations) _ _ c1 in
    elim (by_status-eq-ok r'.status _ _ c2) [
      | inl (_, c3) ↦
          let row : find id db'.reservations ≡ some (pending_row r') =
            subst (λ (x : Unit {0} × Database). find id x.1.reservations ≡ some (pending_row r'))
              (ok-injective c3)
              (rw (update_request-reservations r'.request_id (pend_request text usage) _)
                (put-found id (pending_row r') db.reservations)) in
          rw (short, row) refl
      | inr (closed, _) ↦ cc (live, ap is_open closed, rw e at e')
    ]
