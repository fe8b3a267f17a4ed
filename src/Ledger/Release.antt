-- ===== src/Ledger/Release.antt =====
-- The other ends of a reservation in internal/billing/service.go: `releaseReservation`, `Fail`,
-- `ExpireReservations`, `ExtendReservation` and `markSettlementPending`.
use Prim.Native.String.{String, len}
use model_bridge.Base.{
  ℕ, zero, suc, ◌+◌, ◌*◌, ◌/◌, List, [], ◌∷◌, Option, none, some, Bool, true, false, ◌&&◌, not, leb,
  ltb, if◌then◌else◌,
}
use model_bridge.Base.Int.{pos, ◌+ℤ◌}
use model_bridge.Base.Tables.{Table, find, put}
use model_bridge.Base.Texts.{str_eq, trim_space}
use model_bridge.Base.Results.{ok, err, ◌>>=◌, ◌>>◌, guard, or_error}
use model_bridge.Metering.Defs.{Quantities}
use model_bridge.Metering.Usage.{normalize_metered_usage}
use model_bridge.Ledger.State.{
  BillingError, Reservation, ReservationStatus, ModelRequest, RequestStatus, Database, Committed,
  is_open,
}
use model_bridge.Ledger.Reported.{Usage, valid_usage_source, normalize_usage, usage_metrics_for}
use model_bridge.Ledger.Settle.{or_invalid, by_status}

-- `targetStatus` of `releaseReservation`: the two values that it accepts.
pub data Target : Type 0 where
  to_released to_expired : Target

abbrev pub target_status : Target → ReservationStatus
target_status Target.to_released = ReservationStatus.released
target_status Target.to_expired = ReservationStatus.expired

-- An update of a request by its identifier; no row, no change.
abbrev pub update_request : ℕ → (ModelRequest → ModelRequest) → Database → Database
update_request id f db = elim (find id db.requests) [
  | none ↦ db
  | some q ↦ record db { requests = put id (f q) db.requests }
]

abbrev pub fail_request : String → ModelRequest → ModelRequest
fail_request reason q = record q { status = RequestStatus.failed; failure_reason = reason }

unfoldable pub released_row : Target → Reservation → Reservation
released_row target r = record r {
  released_amount = r.reserved_amount;
  status = target_status target;
}

-- `releaseReservation` on a held reservation: the whole amount goes back to the balance.
unfoldable pub release_held : Database → ℕ → Reservation → String → Target → Committed (Unit {0})
release_held db id r reason target = do
  account ← or_error (find r.account_id db.accounts) BillingError.account_not_found
  ok (
    tt,
    update_request r.request_id (fail_request reason) (record db {
      accounts =
          put r.account_id (record account { balance = account.balance +ℤ pos r.reserved_amount })
            db.accounts;
      reservations = put id (released_row target r) db.reservations;
    }),
  )

-- What `releaseReservation` does by the status that it has locked: a pending reservation is not
-- given back, and one that is closed already stays as it is.
unfoldable pub on_held : {A : Type 0} → ReservationStatus → Committed A → Committed A → Committed A
on_held ReservationStatus.held done work = work
on_held ReservationStatus.pending done work = err BillingError.reservation_closed
on_held ReservationStatus.settled done work = done
on_held ReservationStatus.released done work = done
on_held ReservationStatus.expired done work = done

-- `releaseReservation`
unfoldable pub release_reservation : ℕ → String → Target → Database → Committed (Unit {0})
release_reservation id reason target db = do
  guard (leb (len (trim_space reason)) 1024) BillingError.invalid_request
  r ← or_error (find id db.reservations) BillingError.reservation_not_found
  on_held r.status (ok (tt, db)) (release_held db id r (trim_space reason) target)

-- `Fail`
unfoldable pub fail : ℕ → String → Database → Committed (Unit {0})
fail id reason db = release_reservation id reason Target.to_released db

abbrev pub is_held : ReservationStatus → Bool
is_held ReservationStatus.held = true
is_held ReservationStatus.pending = false
is_held ReservationStatus.settled = false
is_held ReservationStatus.released = false
is_held ReservationStatus.expired = false

-- The query of `ExpireReservations`: held and past their time, up to `limit` rows. (The order by
-- time only decides which rows a full batch leaves for the next round.)
unfoldable pub due : ℕ → ℕ → Table Reservation → List ℕ
due zero now t = []
due (suc limit) now [] = []
due (suc limit) now ((id, r) ∷ t) =
    let skipped = due (suc limit) now t in
    let taken = due limit now t in
    if is_held r.status && leb r.expires_at now then id ∷ taken else skipped

-- The loop of `ExpireReservations`: reservations that another worker has closed are passed over,
-- any other error stops the round. Each release is a transaction of its own.
unfoldable pub expire_each : List ℕ → ℕ → Database → ℕ × Option BillingError × Database
expire_each [] released db = (released, none, db)
expire_each (id ∷ rest) released db =
    elim (release_reservation id "reservation_expired" Target.to_expired db) [
      | ok (_, db') ↦ expire_each rest (released + 1) db'
      | err BillingError.reservation_closed ↦ expire_each rest released db
      | err BillingError.reservation_not_found ↦ expire_each rest released db
      | err e ↦ (released, some e, db)
    ]

-- `ExpireReservations`
unfoldable pub expire_reservations : ℕ → Database → ℕ × Option BillingError × Database
expire_reservations now db = expire_each (due 100 now db.reservations) 0 db

abbrev later : ℕ → ℕ → ℕ
later a b = if ltb a b then b else a

-- One second, as a `time.Duration`.
abbrev pub second : ℕ
second = 1000000000

-- `ExtendReservation`, with the extension in nanoseconds; whole seconds count.
unfoldable pub extend_reservation : ℕ → ℕ → ℕ → Database → Committed (Unit {0})
extend_reservation id extension now db = do
  guard (ltb 0 extension && leb extension (86400 * second)) BillingError.invalid_request
  r ← or_error (find id db.reservations) BillingError.reservation_closed
  guard (is_open r.status) BillingError.reservation_closed
  ok (
    tt,
    record db {
      reservations =
          put id (record r { expires_at = later r.expires_at (now + extension / second) })
            db.reservations;
    },
  )

abbrev pub is_live : RequestStatus → Bool
is_live RequestStatus.started = true
is_live RequestStatus.settlement_pending = true
is_live RequestStatus.settled = false
is_live RequestStatus.failed = false

-- The update of the request: only one that is started or already pending is written.
abbrev pub pend_request : String → Option Quantities → ModelRequest → ModelRequest
pend_request reason usage q =
    if is_live q.status
    then elim usage [
      | none ↦ record q { status = RequestStatus.settlement_pending; failure_reason = reason }
      | some metrics ↦ record q {
        status = RequestStatus.settlement_pending;
        failure_reason = reason;
        usage_metrics = metrics;
      }
    ]
    else q

unfoldable pub pending_row : Reservation → Reservation
pending_row r = record r { status = ReservationStatus.pending }

-- `markSettlementPending`; `usage` is the reported usage where there is some.
unfoldable pub mark_settlement_pending :
    ℕ → String → Option Quantities → Database → Committed (Unit {0})
mark_settlement_pending id reason usage db = do
  let text = trim_space reason
  guard (not (str_eq text "") && leb (len text) 1024) BillingError.invalid_request
  r ← or_error (find id db.reservations) BillingError.reservation_not_found
  by_status r.status (ok (tt, db)) (
      ok (
        tt,
        update_request r.request_id (pend_request text usage)
            (record db { reservations = put id (pending_row r) db.reservations }),
      ))

abbrev pub reported : Quantities → Option Quantities
reported [] = none
reported (m ∷ ms) = some (m ∷ ms)

-- `MarkSettlementPendingWithUsage`
unfoldable pub mark_settlement_pending_with_usage :
    ℕ → String → Usage → Database → Committed (Unit {0})
mark_settlement_pending_with_usage id reason usage db = do
  let text = trim_space reason
  guard (not (str_eq text "") && leb (len text) 1024 && valid_usage_source usage.source)
      BillingError.invalid_request
  metrics ← or_invalid (normalize_metered_usage (usage_metrics_for (normalize_usage usage)))
  mark_settlement_pending id text (reported metrics) db
