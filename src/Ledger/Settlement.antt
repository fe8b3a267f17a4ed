-- ===== src/Ledger/Settlement.antt =====
-- What a successful `Settle` of internal/billing/service.go has worked out.
use model_bridge.Base.{ℕ, ◌≡◌, ◌⊎◌, some, true, if◌then◌else◌, inl, inr}
use model_bridge.Base.Tables.{find}
use model_bridge.Base.Results.{ok, err, guard-then, or_error-then, >>=-eq-ok}
use model_bridge.Metering.Defs.{Quantities, as_usage}
use model_bridge.Metering.Usage.{normalize_metered_usage}
use model_bridge.Ledger.State.{
  BillingError, Reservation, ReservationStatus, ModelRequest, ApiToken, Database, Committed,
  is_open,
}
use model_bridge.Ledger.Quote.{metered}
use model_bridge.Ledger.Reported.{Usage, valid_usage_source, normalize_usage, usage_metrics_for}
use model_bridge.Ledger.Settle.{
  settlement_pricing_tier, settlement_price, settlement_upstream_cost, customer_charge,
  write_settlement, settle_open, has_any, or_invalid, settle, reservation_of,
  settle_by_model_request_id,
}
use model_bridge.Ledger.Statuses.{by_status-eq-ok}

-- The settlement of an open reservation, up to its writes.
pub record Settlement (id : ℕ) (r : Reservation) (usage : Usage) (metrics : Quantities)
    (db : Database) (u : Unit {0}) (db' : Database) : Type 0 where
  pub request : ModelRequest
  pub token : ApiToken
  pub actual : ℕ
  pub cost : ℕ
  pub request_row : find r.request_id db.requests ≡ some request
  pub token_row : find request.token_id db.tokens ≡ some token
  pub charge :
      customer_charge request metrics r.estimated_metrics
        (settlement_pricing_tier request.pricing_tier usage.pricing_tier)
      ≡ ok actual
  pub written : write_settlement db id r request token actual cost metrics ≡ ok (u, db')

pub settle_open-Settlement :
    (id : ℕ) (r : Reservation) (usage : Usage) (metrics : Quantities) (db : Database) {u : Unit {0}}
    {db' : Database}
    → settle_open db id r usage metrics ≡ ok (u, db')
    → Settlement id r usage metrics db u db'
unfolding settle_open
settle_open-Settlement id r usage metrics db c =
    let (q, eq, c1) = or_error-then (find r.request_id db.requests) _ _ c in
    let (token, et, c2) = or_error-then (find q.token_id db.tokens) _ _ c1 in
    let tier = settlement_pricing_tier q.pricing_tier usage.pricing_tier in
    let (actual, ea, c3) = >>=-eq-ok (customer_charge q metrics r.estimated_metrics tier) _ c2 in
    let (price, _, c4) = >>=-eq-ok (metered (settlement_price q)) _ c3 in
    let (cost, _, c5) =
      >>=-eq-ok
        (settlement_upstream_cost q price
          (as_usage (if has_any metrics then metrics else r.estimated_upstream_metrics)) tier)
        _ c4 in
    record {
      request = q;
      token = token;
      actual = actual;
      cost = cost;
      request_row = eq;
      token_row = et;
      charge = ea;
      written = c5;
    }

-- A settlement of an open reservation.
pub record Settled (id : ℕ) (usage : Usage) (db : Database) (u : Unit {0}) (db' : Database)
    : Type 0 where
  pub reservation : Reservation
  pub metrics : Quantities
  pub reservation_row : find id db.reservations ≡ some reservation
  pub live : is_open reservation.status ≡ true
  pub metrics_reported :
      or_invalid (normalize_metered_usage (usage_metrics_for (normalize_usage usage))) ≡ ok metrics
  pub settlement : Settlement id reservation (normalize_usage usage) metrics db u db'

-- A settlement of a reservation that is settled already.
pub record Repeated (id : ℕ) (db : Database) (u : Unit {0}) (db' : Database) : Type 0 where
  pub reservation : Reservation
  pub reservation_row : find id db.reservations ≡ some reservation
  pub is_settled : reservation.status ≡ ReservationStatus.settled
  pub unchanged : ◌≡◌ {A = Committed (Unit {0})} (ok (tt, db)) (ok (u, db'))

-- A commit of `Settle` settles an open reservation, or finds it settled and does nothing.
pub settle-Settled :
    (id : ℕ) (usage : Usage) (db : Database) {u : Unit {0}} {db' : Database}
    → settle id usage db ≡ ok (u, db')
    → Settled id usage db u db' ⊎ Repeated id db u db'
unfolding settle
settle-Settled id usage db c =
    let (_, c1) = guard-then (valid_usage_source usage.source) _ _ c in
    let (metrics, reported, c2) =
      >>=-eq-ok (or_invalid (normalize_metered_usage (usage_metrics_for (normalize_usage usage)))) _
        c1 in
    let (r, e, c3) = or_error-then (find id db.reservations) _ _ c2 in
    elim (by_status-eq-ok r.status _ _ c3) [
      | inl (live, c4) ↦ inl (record {
        reservation = r;
        metrics = metrics;
        metrics_reported = reported;
        reservation_row = e;
        live = live;
        settlement = settle_open-Settlement id r (normalize_usage usage) metrics db c4;
      })
      | inr (closed, same) ↦
          inr
            (record { reservation = r; reservation_row = e; is_settled = closed; unchanged = same })
    ]

by_operator :
    (id : ℕ) (s : ReservationStatus) (usage : Usage) (db : Database) {u : Unit {0}} {db' : Database}
    → (elim s [
      | ReservationStatus.settled ↦ ok (tt, db)
      | ReservationStatus.pending ↦ settle id usage db
      | _ ↦ err BillingError.settlement_pending
    ])
      ≡ ok (u, db')
    → (settle id usage db ≡ ok (u, db'))
      ⊎ (◌≡◌ {A = Committed (Unit {0})} (ok (tt, db)) (ok (u, db')))
by_operator id ReservationStatus.settled usage db c = inr c
by_operator id ReservationStatus.pending usage db c = inl c
by_operator id ReservationStatus.held usage db c = cc
by_operator id ReservationStatus.released usage db c = cc
by_operator id ReservationStatus.expired usage db c = cc

-- A commit of `SettleByModelRequestID` is one of `Settle`, or does nothing.
pub settle_by_model_request_id-settles :
    (request : ℕ) (usage : Usage) (db : Database) {u : Unit {0}} {db' : Database}
    → settle_by_model_request_id request usage db ≡ ok (u, db')
    → ((id : ℕ) × (named : Usage) × (settle id named db ≡ ok (u, db')))
      ⊎ (◌≡◌ {A = Committed (Unit {0})} (ok (tt, db)) (ok (u, db')))
unfolding settle_by_model_request_id
settle_by_model_request_id-settles request usage db c =
    let (found, _, c1) = or_error-then (reservation_of request db.reservations) _ _ c in
    elim (by_operator found.0 found.1.status _ db c1) [
      | inl s ↦ inl (found.0, _, s)
      | inr same ↦ inr same
    ]
