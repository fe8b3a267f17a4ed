-- ===== src/Ledger/Settle.antt =====
-- `SQLService.Settle`, `SettleByModelRequestID` and `CanSettleWithoutUsage` of
-- internal/billing/service.go.
use Prim.Native.String.{String}
use model_bridge.Base.{
  ℕ, ◌+◌, ◌-◌, ◌*◌, [], ◌∷◌, Option, none, some, Bool, true, false, ◌||◌, ◌==◌, if◌then◌else◌,
}
use model_bridge.Base.Int.{pos, ◌+ℤ◌, ◌-ℤ◌}
use model_bridge.Base.Tables.{Table, find, put}
use model_bridge.Base.Texts.{str_eq, trim_space}
use model_bridge.Base.Results.{ok, err, ◌>>=◌, ◌>>◌, guard, or_error}
use model_bridge.Metering.Defs.{Decimal, MeteredUsage, Quantities, Checked, as_usage}
use model_bridge.Metering.Usage.{normalize_metered_usage}
use model_bridge.Metering.Select.{normalize_pricing_tier, add_implicit_request_metric}
use model_bridge.Metering.Charge.{
  calculate_metered_charge_for_tier, calculate_upstream_cost, multiplier_charge,
}
use model_bridge.Metering.Modes.{
  Price, is_blank, price_components_for, apply_metering_price,
  customer_metering_usage_with_estimate, has_positive_quantity, price_allows_zero_usage,
}
use model_bridge.Ledger.State.{
  BillingError, Reservation, ReservationStatus, ModelRequest, RequestStatus, ApiToken, Database,
  Committed,
}
use model_bridge.Ledger.Quote.{Billed, metered, millionth}
use model_bridge.Ledger.Posting.{post_charge}
use model_bridge.Ledger.Reported.{Usage, valid_usage_source, normalize_usage, usage_metrics_for}

-- `settlementPricingTier`: the tier of the request's snapshot wins.
unfoldable pub settlement_pricing_tier : String → String → String
settlement_pricing_tier snapshot reported =
    let tier = normalize_pricing_tier snapshot in
    if str_eq tier "" then normalize_pricing_tier reported else tier

-- The price that settles: the group's price replaces the model's where the snapshot has one.
unfoldable pub settlement_price : ModelRequest → Checked Price
settlement_price q =
    if is_blank q.metering_price
    then ok q.price
    else apply_metering_price q.price q.metering_mode q.metering_price

-- The customer charge of a settlement, multiplied for the group.
unfoldable pub customer_charge : ModelRequest → Quantities → Quantities → String → Billed ℕ
customer_charge q metrics estimate tier = do
  price ← metered (settlement_price q)
  customer ←
      metered (
        customer_metering_usage_with_estimate (as_usage metrics) (as_usage estimate)
          q.metering_mode)
  guard (has_positive_quantity customer || price_allows_zero_usage price tier q.metering_mode)
      BillingError.usage_unavailable
  let components = price_components_for price
  charge ← metered (
      calculate_metered_charge_for_tier components
        (add_implicit_request_metric components (as_usage customer) tier) price.minimum_charge tier)
  factored ← metered (multiplier_charge charge (Decimal.amount (q.group_multiplier * millionth)))
  ok factored.amount

abbrev settlement_cost_at : ModelRequest → Price → MeteredUsage → String → Checked ℕ
settlement_cost_at q price metrics tier =
    calculate_upstream_cost (price_components_for price) metrics price.minimum_charge
      q.upstream_cost_discount tier

-- The upstream cost of a settlement; an official price that lacks a meter gives way.
unfoldable pub settlement_upstream_cost : ModelRequest → Price → MeteredUsage → String → Billed ℕ
settlement_upstream_cost q price metrics tier =
    elim (settlement_cost_at q q.upstream_price metrics tier) [
      | ok cost ↦ ok cost
      | err e ↦
          if q.upstream_price.is_official
          then metered (settlement_cost_at q price metrics tier)
          else metered (err e)
    ]

-- The write to the reservation at its settlement.
unfoldable pub settled_row : ℕ → Reservation → Reservation
settled_row actual r = record r {
  settled_amount = actual;
  released_amount = r.reserved_amount - actual;
  status = ReservationStatus.settled;
}

-- The writes of `Settle`: the token's spending, the balance, the ledger, the two rows.
unfoldable pub write_settlement :
    Database → ℕ → Reservation → ModelRequest → ApiToken → ℕ → ℕ → Quantities → Committed (Unit {0})
write_settlement db id r q token actual cost metrics = do
  account ← or_error (find r.account_id db.accounts) BillingError.account_not_found
  posted ← post_charge r.request_id r.account_id r.currency actual (record db {
    tokens = put q.token_id (record token { spent_amount = token.spent_amount + actual }) db.tokens;
    accounts =
        put r.account_id
          (record account { balance = account.balance +ℤ pos r.reserved_amount -ℤ pos actual })
          db.accounts;
  })
  ok (
    tt,
    record posted {
      reservations = put id (settled_row actual r) posted.reservations;
      requests =
          put r.request_id
            (record q {
              status = RequestStatus.settled;
              settled_amount = actual;
              upstream_cost = cost;
              usage_metrics = metrics;
            })
            posted.requests;
    },
  )

abbrev pub has_any : Quantities → Bool
has_any [] = false
has_any (m ∷ ms) = true

-- `Settle` on an open reservation.
unfoldable pub settle_open : Database → ℕ → Reservation → Usage → Quantities → Committed (Unit {0})
settle_open db id r usage metrics = do
  q ← or_error (find r.request_id db.requests) BillingError.reservation_not_found
  token ← or_error (find q.token_id db.tokens) BillingError.invalid_request
  let tier = settlement_pricing_tier q.pricing_tier usage.pricing_tier
  actual ← customer_charge q metrics r.estimated_metrics tier
  price ← metered (settlement_price q)
  cost ←
      settlement_upstream_cost q price
        (as_usage (if has_any metrics then metrics else r.estimated_upstream_metrics)) tier
  write_settlement db id r q token actual cost metrics

-- What `Settle` does by the status of the reservation that it has locked.
unfoldable pub by_status :
    {A : Type 0} → ReservationStatus → Committed A → Committed A → Committed A
by_status ReservationStatus.settled done work = done
by_status ReservationStatus.held done work = work
by_status ReservationStatus.pending done work = work
by_status ReservationStatus.released done work = err BillingError.reservation_closed
by_status ReservationStatus.expired done work = err BillingError.reservation_closed

-- Any error of the metering functions is an invalid request here.
abbrev pub or_invalid : {A : Type 0} → Checked A → Billed A
or_invalid (ok a) = ok a
or_invalid (err e) = err BillingError.invalid_request

-- `SQLService.Settle`
unfoldable pub settle : ℕ → Usage → Database → Committed (Unit {0})
settle id usage db = do
  guard (valid_usage_source usage.source) BillingError.invalid_request
  let named = normalize_usage usage
  metrics ← or_invalid (normalize_metered_usage (usage_metrics_for named))
  r ← or_error (find id db.reservations) BillingError.reservation_not_found
  by_status r.status (ok (tt, db)) (settle_open db id r named metrics)

-- The reservation of a model request (`request_id` is unique).
unfoldable pub reservation_of : ℕ → Table Reservation → Option (ℕ × Reservation)
reservation_of request [] = none
reservation_of request ((id, r) ∷ t) =
    let rest = reservation_of request t in if r.request_id == request then some (id, r) else rest

-- `SettleByModelRequestID`: an operator reconciles pending reservations only.
unfoldable pub settle_by_model_request_id : ℕ → Usage → Database → Committed (Unit {0})
settle_by_model_request_id request usage db = do
  found ← or_error (reservation_of request db.reservations) BillingError.reservation_not_found
  let named : Usage =
      if str_eq (trim_space usage.source) ""
      then record usage { source = "reconciliation" }
      else usage
  elim found.1.status [
    | ReservationStatus.settled ↦ ok (tt, db)
    | ReservationStatus.pending ↦ settle found.0 named db
    | _ ↦ err BillingError.settlement_pending
  ]

-- `CanSettleWithoutUsage`, on a reservation that is held or pending.
unfoldable pub estimate_settles : ModelRequest → Reservation → Billed Bool
estimate_settles q r = do
  customer ←
      metered
        (customer_metering_usage_with_estimate [] (as_usage r.estimated_metrics) q.metering_mode)
  ok (
      has_positive_quantity customer
      || price_allows_zero_usage q.price q.pricing_tier q.metering_mode)

unfoldable pub can_settle_without_usage : ℕ → Database → Billed Bool
can_settle_without_usage id db = do
  r ← or_error (find id db.reservations) BillingError.reservation_not_found
  q ← or_error (find r.request_id db.requests) BillingError.reservation_not_found
  elim r.status [
    | ReservationStatus.settled ↦ ok true
    | ReservationStatus.held ↦ estimate_settles q r
    | ReservationStatus.pending ↦ estimate_settles q r
    | _ ↦ err BillingError.reservation_closed
  ]
