-- ===== src/Ledger/Rebind.antt =====
-- `SQLService.RebindReservationChannel` of internal/billing/service.go: a reservation goes over to
-- the channel that is tried, and to its price where that channel offers another model of the name.
use Prim.Native.String.{String}
use model_bridge.Base.{ℕ, ◌*◌, some, ◌==◌, if◌then◌else◌}
use model_bridge.Base.Int.{pos, ◌+ℤ◌}
use model_bridge.Base.Tables.{find, put}
use model_bridge.Base.Results.{ok, err, ◌>>=◌, ◌>>◌, guard, or_error}
use model_bridge.Metering.Defs.{Decimal, Quantities, Checked, as_usage}
use model_bridge.Metering.Select.{add_implicit_request_metric}
use model_bridge.Metering.Charge.{
  calculate_metered_charge_for_tier, calculate_upstream_cost, prepare_reservation_metrics,
}
use model_bridge.Metering.Modes.{Price, price_components_for}
use model_bridge.Ledger.State.{BillingError, Reservation, ModelRequest, Database, Committed}
use model_bridge.Ledger.Quote.{
  Catalog, ChannelTarget, Quote, Billed, metered, resolve_price, resolve_upstream_price,
}
use model_bridge.Ledger.Reserve.{stored, covers, after_hold}
use model_bridge.Ledger.Settle.{settlement_price, has_any, by_status}
use model_bridge.Ledger.Release.{is_live, update_request}

-- The upstream estimates; where there are none, the customer's.
abbrev pub upstream_estimates : Reservation → Quantities
upstream_estimates r =
    if has_any r.estimated_upstream_metrics
    then r.estimated_upstream_metrics
    else r.estimated_metrics

-- The estimated upstream cost at one price.
abbrev pub rebound_cost_at : Price → Quantities → Decimal → String → Checked ℕ
rebound_cost_at price metrics discount tier =
    calculate_upstream_cost (price_components_for price) (as_usage metrics) price.minimum_charge
      discount tier

-- The same model: only the channel, its discount and the upstream cost are written.
unfoldable pub rebind_same_model :
    Catalog → ℕ → ChannelTarget → Reservation → ModelRequest → Database → Committed (Unit {0})
rebind_same_model catalog channel target r q db = do
  customer_price ← metered (settlement_price q)
  let upstream = resolve_upstream_price catalog target.model_id r.currency customer_price
  cost ←
      metered (
        rebound_cost_at upstream (upstream_estimates r) target.upstream_cost_discount
          q.pricing_tier)
  guard (is_live q.status) BillingError.reservation_closed
  ok (
    tt,
    record db {
      requests =
          put r.request_id
            (record q {
              channel_id = some channel;
              upstream_cost_discount = target.upstream_cost_discount;
              estimated_upstream_cost = cost;
              upstream_price = upstream;
            })
            db.requests;
    },
  )

-- The upstream estimate at the new model; an official price that lacks a meter gives way.
unfoldable pub rebound_upstream :
    Price → Price → Reservation → Decimal → String → Checked (ℕ × Quantities × Price)
rebound_upstream price upstream r discount tier = do
  let components = price_components_for upstream
  prepared ←
      prepare_reservation_metrics components
        (add_implicit_request_metric components (as_usage (upstream_estimates r)) tier) tier
  elim (rebound_cost_at upstream prepared discount tier) [
    | ok cost ↦ ok (cost, prepared, upstream)
    | err e ↦
        if upstream.is_official
        then (rebound_cost_at price prepared discount tier >>= λ cost. ok (cost, prepared, price))
        else err e
  ]

-- The quote at the new model, from the estimates of the reservation.
unfoldable pub rebind_quote : Catalog → ChannelTarget → Reservation → ModelRequest → Billed Quote
rebind_quote catalog target r q = do
  price ← resolve_price catalog q.token_id q.project_id q.tenant_id target.model_id r.currency
  customer_price ← metered (settlement_price (record q { price = price }))
  let components = price_components_for customer_price
  prepared ← metered (
      prepare_reservation_metrics components
        (add_implicit_request_metric components (as_usage r.estimated_metrics) q.pricing_tier)
        q.pricing_tier)
  charge ← metered (
      calculate_metered_charge_for_tier components (as_usage prepared) customer_price.minimum_charge
        q.pricing_tier)
  upstream ← metered (
      rebound_upstream price (resolve_upstream_price catalog target.model_id r.currency price) r
        target.upstream_cost_discount q.pricing_tier)
  ok (record {
    amount = charge.amount * q.group_multiplier;
    metrics = prepared;
    upstream_metrics = upstream.1;
    upstream_cost = upstream.0;
    price = price;
    upstream_price = upstream.2;
  })

unfoldable pub rebound_row : Quote → Reservation → Reservation
rebound_row quote r = record r {
  reserved_amount = stored quote.amount;
  estimated_metrics = quote.metrics;
  estimated_upstream_metrics = quote.upstream_metrics;
}

-- The update of the request: only one that is started or pending is written.
abbrev pub rebound_request : ℕ → ChannelTarget → Quote → ModelRequest → ModelRequest
rebound_request channel target quote q =
    if is_live q.status
    then record q {
      channel_id = some channel;
      model_id = target.model_id;
      estimated_amount = stored quote.amount;
      price = quote.price;
      upstream_cost_discount = target.upstream_cost_discount;
      estimated_upstream_cost = quote.upstream_cost;
      upstream_price = quote.upstream_price;
    }
    else q

-- The writes at another model: the old amount goes back to the balance and the new one leaves it.
unfoldable pub write_rebind :
    ℕ → ℕ → ChannelTarget → Reservation → Quote → Database → Committed (Unit {0})
write_rebind id channel target r quote db = do
  account ← or_error (find r.account_id db.accounts) BillingError.insufficient_balance
  guard (covers (account.balance +ℤ pos r.reserved_amount) quote.amount)
      BillingError.insufficient_balance
  ok (
    tt,
    update_request r.request_id (rebound_request channel target quote) (record db {
      accounts =
          put r.account_id
            (record account {
              balance = after_hold (account.balance +ℤ pos r.reserved_amount) quote.amount;
            })
            db.accounts;
      reservations = put id (rebound_row quote r) db.reservations;
    }),
  )

unfoldable pub rebind_other_model :
    Catalog → ℕ → ℕ → ChannelTarget → Reservation → ModelRequest → Database → Committed (Unit {0})
rebind_other_model catalog id channel target r q db = do
  quote ← rebind_quote catalog target r q
  write_rebind id channel target r quote db

unfoldable pub rebind_open :
    Catalog → ℕ → ℕ → ChannelTarget → Reservation → ModelRequest → Database → Committed (Unit {0})
rebind_open catalog id channel target r q db =
    if target.model_id == q.model_id
    then rebind_same_model catalog channel target r q db
    else rebind_other_model catalog id channel target r q db

-- `RebindReservationChannel`, of an identifier of a reservation and one of a channel.
unfoldable pub rebind_reservation_channel : Catalog → ℕ → ℕ → Database → Committed (Unit {0})
rebind_reservation_channel catalog id channel db = do
  r ← or_error (find id db.reservations) BillingError.reservation_not_found
  q ← or_error (find r.request_id db.requests) BillingError.reservation_not_found
  target ← or_error (catalog.channel_target channel q.model_id) BillingError.reservation_not_found
  by_status r.status (ok (tt, db)) (rebind_open catalog id channel target r q db)
