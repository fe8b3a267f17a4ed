-- ===== src/Ledger/Reserve.antt =====
-- `SQLService.Reserve` of internal/billing/service.go: the spend limit of the token, the hold on
-- the prepaid balance, and the rows that a reservation writes.
use Prim.Native.String.{String}
use model_bridge.Base.{
  ℕ, ◌+◌, ◌-◌, ◌*◌, ◌/◌, ◌^◌, [], ◌∷◌, Option, none, some, Bool, false, ◌&&◌, ◌||◌, not, leb, ◌==◌,
  if◌then◌else◌, is_some,
}
use model_bridge.Base.Int.{ℤ, pos, negsuc}
use model_bridge.Base.Tables.{Table, find, put, total}
use model_bridge.Base.Texts.{str_eq}
use model_bridge.Base.Results.{ok, ◌>>=◌, ◌>>◌, guard, or_error}
use model_bridge.Metering.Defs.{Decimal, Quantities}
use model_bridge.Metering.Charge.{normalize_upstream_cost_discount}
use model_bridge.Metering.Modes.{MeteringMode, Price, normalize_metering_mode}
use model_bridge.Ledger.State.{
  BillingError, Account, Reservation, ReservationStatus, ModelRequest, RequestStatus, ApiToken,
  Database, Committed, is_open,
}
use model_bridge.Ledger.Quote.{
  Request, Catalog, Billed, metered, Quote, normalize_group_multiplier, valid_request,
  resolve_price, resolve_upstream_price, customer_estimate, upstream_estimate,
}

-- One stored unit, 10^-30, in the units of a quote, 10^-36.
abbrev pub micro : ℕ
micro = 10 ^ 6

-- A numeric value as a `numeric(40, 30)` column stores it: half a unit is rounded up.
unfoldable pub stored : ℕ → ℕ
stored exact = (exact + micro / 2) / micro

-- `balance >= $2`
unfoldable pub covers : ℤ → ℕ → Bool
covers (pos b) exact = leb exact (b * micro)
covers (negsuc n) exact = false

-- `balance - $2` as the column stores it; used where the balance covers the amount.
unfoldable pub after_hold : ℤ → ℕ → ℤ
after_hold (pos b) exact = pos (stored (b * micro - exact))
after_hold (negsuc n) exact = negsuc n

abbrev pub has_key : String → Table ModelRequest → Bool
has_key key [] = false
has_key key ((id, r) ∷ t) = str_eq r.idempotency_key key || has_key key t

abbrev pub has_request_id : String → Table ModelRequest → Bool
has_request_id text [] = false
has_request_id text ((id, r) ∷ t) = str_eq r.request_id text || has_request_id text t

-- The rows that `checkTokenSpendLimit` sums: open reservations whose request is of the token.
abbrev pub pending_for : Table ModelRequest → ℕ → Reservation → ℕ
pending_for requests token r = elim (find r.request_id requests) [
  | none ↦ 0
  | some q ↦ if is_open r.status && q.token_id == token then r.reserved_amount else 0
]

unfoldable pub pending_amount : Database → ℕ → ℕ
pending_amount db token = total (pending_for db.requests token) db.reservations

-- `checkTokenSpendLimit`; a limit of zero means none.
unfoldable pub within_spend_limit : Database → ℕ → ApiToken → ℕ → Bool
within_spend_limit db token row exact =
    row.spend_limit == 0
    || leb ((row.spent_amount + pending_amount db token) * micro + exact) (row.spend_limit * micro)

-- The active prepaid account of a tenant in a currency.
unfoldable pub prepaid_account : Table Account → ℕ → String → Option (ℕ × Account)
prepaid_account [] tenant currency = none
prepaid_account ((id, a) ∷ t) tenant currency =
    let rest = prepaid_account t tenant currency in
    if a.tenant_id == tenant && a.active && str_eq a.currency currency then some (id, a) else rest

-- The identifiers that `ids.New` gives the two rows, and the time.
pub record Fresh : Type 0 where
  pub model_request_id : ℕ
  pub reservation_id : ℕ
  pub now : ℕ

-- `defaultReservationTTL`, in seconds.
abbrev pub default_reservation_ttl : ℕ
default_reservation_ttl = 600

-- What the ledger half knows of a priced request.
pub record Hold : Type 0 where
  pub request_id : String
  pub project_id : ℕ
  pub model_id : ℕ
  pub channel_id : Option ℕ
  pub token_id : ℕ
  pub tenant_id : ℕ
  pub currency : String
  pub idempotency_key : String
  pub group_multiplier : ℕ
  pub metering_mode : MeteringMode
  pub metering_price : Decimal
  pub upstream_cost_discount : Decimal
  pub pricing_tier : String
  pub quote : Quote

unfoldable pub request_row : Hold → ModelRequest
request_row h = record {
  request_id = h.request_id;
  tenant_id = h.tenant_id;
  project_id = h.project_id;
  model_id = h.model_id;
  channel_id = h.channel_id;
  idempotency_key = h.idempotency_key;
  token_id = h.token_id;
  status = RequestStatus.started;
  estimated_amount = stored h.quote.amount;
  settled_amount = 0;
  estimated_upstream_cost = h.quote.upstream_cost;
  upstream_cost = 0;
  group_multiplier = h.group_multiplier;
  metering_mode = h.metering_mode;
  metering_price = h.metering_price;
  upstream_cost_discount = h.upstream_cost_discount;
  pricing_tier = h.pricing_tier;
  price = h.quote.price;
  upstream_price = h.quote.upstream_price;
  failure_reason = "";
  usage_metrics = [];
}

unfoldable pub reservation_row : Hold → Fresh → ℕ → Reservation
reservation_row h fresh account = record {
  request_id = fresh.model_request_id;
  account_id = account;
  reserved_amount = stored h.quote.amount;
  settled_amount = 0;
  released_amount = 0;
  currency = h.currency;
  status = ReservationStatus.held;
  expires_at = fresh.now + default_reservation_ttl;
  estimated_metrics = h.quote.metrics;
  estimated_upstream_metrics = h.quote.upstream_metrics;
}

-- The writes of `Reserve`: the balance, then the request, then the reservation. A unique violation
-- of the request, in its identifier or its text `request_id`, is a duplicate.
unfoldable pub write_hold : Database → Hold → Fresh → ℕ → Account → Committed ℕ
write_hold db h fresh id account = do
  guard (covers account.balance h.quote.amount) BillingError.insufficient_balance
  guard (not (is_some (find fresh.model_request_id db.requests))) BillingError.duplicate_request
  guard (not (has_request_id h.request_id db.requests)) BillingError.duplicate_request
  guard (not (is_some (find fresh.reservation_id db.reservations)))
      BillingError.constraint_violation
  ok (
    fresh.reservation_id,
    record db {
      accounts =
          put id (record account { balance = after_hold account.balance h.quote.amount })
            db.accounts;
      requests = put fresh.model_request_id (request_row h) db.requests;
      reservations = put fresh.reservation_id (reservation_row h fresh id) db.reservations;
    },
  )

-- `Reserve` from the query of the account on.
unfoldable pub place_hold : Database → Hold → Fresh → Committed ℕ
place_hold db h fresh = do
  found ←
      or_error (prepaid_account db.accounts h.tenant_id h.currency) BillingError.account_not_found
  write_hold db h fresh found.0 found.1

-- What the customer is quoted: the model, its price, the amount and the estimates behind it.
pub record CustomerQuote : Type 0 where
  pub model : ℕ
  pub price : Price
  pub amount : ℕ
  pub metrics : Quantities

-- `Reserve` from the query of the model to the reserved amount.
unfoldable pub customer_quote :
    Catalog → Request → ℕ → ℕ → ℕ → String → MeteringMode → ℕ → Billed CustomerQuote
customer_quote catalog r token project tenant currency mode multiplier = do
  model ← or_error (catalog.model_id r.provider r.model) BillingError.price_not_configured
  price ← resolve_price catalog token project tenant model currency
  estimate ← metered (customer_estimate r price mode multiplier)
  ok (record { model = model; price = price; amount = estimate.0; metrics = estimate.1 })

-- `Reserve` from the reserved amount to the account: the spend limit, then the upstream estimate.
unfoldable pub checked_quote :
    Catalog → Request → Database → ℕ → ApiToken → String → Decimal → CustomerQuote → Billed Quote
checked_quote catalog r db token row currency discount q = do
  guard (within_spend_limit db token row q.amount) BillingError.token_spend_limit
  upstream ← metered (
      upstream_estimate r q.price (resolve_upstream_price catalog q.model currency q.price)
        q.metrics discount)
  ok (record {
    amount = q.amount;
    metrics = q.metrics;
    upstream_metrics = upstream.1;
    upstream_cost = upstream.0;
    price = q.price;
    upstream_price = upstream.2;
  })

-- `SQLService.Reserve`: the identifier of the new reservation.
unfoldable pub reserve : Catalog → Fresh → Request → Database → Committed ℕ
reserve catalog fresh r db = do
  multiplier ← normalize_group_multiplier r.group_multiplier r.multiplier_digits
  discount ← metered (normalize_upstream_cost_discount r.upstream_cost_discount)
  mode ← metered (normalize_metering_mode r.metering_mode)
  guard (valid_request r) BillingError.invalid_request
  token ← or_error r.token_id BillingError.invalid_request
  project ← or_error r.project_id BillingError.invalid_request
  tenant ← or_error r.tenant_id BillingError.invalid_request
  guard (not (has_key r.idempotency_key db.requests)) BillingError.duplicate_request
  row ← or_error (find token db.tokens) BillingError.invalid_request
  guard row.usable BillingError.invalid_request
  currency ← or_error (catalog.tenant_currency tenant) BillingError.account_not_found
  customer ← customer_quote catalog r token project tenant currency mode multiplier
  quote ← checked_quote catalog r db token row currency discount customer
  place_hold db
      (record {
        token_id = token;
        tenant_id = tenant;
        currency = currency;
        request_id = r.request_id;
        project_id = project;
        model_id = customer.model;
        channel_id = r.channel_id;
        idempotency_key = r.idempotency_key;
        group_multiplier = multiplier;
        metering_mode = mode;
        metering_price = r.metering_price;
        upstream_cost_discount = discount;
        pricing_tier = r.pricing_tier;
        quote = quote;
      })
      fresh
