-- ===== src/Ledger/Quote.antt =====
-- The pricing half of `SQLService.Reserve` in internal/billing/service.go: validation of the
-- request, the price that applies, and the amount to set aside.
use Prim.Native.String.{String, len}
use model_bridge.Base.{
  ℕ, ◌+◌, ◌*◌, ◌/◌, ◌^◌, List, [], ◌∷◌, Option, none, some, Bool, true, false, ◌&&◌, ◌||◌, not, leb,
  ltb, if◌then◌else◌, is_some,
}
use model_bridge.Base.Int.{ℤ, pos, negsuc}
use model_bridge.Base.Texts.{str_eq, trim_space}
use model_bridge.Base.Results.{Result, ok, err, ◌>>=◌, ◌>>◌, guard, or_error}
use model_bridge.Metering.Defs.{
  Decimal, MeteredUsage, Quantities, MeteringError, Checked, one, valid_metered_decimal, as_usage,
}
use model_bridge.Metering.Select.{add_implicit_request_metric, is_zero_amount}
use model_bridge.Metering.Charge.{
  calculate_metered_charge_for_tier, calculate_upstream_cost, prepare_reservation_metrics,
}
use model_bridge.Metering.Modes.{
  MeteringMode, Price, price_components_for, customer_metering_usage, apply_metering_price,
  is_empty_usage,
}
use model_bridge.Ledger.State.{BillingError}

-- `Request`. An identifier is `none` where its text is no UUID; `multiplier_digits` counts the
-- characters behind the point in the text of the group multiplier.
pub record Request : Type 0 where
  pub request_id : String
  pub idempotency_key : String
  pub tenant_id : Option ℕ
  pub project_id : Option ℕ
  pub token_id : Option ℕ
  pub channel_id : Option ℕ
  pub model : String
  pub provider : String
  pub group_multiplier : Decimal
  pub multiplier_digits : ℕ
  pub metering_mode : String
  pub metering_price : Decimal
  pub upstream_cost_discount : Decimal
  pub estimated_input_tokens : ℤ
  pub estimated_output_tokens : ℤ
  pub estimated_metrics : MeteredUsage
  pub pricing_tier : String
  pub endpoint : String
  pub client_ip : String
  pub request_type : String
  pub reasoning_effort : String
  pub billing_type : String

pub data Scope : Type 0 where
  token_scope project_scope tenant_scope : ℕ → Scope
  platform_default : Scope

-- What an active channel offers under the name of a model: the model of its mapping, and its cost
-- discount.
pub record ChannelTarget : Type 0 where
  pub model_id : ℕ
  pub upstream_cost_discount : Decimal

-- The rows of the catalogue tables that the queries of one operation select: the currency of an
-- active tenant, an active model, the newest price in force for a scope or from the official list,
-- and what a channel offers for a model.
pub record Catalog : Type 0 where
  pub tenant_currency : ℕ → Option String
  pub model_id : String → String → Option ℕ
  pub manual_price : Scope → ℕ → Option Price
  pub official_price : ℕ → Option Price
  pub channel_target : ℕ → ℕ → Option ChannelTarget

abbrev pub Billed : Type 0 → Type 0
Billed A = Result BillingError A

-- Errors of the metering functions reach the caller unchanged.
abbrev pub metered : {A : Type 0} → Checked A → Result BillingError A
metered (ok a) = ok a
metered (err MeteringError.invalid_request) = err BillingError.invalid_request
metered (err MeteringError.price_not_configured) = err BillingError.price_not_configured
metered (err e) = err (BillingError.metering e)

-- One millionth, as a whole number of 10^-30.
abbrev pub millionth : ℕ
millionth = 10 ^ 24

-- `normalizeGroupMultiplier`: in millionths, between 0 and 1000, rounded as `FloatString(6)` does.
unfoldable pub normalize_group_multiplier : Decimal → ℕ → Billed ℕ
normalize_group_multiplier Decimal.blank digits = ok (10 ^ 6)
normalize_group_multiplier Decimal.malformed digits = err BillingError.invalid_request
normalize_group_multiplier (Decimal.amount v) digits =
    if not (valid_metered_decimal (Decimal.amount v))
      || is_zero_amount (Decimal.amount v)
      || ltb 6 digits
      || ltb (1000 * one) v
    then err BillingError.invalid_request
    else ok ((v + millionth / 2) / millionth)

abbrev pub is_negative : ℤ → Bool
is_negative (pos n) = false
is_negative (negsuc n) = true

-- `validateRequest`; `mode` is the normalised metering mode, which is always short enough.
unfoldable pub valid_request : Request → Bool
valid_request r =
    not (str_eq (trim_space r.request_id) "")
    && leb (len r.request_id) 256
    && not (str_eq (trim_space r.idempotency_key) "")
    && leb (len r.idempotency_key) 256
    && is_some r.tenant_id
    && is_some r.project_id
    && is_some r.token_id
    && not (str_eq (trim_space r.model) "")
    && leb (len r.model) 256
    && not (str_eq (trim_space r.provider) "")
    && is_some r.channel_id
    && leb (len r.endpoint) 512
    && leb (len r.client_ip) 128
    && leb (len r.request_type) 64
    && leb (len r.reasoning_effort) 64
    && leb (len r.billing_type) 32
    && not (is_negative r.estimated_input_tokens)
    && not (is_negative r.estimated_output_tokens)

-- `usageFromLegacy` for the counts of tokens that are not negative.
abbrev pub token_count : ℤ → Decimal
token_count (pos n) = Decimal.amount (n * one)
token_count (negsuc n) = Decimal.malformed

-- `requestMetricsFor`
unfoldable pub request_metrics_for : Request → MeteredUsage
request_metrics_for r =
    if is_empty_usage r.estimated_metrics
    then ("input_tokens", token_count r.estimated_input_tokens)
      ∷ ("output_tokens", token_count r.estimated_output_tokens)
      ∷ ("cached_input_tokens", Decimal.amount 0)
      ∷ ("reasoning_tokens", Decimal.amount 0)
      ∷ []
    else r.estimated_metrics

-- The loop of `resolvePrice`: the first scope with a price in the tenant's currency.
unfoldable pub first_price : Catalog → ℕ → String → List Scope → Option Price
first_price catalog model currency [] = none
first_price catalog model currency (scope ∷ scopes) =
    let rest = first_price catalog model currency scopes in
    elim (catalog.manual_price scope model) [
      | none ↦ rest
      | some price ↦ if str_eq price.currency currency then some price else rest
    ]

-- `resolveOfficialPrice`
unfoldable pub resolve_official_price : Catalog → ℕ → String → Billed Price
resolve_official_price catalog model currency = do
  price ← or_error (catalog.official_price model) BillingError.price_not_configured
  guard (str_eq price.currency currency) BillingError.price_not_configured
  ok price

-- `resolvePrice`
unfoldable pub resolve_price : Catalog → ℕ → ℕ → ℕ → ℕ → String → Billed Price
resolve_price catalog token project tenant model currency =
    let scopes =
      Scope.token_scope token
      ∷ Scope.project_scope project
      ∷ Scope.tenant_scope tenant
      ∷ Scope.platform_default
      ∷ [] in
    elim (first_price catalog model currency scopes) [
      | some price ↦ ok price
      | none ↦ resolve_official_price catalog model currency
    ]

-- `resolveUpstreamPrice`: the official price, or the customer's where there is none.
unfoldable pub resolve_upstream_price : Catalog → ℕ → String → Price → Price
resolve_upstream_price catalog model currency customer_price =
    elim (resolve_official_price catalog model currency) [
      | ok price ↦ price
      | err e ↦ customer_price
    ]

-- What the pricing half hands to the ledger half. `amount` is a whole number of 10^-36: the
-- product in the query of `multiplyAmount` is exact.
pub record Quote : Type 0 where
  pub amount : ℕ
  pub metrics : Quantities
  pub upstream_metrics : Quantities
  pub upstream_cost : ℕ
  pub price : Price
  pub upstream_price : Price

-- The estimated customer charge, with the estimates that it prices.
unfoldable pub customer_estimate : Request → Price → MeteringMode → ℕ → Checked (ℕ × Quantities)
customer_estimate r price mode multiplier = do
  customer_price ← apply_metering_price price mode r.metering_price
  estimated ← customer_metering_usage (request_metrics_for r) mode
  let components = price_components_for customer_price
  prepared ←
      prepare_reservation_metrics components
        (add_implicit_request_metric components (as_usage estimated) r.pricing_tier) r.pricing_tier
  charge ←
      calculate_metered_charge_for_tier components (as_usage prepared) customer_price.minimum_charge
        r.pricing_tier
  ok (charge.amount * multiplier, prepared)

-- The estimated upstream cost at one price.
abbrev pub upstream_cost_at : Request → Price → Quantities → Decimal → Checked ℕ
upstream_cost_at r price metrics discount =
    calculate_upstream_cost (price_components_for price) (as_usage metrics) price.minimum_charge
      discount r.pricing_tier

-- The upstream estimate: an official price that lacks a meter gives way to the customer's price.
unfoldable pub upstream_estimate :
    Request → Price → Price → Quantities → Decimal → Checked (ℕ × Quantities × Price)
upstream_estimate r price upstream metrics discount = do
  let components = price_components_for upstream
  prepared ←
      prepare_reservation_metrics components
        (add_implicit_request_metric components (request_metrics_for r) r.pricing_tier)
        r.pricing_tier
  elim (upstream_cost_at r upstream prepared discount) [
    | ok cost ↦ ok (cost, prepared, upstream)
    | err e ↦
        if upstream.is_official
        then (upstream_cost_at r price metrics discount >>= λ cost. ok (cost, metrics, price))
        else err e
  ]
