-- ===== src/Metering/Modes.antt =====
-- The unit that a routing group bills by: metering modes, the price of a model and the group price
-- of internal/billing/metering.go, `priceComponentsFor` of internal/billing/metering_sql.go, and
-- `meteredUsageHasPositiveQuantity` and `priceAllowsZeroUsage` of internal/billing/service.go.
use Prim.Native.String.{String}
use model_bridge.Base.{
  ℕ, List, [], ◌∷◌, ◌++◌, Option, none, some, Bool, true, false, ◌&&◌, ◌||◌, not, ltb,
  if◌then◌else◌,
}
use model_bridge.Base.Texts.{str_eq, trim_space}
use model_bridge.Base.Results.{ok, err, ◌>>=◌}
use model_bridge.Metering.Defs.{
  Decimal, MeteredUsage, Quantities, PriceComponent, TierMode, MeteringError, Checked, one,
  valid_metered_decimal,
}
use model_bridge.Metering.Usage.{quantity_of, normalize_metered_usage}
use model_bridge.Metering.Select.{to_lower, is_zero_amount, is_among, has_component_for_tier}

pub data MeteringMode : Type 0 where
  token image_count video_seconds video_request : MeteringMode

-- `normalizeMeteringMode`
unfoldable pub normalize_metering_mode : String → Checked MeteringMode
normalize_metering_mode value =
    let v = to_lower (trim_space value) in
    if str_eq v "" || str_eq v "token"
    then ok MeteringMode.token
    else if str_eq v "image_count"
    then ok MeteringMode.image_count
    else if str_eq v "video_seconds"
    then ok MeteringMode.video_seconds
    else if str_eq v "video_request"
    then ok MeteringMode.video_request
    else err MeteringError.invalid_request

-- A resolved price: `Price` of internal/billing/service.go, less its identifiers.
pub record Price : Type 0 where
  pub currency : String
  pub is_official : Bool
  pub input_price : Decimal
  pub output_price : Decimal
  pub cached_input_price : Decimal
  pub cache_creation_price : Decimal
  pub reasoning_price : Decimal
  pub minimum_charge : Decimal
  pub components : List PriceComponent

-- A component without tiers.
abbrev pub plain_component : String → String → Decimal → PriceComponent
plain_component c unit price = record {
  component_code = c;
  unit = unit;
  price_per_unit = price;
  tiers = some [];
  mode = TierMode.graduated;
}

abbrev pub is_blank : Decimal → Bool
is_blank Decimal.blank = true
is_blank Decimal.malformed = false
is_blank (Decimal.amount q) = false

abbrev legacy_component : String → Decimal → Bool → List PriceComponent
legacy_component c value fallback =
    if not (is_blank value) && (not fallback || not (is_zero_amount value))
    then plain_component c "token" value ∷ []
    else []

-- `legacyPriceComponents`
unfoldable pub legacy_price_components : Price → List PriceComponent
legacy_price_components p =
    legacy_component "input_tokens" p.input_price false
    ++ (legacy_component "output_tokens" p.output_price false
        ++ (legacy_component "cached_input_tokens" p.cached_input_price true
            ++ (legacy_component "cache_creation_tokens" p.cache_creation_price true
                ++ legacy_component "reasoning_tokens" p.reasoning_price true)))

unfoldable pub component_codes : List PriceComponent → List String
component_codes [] = []
component_codes (c ∷ cs) = trim_space c.component_code ∷ component_codes cs

unfoldable pub without_codes : List String → List PriceComponent → List PriceComponent
without_codes codes [] = []
without_codes codes (c ∷ cs) =
    let rest = without_codes codes cs in if is_among c.component_code codes then rest else c ∷ rest

-- `priceComponentsFor`: published components, completed by the legacy columns.
unfoldable pub price_components_for : Price → List PriceComponent
price_components_for p =
    p.components ++ without_codes (component_codes p.components) (legacy_price_components p)

abbrev pub is_empty_usage : MeteredUsage → Bool
is_empty_usage [] = true
is_empty_usage (e ∷ u) = false

-- `meteredUsageHasPositiveQuantity`
unfoldable pub has_positive_quantity : Quantities → Bool
has_positive_quantity [] = false
has_positive_quantity ((c, q) ∷ u) = ltb 0 q || has_positive_quantity u

-- `firstPositiveMetric`
unfoldable pub first_positive_metric : Quantities → List String → Option ℕ
first_positive_metric u [] = none
first_positive_metric u (c ∷ cs) =
    let rest = first_positive_metric u cs in
    if ltb 0 (quantity_of u c) then some (quantity_of u c) else rest

abbrev pub single_meter : String → Option ℕ → Quantities
single_meter c none = []
single_meter c (some q) = (c, q) ∷ []

-- The `switch` of `customerMeteringUsage` over a normalised usage.
unfoldable pub project_usage : MeteringMode → Quantities → Quantities
project_usage MeteringMode.token u = u
project_usage MeteringMode.image_count u =
    single_meter "output_images" (first_positive_metric u ("output_images" ∷ []))
project_usage MeteringMode.video_seconds u = single_meter "output_seconds" (
    first_positive_metric u (
      "output_seconds" ∷ "output_video_seconds" ∷ "output_seconds_480p" ∷ "output_seconds_1080p"
      ∷ "output_seconds_4k" ∷ []))
project_usage MeteringMode.video_request u = ("requests", one) ∷ []

-- `customerMeteringUsage`
unfoldable pub customer_metering_usage : MeteredUsage → MeteringMode → Checked Quantities
customer_metering_usage usage mode =
    normalize_metered_usage usage >>= λ u. ok (project_usage mode u)

abbrev is_token : MeteringMode → Bool
is_token MeteringMode.token = true
is_token MeteringMode.image_count = false
is_token MeteringMode.video_seconds = false
is_token MeteringMode.video_request = false

-- `customerMeteringUsageWithEstimate`
unfoldable pub customer_metering_usage_with_estimate :
    MeteredUsage → MeteredUsage → MeteringMode → Checked Quantities
customer_metering_usage_with_estimate actual estimate mode =
    customer_metering_usage actual mode >>= λ customer.
    if is_token mode || has_positive_quantity customer
    then ok customer
    else (customer_metering_usage estimate mode >>= λ fallback.
        ok (if has_positive_quantity fallback then fallback else customer))

abbrev pub group_component : MeteringMode → Decimal → List PriceComponent
group_component MeteringMode.token price = []
group_component MeteringMode.image_count price = plain_component "output_images" "image" price ∷ []
group_component MeteringMode.video_seconds price =
    plain_component "output_seconds" "second" price ∷ []
group_component MeteringMode.video_request price = plain_component "requests" "request" price ∷ []

-- `applyMeteringPrice`. The price of cache creation is the one that the source leaves alone.
unfoldable pub apply_metering_price : Price → MeteringMode → Decimal → Checked Price
apply_metering_price price mode unit_price =
    if is_token mode
    then ok price
    else if not (valid_metered_decimal unit_price) || is_zero_amount unit_price
    then err MeteringError.price_not_configured
    else ok (record price {
      input_price = Decimal.amount 0;
      output_price = Decimal.amount 0;
      cached_input_price = Decimal.amount 0;
      reasoning_price = Decimal.amount 0;
      minimum_charge = Decimal.amount 0;
      components = group_component mode unit_price;
    })

-- `priceAllowsZeroUsage`
unfoldable pub price_allows_zero_usage : Price → String → MeteringMode → Bool
price_allows_zero_usage price tier mode =
    is_token mode
    && (not (is_zero_amount price.minimum_charge)
        || has_component_for_tier (price_components_for price) "requests" tier)
