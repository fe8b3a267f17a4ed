-- ===== src/Metering/Charge.antt =====
-- `calculateMeteredChargeForTier`, `factorCharge` and what is built on them in
-- internal/billing/metering.go.
use Prim.Native.String.{String, compare}
use Prim.Native.Nat.{Ordering}
use model_bridge.Base.{ℕ, ◌+◌, ◌*◌, List, [], ◌∷◌, ◌&&◌, not, ltb, leb, if◌then◌else◌, is_some}
use model_bridge.Base.Texts.{Map, str_eq}
use model_bridge.Base.Results.{ok, err, ◌>>=◌}
use model_bridge.Metering.Defs.{
  Decimal, MeteredUsage, Quantities, PriceComponent, ChargeLine, MeteredCharge, MeteringError,
  Checked, one, rat_decimal, valid_metered_decimal,
}
use model_bridge.Metering.Usage.{normalize_metered_usage}
use model_bridge.Metering.Effective.{effective_quantity}
use model_bridge.Metering.Tiers.{tiered_amount, parse_price}
use model_bridge.Metering.Select.{
  component_base_code, add_implicit_request_metric, components_by_code, component_for_meter,
  select_metered_components,
}

-- `sort.Slice` by code; the codes of the selected components are distinct.
unfoldable pub insert_sorted : PriceComponent → List PriceComponent → List PriceComponent
insert_sorted c [] = c ∷ []
insert_sorted c (d ∷ ds) =
    let rest = insert_sorted c ds in
    elim (compare c.component_code d.component_code) [ Ordering.gt ↦ d ∷ rest | _ ↦ c ∷ d ∷ ds ]

unfoldable pub sort_components : List PriceComponent → List PriceComponent
sort_components [] = []
sort_components (c ∷ cs) = insert_sorted c (sort_components cs)

-- A line is written for a positive quantity only.
unfoldable pub add_line : PriceComponent → ℕ → ℕ × ℕ → List ChargeLine → List ChargeLine
add_line c quantity priced lines =
    if ltb 0 quantity
    then record {
      component_code = c.component_code;
      unit = c.unit;
      quantity = quantity;
      price_per_unit = priced.1;
      amount = rat_decimal priced.0;
    }
      ∷ lines
    else lines

-- The loop over the sorted components: the exact total, and a line for each positive quantity.
unfoldable pub charge_lines : List PriceComponent → Quantities → Checked (ℕ × List ChargeLine)
charge_lines [] usage = ok (0, [])
charge_lines (c ∷ cs) usage =
    let quantity = effective_quantity (component_base_code c.component_code) usage in
    tiered_amount c quantity usage >>= λ priced.
    charge_lines cs usage >>= λ rest. ok (priced.0 + rest.0, add_line c quantity priced rest.1)

-- The minimum charge replaces a smaller total.
unfoldable pub at_least : ℕ → ℕ → ℕ
at_least minimum total = if ltb total (minimum * one) then minimum * one else total

-- `calculateMeteredChargeForTier`
unfoldable pub calculate_metered_charge_for_tier :
    List PriceComponent → MeteredUsage → Decimal → String → Checked MeteredCharge
calculate_metered_charge_for_tier components usage minimum_charge tier = do
  normalized ← normalize_metered_usage (add_implicit_request_metric components usage tier)
  selected ← select_metered_components components normalized tier
  charged ← charge_lines (sort_components selected) normalized
  minimum ← parse_price minimum_charge MeteringError.invalid_minimum
  ok (record { amount = rat_decimal (at_least minimum charged.0); lines = charged.1 })

unfoldable pub factor_lines : ℕ → List ChargeLine → List ChargeLine
factor_lines factor [] = []
factor_lines factor (line ∷ lines) =
    record line {
      price_per_unit = rat_decimal (line.price_per_unit * factor);
      amount = rat_decimal (line.amount * factor);
    }
    ∷ factor_lines factor lines

-- `factorCharge`, for the group multiplier and the upstream discount.
unfoldable pub factor_charge : MeteredCharge → Decimal → Checked MeteredCharge
factor_charge charge factor_value = do
  factor ← parse_price factor_value MeteringError.invalid_factor
  ok (record {
    amount = rat_decimal (charge.amount * factor);
    lines = factor_lines factor charge.lines;
  })

-- `multiplierCharge`
unfoldable pub multiplier_charge : MeteredCharge → Decimal → Checked MeteredCharge
multiplier_charge charge multiplier = factor_charge charge multiplier

-- `normalizeUpstreamCostDiscount`: between 0 and 1000, and 1 where nothing is given.
unfoldable pub normalize_upstream_cost_discount : Decimal → Checked Decimal
normalize_upstream_cost_discount Decimal.blank = ok (Decimal.amount one)
normalize_upstream_cost_discount Decimal.malformed = err MeteringError.invalid_request
normalize_upstream_cost_discount (Decimal.amount factor) =
    if valid_metered_decimal (Decimal.amount factor) && leb factor (1000 * one)
    then ok (Decimal.amount factor)
    else err MeteringError.invalid_request

-- `calculateUpstreamCost`
unfoldable pub calculate_upstream_cost :
    List PriceComponent → MeteredUsage → Decimal → Decimal → String → Checked ℕ
calculate_upstream_cost components usage minimum_charge discount tier = do
  factor ← normalize_upstream_cost_discount discount
  charge ← calculate_metered_charge_for_tier components usage minimum_charge tier
  factored ← factor_charge charge factor
  ok factored.amount

-- The filter of `prepareReservationMetrics`: an estimate stays if a component can price it, and a
-- tier-specific estimate only if its plain meter has something to charge for.
unfoldable pub priceable : Map PriceComponent → String → Quantities → Quantities → MeteredUsage
priceable by_code tier usage [] = []
priceable by_code tier usage ((c, q) ∷ rest) =
    let base = component_base_code c in
    let kept = priceable by_code tier usage rest in
    if leb (effective_quantity base usage) 0 && not (str_eq base c)
    then kept
    else if is_some (component_for_meter by_code base tier)
    then (c, Decimal.amount q) ∷ kept
    else kept

-- `prepareReservationMetrics`
unfoldable pub prepare_reservation_metrics :
    List PriceComponent → MeteredUsage → String → Checked Quantities
prepare_reservation_metrics components usage tier = do
  normalized ← normalize_metered_usage usage
  by_code ← components_by_code [] components
  normalize_metered_usage (priceable by_code tier normalized normalized)
