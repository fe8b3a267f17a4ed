-- ===== src/Metering/Tests.antt =====
-- Runs of the metering model, and its properties at concrete inputs.
use Prim.Native.String.{String}
use model_bridge.Base.{ℕ, ◌*◌, ◌≡◌, ◌≤◌, refl, List, [], ◌∷◌, some, arith, sum_by, inl, inr}
use model_bridge.Base.Results.{ok}
use model_bridge.Base.Texts.{
  trim_suffix, is_space, trim_left, keep_unless_blank, trim_right, trim_space,
}
use model_bridge.Metering.Ancestors.{component_for_meter-enough}
use model_bridge.Metering.Billed.{HasKey, HasLine, charged_quantity, calculate_metered_charge-bills}
use model_bridge.Metering.Charge.{
  insert_sorted, sort_components, add_line, charge_lines, at_least,
  calculate_metered_charge_for_tier, factor_charge, multiplier_charge,
  normalize_upstream_cost_discount, calculate_upstream_cost, priceable, prepare_reservation_metrics,
  factor_lines,
}
use model_bridge.Metering.Defs.{
  rat_decimal, valid_metered_decimal, as_usage, Decimal, MeteredUsage, Quantities, PriceComponent,
  TierMode, ChargeLine, MeteredCharge, one,
}
use model_bridge.Metering.Disjoint.{IsDisjoint, normalize_metered_relationships-IsDisjoint}
use model_bridge.Metering.Effective.{
  effective_quantity, effective_quantity-normalize, input_family, output_family,
}
use model_bridge.Metering.Graduated.{
  graduated_component, amount_of, units_cost, price_beyond, tiered_amount-eq-units_cost,
}
use model_bridge.Metering.Modes.{
  normalize_metering_mode, legacy_price_components, component_codes, without_codes,
  price_components_for, has_positive_quantity, first_positive_metric, project_usage,
  customer_metering_usage, customer_metering_usage_with_estimate, apply_metering_price,
  price_allows_zero_usage,
}
use model_bridge.Metering.Repeated.{normalize_metered_relationships-IsDisjoint_kept}
use model_bridge.Metering.Select.{
  to_lower, normalize_pricing_tier, component_base_code, has_component_for_tier,
  add_implicit_request_metric, file_component, components_by_code, parent_meter, own_component,
  component_within, component_for_meter, base_codes, select_codes, select_metered_components,
}
use model_bridge.Metering.Tiers.{
  context_amount, tier_upper, add_tier, graduated_loop, final_price, add_excess, tiers_amount,
  tiered_amount,
}
use model_bridge.Metering.Usage.{
  valid_component_code, normalize_entry, normalize_entries, ensure_parent_metric, limit_child,
  limit_children, limit_children_to_parent, ensure_parents, normalize_metered_relationships,
  normalize_metered_usage, quantity_of,
}

abbrev plain : String → String → ℕ → PriceComponent
plain c unit p = record {
  component_code = c;
  unit = unit;
  price_per_unit = Decimal.amount p;
  tiers = some [];
  mode = TierMode.graduated;
}

-- Two per prompt token and five per answer token.
abbrev price_list : List PriceComponent
price_list =
    plain "input_tokens" "token" (2 * one)
    ∷ plain "output_tokens" "token" (5 * one)
    ∷ plain "reasoning_tokens_priority" "token" (7 * one)
    ∷ []

-- A reported prompt of ten tokens, of which eight are said to be cached and five to be audio.
abbrev reported : MeteredUsage
reported =
    ("cached_input_tokens", Decimal.amount (8 * one))
    ∷ (" input_audio_tokens", Decimal.amount (5 * one))
    ∷ ("input_tokens", Decimal.amount (10 * one))
    ∷ ("reasoning_tokens", Decimal.amount (3 * one))
    ∷ []

abbrev line : String → ℕ → ℕ → ChargeLine
line c quantity unit_price = record {
  component_code = c;
  unit = "token";
  quantity = quantity * one;
  price_per_unit = unit_price * one;
  amount = quantity * unit_price * one;
}

-- The cached part fills the prompt, so that two of the audio tokens are left; the reasoning tokens
-- make up the answer and have a price of their own in the tier.
abbrev charge : MeteredCharge
charge = record {
  amount = 41 * one;
  lines =
      line "cached_input_tokens" 8 2
      ∷ line "input_audio_tokens" 2 2
      ∷ line "reasoning_tokens" 3 7
      ∷ [];
}

charge_run :
    calculate_metered_charge_for_tier price_list reported (Decimal.amount 0) "Priority" ≡ ok charge
unfolding trim_suffix is_space trim_left keep_unless_blank trim_right trim_space to_lower
    normalize_pricing_tier component_base_code has_component_for_tier add_implicit_request_metric
    file_component components_by_code parent_meter own_component component_within
    component_for_meter base_codes select_codes select_metered_components rat_decimal
    valid_metered_decimal as_usage context_amount tier_upper add_tier graduated_loop final_price
    add_excess tiers_amount tiered_amount valid_component_code normalize_entry normalize_entries
    ensure_parent_metric limit_child limit_children limit_children_to_parent ensure_parents
    normalize_metered_relationships normalize_metered_usage insert_sorted sort_components add_line
    charge_lines at_least calculate_metered_charge_for_tier factor_charge multiplier_charge
    normalize_upstream_cost_discount calculate_upstream_cost priceable prepare_reservation_metrics
    normalize_metering_mode legacy_price_components component_codes without_codes
    price_components_for has_positive_quantity first_positive_metric project_usage
    customer_metering_usage customer_metering_usage_with_estimate apply_metering_price
    price_allows_zero_usage effective_quantity factor_lines
charge_run = refl

abbrev normalized : Quantities
normalized =
    ("cached_input_tokens", 8 * one)
    ∷ ("input_audio_tokens", 2 * one)
    ∷ ("input_tokens", 10 * one)
    ∷ ("reasoning_tokens", 3 * one)
    ∷ ("output_tokens", 3 * one)
    ∷ []

normalized_run :
    normalize_metered_usage (add_implicit_request_metric price_list reported "Priority")
    ≡ ok normalized
unfolding trim_suffix is_space trim_left keep_unless_blank trim_right trim_space to_lower
    normalize_pricing_tier component_base_code has_component_for_tier add_implicit_request_metric
    file_component components_by_code parent_meter own_component component_within
    component_for_meter base_codes select_codes select_metered_components rat_decimal
    valid_metered_decimal as_usage context_amount tier_upper add_tier graduated_loop final_price
    add_excess tiers_amount tiered_amount valid_component_code normalize_entry normalize_entries
    ensure_parent_metric limit_child limit_children limit_children_to_parent ensure_parents
    normalize_metered_relationships normalize_metered_usage insert_sorted sort_components add_line
    charge_lines at_least calculate_metered_charge_for_tier factor_charge multiplier_charge
    normalize_upstream_cost_discount calculate_upstream_cost priceable prepare_reservation_metrics
    normalize_metering_mode legacy_price_components component_codes without_codes
    price_components_for has_positive_quantity first_positive_metric project_usage
    customer_metering_usage customer_metering_usage_with_estimate apply_metering_price
    price_allows_zero_usage effective_quantity factor_lines
normalized_run = refl

has_reasoning : HasKey "reasoning_tokens" normalized
has_reasoning = inr (inr (inr (inl refl)))

base_run : component_base_code "reasoning_tokens" ≡ "reasoning_tokens"
unfolding trim_suffix is_space trim_left keep_unless_blank trim_right trim_space to_lower
    normalize_pricing_tier component_base_code has_component_for_tier add_implicit_request_metric
    file_component components_by_code parent_meter own_component component_within
    component_for_meter base_codes select_codes select_metered_components rat_decimal
    valid_metered_decimal as_usage context_amount tier_upper add_tier graduated_loop final_price
    add_excess tiers_amount tiered_amount valid_component_code normalize_entry normalize_entries
    ensure_parent_metric limit_child limit_children limit_children_to_parent ensure_parents
    normalize_metered_relationships normalize_metered_usage insert_sorted sort_components add_line
    charge_lines at_least calculate_metered_charge_for_tier factor_charge multiplier_charge
    normalize_upstream_cost_discount calculate_upstream_cost priceable prepare_reservation_metrics
    normalize_metering_mode legacy_price_components component_codes without_codes
    price_components_for has_positive_quantity first_positive_metric project_usage
    customer_metering_usage customer_metering_usage_with_estimate apply_metering_price
    price_allows_zero_usage effective_quantity factor_lines
base_run = refl

calculate_metered_charge-bills_example :
    (0 ≤ charge.amount)
    × HasLine
        (component_base_code "reasoning_tokens")
        (charged_quantity normalized "reasoning_tokens")
        charge.lines
unfolding trim_suffix is_space trim_left keep_unless_blank trim_right trim_space to_lower
    normalize_pricing_tier component_base_code has_component_for_tier add_implicit_request_metric
    file_component components_by_code parent_meter own_component component_within
    component_for_meter base_codes select_codes select_metered_components rat_decimal
    valid_metered_decimal as_usage context_amount tier_upper add_tier graduated_loop final_price
    add_excess tiers_amount tiered_amount valid_component_code normalize_entry normalize_entries
    ensure_parent_metric limit_child limit_children limit_children_to_parent ensure_parents
    normalize_metered_relationships normalize_metered_usage insert_sorted sort_components add_line
    charge_lines at_least calculate_metered_charge_for_tier factor_charge multiplier_charge
    normalize_upstream_cost_discount calculate_upstream_cost priceable prepare_reservation_metrics
    normalize_metering_mode legacy_price_components component_codes without_codes
    price_components_for has_positive_quantity first_positive_metric project_usage
    customer_metering_usage customer_metering_usage_with_estimate apply_metering_price
    price_allows_zero_usage effective_quantity factor_lines
calculate_metered_charge-bills_example =
    calculate_metered_charge-bills price_list reported 0 "Priority" "reasoning_tokens"
      normalized_run charge_run has_reasoning base_run (omega arith)

abbrev overlapping : Quantities
overlapping =
    ("cached_input_tokens", 8)
    ∷ ("input_audio_tokens", 5)
    ∷ ("input_tokens", 10)
    ∷ ("cached_audio_tokens", 7)
    ∷ []

normalize_metered_relationships-IsDisjoint_example :
    IsDisjoint (normalize_metered_relationships overlapping)
normalize_metered_relationships-IsDisjoint_example =
    normalize_metered_relationships-IsDisjoint overlapping

effective_quantity-normalize_example :
    let n = normalize_metered_relationships overlapping in
    (sum_by (λ c. effective_quantity c n) input_family ≡ quantity_of n "input_tokens")
    × (sum_by (λ c. effective_quantity c n) output_family ≡ quantity_of n "output_tokens")
effective_quantity-normalize_example = effective_quantity-normalize overlapping

-- Five units at four, five at two, and the rest at one.
tiered_amount-eq-units_cost_example :
    amount_of (
      tiered_amount
        (graduated_component "output_tokens" "token" 9 ((5, 4) ∷ (10, 2) ∷ []) (some 1))
        12
        [])
    ≡ some (units_cost ((5, 4) ∷ (10, 2) ∷ []) (price_beyond 9 ((5, 4) ∷ (10, 2) ∷ []) (some 1)) 12)
tiered_amount-eq-units_cost_example =
    tiered_amount-eq-units_cost "output_tokens" "token" 9 ((5, 4) ∷ (10, 2) ∷ []) (some 1) 12 []
      (omega arith, (omega arith, tt))

component_for_meter-enough_example :
    component_within 5 [] "cached_audio_tokens" ""
    ≡ some (component_for_meter [] "cached_audio_tokens" "")
component_for_meter-enough_example = component_for_meter-enough 2 [] "cached_audio_tokens" ""

abbrev disjoint : Quantities
disjoint = ("cached_input_tokens", 8) ∷ ("input_tokens", 10) ∷ []

normalize_metered_relationships-IsDisjoint_kept_example :
    normalize_metered_relationships disjoint ≡ disjoint
normalize_metered_relationships-IsDisjoint_kept_example =
    normalize_metered_relationships-IsDisjoint_kept disjoint (record {
      input = omega arith;
      audio = omega arith;
      image = omega arith;
      video = omega arith;
      output = omega arith;
    })
