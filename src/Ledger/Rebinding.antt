-- ===== src/Ledger/Rebinding.antt =====
-- A reservation of the examples that goes over to a channel with a cheaper model of the same name.
use model_bridge.Base.{◌*◌, ℕ, ◌≡◌, refl, Option, some, none}
use model_bridge.Base.Int.{pos, ◌+ℤ◌, ◌-ℤ◌}
use model_bridge.Base.Results.{ok, err}
use model_bridge.Base.Texts.{
  trim_suffix, is_space, trim_left, keep_unless_blank, trim_right, trim_space,
}
use model_bridge.Ledger.Credit.{
  parse_direction, positive_amount, moved, open_account, write_credit, apply_credit,
}
use model_bridge.Ledger.Posting.{add_to_system, post_charge}
use model_bridge.Ledger.Quote.{
  normalize_group_multiplier, valid_request, request_metrics_for, first_price,
  resolve_official_price, resolve_price, resolve_upstream_price, customer_estimate,
  upstream_estimate, Scope, Catalog,
}
use model_bridge.Ledger.Release.{
  released_row, release_held, on_held, release_reservation, fail, pending_row,
  mark_settlement_pending,
}
use model_bridge.Ledger.Reserve.{
  stored, covers, after_hold, pending_amount, within_spend_limit, prepaid_account, request_row,
  reservation_row, write_hold, place_hold, customer_quote, checked_quote, reserve,
}
use model_bridge.Ledger.Reported.{
  valid_usage_source, complete_meter, merged_metrics, usage_metric_int, normalize_usage,
  usage_metrics_for,
}
use model_bridge.Ledger.Settle.{
  settlement_pricing_tier, settlement_price, customer_charge, settlement_upstream_cost, settled_row,
  write_settlement, settle_open, by_status, settle,
}
use model_bridge.Ledger.State.{Database}
use model_bridge.Metering.Charge.{
  insert_sorted, sort_components, add_line, charge_lines, at_least,
  calculate_metered_charge_for_tier, factor_charge, multiplier_charge,
  normalize_upstream_cost_discount, calculate_upstream_cost, priceable, prepare_reservation_metrics,
  factor_lines,
}
use model_bridge.Metering.Defs.{rat_decimal, valid_metered_decimal, as_usage, Decimal, one}
use model_bridge.Metering.Effective.{effective_quantity}
use model_bridge.Metering.Modes.{
  normalize_metering_mode, legacy_price_components, component_codes, without_codes,
  price_components_for, has_positive_quantity, first_positive_metric, project_usage,
  customer_metering_usage, customer_metering_usage_with_estimate, apply_metering_price,
  price_allows_zero_usage, Price,
}
use model_bridge.Metering.Select.{
  to_lower, normalize_pricing_tier, component_base_code, has_component_for_tier,
  add_implicit_request_metric, file_component, components_by_code, parent_meter, own_component,
  component_within, component_for_meter, base_codes, select_codes, select_metered_components,
}
use model_bridge.Metering.Tiers.{
  context_amount, tier_upper, add_tier, graduated_loop, final_price, add_excess, tiers_amount,
  tiered_amount,
}
use model_bridge.Metering.Usage.{
  valid_component_code, normalize_entry, normalize_entries, ensure_parent_metric, limit_child,
  limit_children, limit_children_to_parent, ensure_parents, normalize_metered_relationships,
  normalize_metered_usage,
}
use model_bridge.Ledger.Rebind.{
  rebind_reservation_channel, rebind_open, rebind_other_model, rebind_quote, rebound_upstream,
  rebound_row, write_rebind,
}
use model_bridge.Ledger.Reconcile.Books.{balance_in}
use model_bridge.Ledger.Scenario.{price, catalog, reserved}

abbrev cheaper_price : Scope → ℕ → Option Price
cheaper_price (Scope.token_scope t) model = none
cheaper_price (Scope.project_scope p) model = none
cheaper_price (Scope.tenant_scope t) model = none
cheaper_price Scope.platform_default model =
    some (record price { input_price = Decimal.amount one })

-- Channel 5 offers model 10.
abbrev pub elsewhere : Catalog
elsewhere = record catalog {
  manual_price = cheaper_price;
  channel_target =
      λ channel model. some (record { model_id = 10; upstream_cost_discount = Decimal.amount one });
}

-- The rows after the rebinding.
abbrev pub rebound : Database
rebound = elim (rebind_reservation_channel elsewhere 7 5 reserved) [
  | ok (_, db) ↦ db
  | err e ↦ reserved
]

-- Eighty were set aside at the old price, and sixty are at the new one.
cheaper : balance_in 1 rebound.accounts ≡ pos (40 * one)
unfolding ◌+ℤ◌ ◌-ℤ◌ trim_suffix is_space trim_left keep_unless_blank trim_right trim_space to_lower
    normalize_pricing_tier component_base_code has_component_for_tier add_implicit_request_metric
    file_component components_by_code parent_meter own_component component_within
    component_for_meter base_codes select_codes select_metered_components rat_decimal
    valid_metered_decimal as_usage context_amount tier_upper add_tier graduated_loop final_price
    add_excess tiers_amount tiered_amount valid_component_code normalize_entry normalize_entries
    ensure_parent_metric limit_child limit_children limit_children_to_parent ensure_parents
    normalize_metered_relationships normalize_metered_usage insert_sorted sort_components add_line
    charge_lines at_least calculate_metered_charge_for_tier factor_charge multiplier_charge
    normalize_upstream_cost_discount calculate_upstream_cost priceable prepare_reservation_metrics
    normalize_metering_mode legacy_price_components component_codes without_codes
    price_components_for has_positive_quantity first_positive_metric project_usage
    customer_metering_usage customer_metering_usage_with_estimate apply_metering_price
    price_allows_zero_usage effective_quantity released_row release_held on_held release_reservation
    fail pending_row mark_settlement_pending stored covers after_hold pending_amount
    within_spend_limit prepaid_account request_row reservation_row write_hold place_hold
    customer_quote checked_quote reserve valid_usage_source complete_meter merged_metrics
    usage_metric_int normalize_usage usage_metrics_for settlement_pricing_tier settlement_price
    customer_charge settlement_upstream_cost settled_row write_settlement settle_open by_status
    settle parse_direction positive_amount moved open_account write_credit apply_credit
    normalize_group_multiplier valid_request request_metrics_for first_price resolve_official_price
    resolve_price resolve_upstream_price customer_estimate upstream_estimate add_to_system
    post_charge factor_lines rebind_reservation_channel rebind_open rebind_other_model rebind_quote
    rebound_upstream rebound_row write_rebind
cheaper = refl

pub rebind_run : rebind_reservation_channel elsewhere 7 5 reserved ≡ ok (tt, rebound)
unfolding ◌+ℤ◌ ◌-ℤ◌ trim_suffix is_space trim_left keep_unless_blank trim_right trim_space to_lower
    normalize_pricing_tier component_base_code has_component_for_tier add_implicit_request_metric
    file_component components_by_code parent_meter own_component component_within
    component_for_meter base_codes select_codes select_metered_components rat_decimal
    valid_metered_decimal as_usage context_amount tier_upper add_tier graduated_loop final_price
    add_excess tiers_amount tiered_amount valid_component_code normalize_entry normalize_entries
    ensure_parent_metric limit_child limit_children limit_children_to_parent ensure_parents
    normalize_metered_relationships normalize_metered_usage insert_sorted sort_components add_line
    charge_lines at_least calculate_metered_charge_for_tier factor_charge multiplier_charge
    normalize_upstream_cost_discount calculate_upstream_cost priceable prepare_reservation_metrics
    normalize_metering_mode legacy_price_components component_codes without_codes
    price_components_for has_positive_quantity first_positive_metric project_usage
    customer_metering_usage customer_metering_usage_with_estimate apply_metering_price
    price_allows_zero_usage effective_quantity released_row release_held on_held release_reservation
    fail pending_row mark_settlement_pending stored covers after_hold pending_amount
    within_spend_limit prepaid_account request_row reservation_row write_hold place_hold
    customer_quote checked_quote reserve valid_usage_source complete_meter merged_metrics
    usage_metric_int normalize_usage usage_metrics_for settlement_pricing_tier settlement_price
    customer_charge settlement_upstream_cost settled_row write_settlement settle_open by_status
    settle parse_direction positive_amount moved open_account write_credit apply_credit
    normalize_group_multiplier valid_request request_metrics_for first_price resolve_official_price
    resolve_price resolve_upstream_price customer_estimate upstream_estimate add_to_system
    post_charge factor_lines rebind_reservation_channel rebind_open rebind_other_model rebind_quote
    rebound_upstream rebound_row write_rebind
rebind_run = refl
