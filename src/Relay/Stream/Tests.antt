-- ===== src/Relay/Stream/Tests.antt =====
-- A stream of internal/relay/advanced.go that the second channel sends, and its properties.
use Prim.Native.String.{String}
use model_bridge.Base.{ℕ, ◌≡◌, refl, [], ◌∷◌, none, some, true, if◌then◌else◌}
use model_bridge.Base.Int64.{◌+64◌, ◌-64◌, wrap64}
use model_bridge.Base.Int.{◌+ℤ◌, ◌-ℤ◌}
use model_bridge.Base.Texts.{
  str_eq, trim_space, trim_left, trim_right, keep_unless_blank, trim_suffix, is_space,
}
use model_bridge.Relay.Channels.{
  Channel, channel_key, max_priority, pool_of, by_weight, pick_from, pick_weighted_channel,
}
use model_bridge.Ledger.Credit.{
  parse_direction, positive_amount, moved, open_account, write_credit, apply_credit,
}
use model_bridge.Ledger.Posting.{add_to_system, post_charge}
use model_bridge.Ledger.Quote.{
  normalize_group_multiplier, valid_request, request_metrics_for, first_price,
  resolve_official_price, resolve_price, resolve_upstream_price, customer_estimate,
  upstream_estimate,
}
use model_bridge.Ledger.Release.{
  released_row, release_held, on_held, release_reservation, fail, pending_row,
  mark_settlement_pending,
}
use model_bridge.Ledger.Reserve.{
  stored, covers, after_hold, pending_amount, within_spend_limit, prepaid_account, request_row,
  reservation_row, write_hold, place_hold, customer_quote, checked_quote, reserve,
}
use model_bridge.Ledger.Reported.{
  valid_usage_source, complete_meter, merged_metrics, usage_metric_int, normalize_usage,
  usage_metrics_for,
}
use model_bridge.Ledger.Settle.{
  settlement_pricing_tier, settlement_price, customer_charge, settlement_upstream_cost, settled_row,
  write_settlement, settle_open, by_status, settle,
}
use model_bridge.Metering.Charge.{
  insert_sorted, sort_components, add_line, charge_lines, at_least,
  calculate_metered_charge_for_tier, factor_charge, multiplier_charge,
  normalize_upstream_cost_discount, calculate_upstream_cost, priceable, prepare_reservation_metrics,
  factor_lines,
}
use model_bridge.Metering.Defs.{rat_decimal, valid_metered_decimal, as_usage}
use model_bridge.Metering.Effective.{effective_quantity}
use model_bridge.Metering.Modes.{
  normalize_metering_mode, legacy_price_components, component_codes, without_codes,
  price_components_for, has_positive_quantity, first_positive_metric, project_usage,
  customer_metering_usage, customer_metering_usage_with_estimate, apply_metering_price,
  price_allows_zero_usage,
}
use model_bridge.Metering.Select.{
  to_lower, normalize_pricing_tier, component_base_code, has_component_for_tier,
  add_implicit_request_metric, file_component, components_by_code, parent_meter, own_component,
  component_within, component_for_meter, base_codes, select_codes, select_metered_components,
}
use model_bridge.Metering.Tiers.{
  context_amount, tier_upper, add_tier, graduated_loop, final_price, add_excess, tiers_amount,
  tiered_amount,
}
use model_bridge.Metering.Usage.{
  valid_component_code, normalize_entry, normalize_entries, ensure_parent_metric, limit_child,
  limit_children, limit_children_to_parent, ensure_parents, normalize_metered_relationships,
  normalize_metered_usage,
}
use model_bridge.Base.Results.{Result, ok, err}
use model_bridge.Ledger.Scenario.{catalog, fresh, request, credited}
use model_bridge.Relay.Errors.{RelayError, retryable_upstream_error}
use model_bridge.Relay.Reports.{
  chat_usage_has_values, chat_usage_is_complete, billing_breakdown, input_of, output_of, cached_of,
  metered_usage, parts_of, clamp_usage_parts,
}
use model_bridge.Relay.Answers.{
  complete_relay_billing, settle_reservation, chat_billing_usage, chat_response_has_output,
}
use model_bridge.Relay.Health.{record_channel_success, canonical_provider}
use model_bridge.Ledger.Rebind.{rebind_reservation_channel, rebind_open, rebind_same_model}
use model_bridge.Relay.Books.{billing_service, IsBooked, billing_service-IsLawful}
use model_bridge.Relay.Paid.{IsBilled}
use model_bridge.Relay.Scenario.{candidates, last_of, answer, line, others, biller}
use model_bridge.Relay.Errors.{retryable_stream_error}
use model_bridge.Relay.Stream.Events.{
  StreamBody, merge_chat_usage, note_event, read_events, open_and_read_chat_stream,
}
use model_bridge.Relay.Stream.Ends.{
  StreamLine, billed_stream, complete_stream, bill_stream, fail_stream, stream_usage_is_incomplete,
  with_service_tier,
}
use model_bridge.Relay.Stream.Loop.{
  after_stream, stream_attempts, bind_stream, reserve_stream, admit_stream, try_stream, stream_loop,
  end_stream_loop, relay_stream,
}
use model_bridge.Relay.Stream.Read.{FromOne}
use model_bridge.Relay.Stream.Source.{relay_stream-FromOne}
use model_bridge.Relay.Stream.Billed.{relay_stream-IsBilled}

-- Two events, the last with the usage.
abbrev body : StreamBody
body = record {
  events =
      record { delta = "Hello"; usage = none }
      ∷ record { delta = ""; usage = some answer.usage }
      ∷ [];
  ending = none;
}

abbrev streams : Channel → String → ℕ → Result RelayError StreamBody
streams c key attempt = if str_eq c.id "a" then err (RelayError.upstream 503 true) else ok body

abbrev stream_line : StreamLine
stream_line = record {
  line = line;
  new_stream = λ name. some streams;
  emit = λ sent. none;
  context_error = λ c attempt. none;
  wait_for_stream_retry = λ c attempt. none;
}

-- The first channel fails twice, and the second sends its stream and is paid for.
stream_run : (relay_stream biller stream_line last_of candidates credited).1 ≡ none
unfolding rebind_reservation_channel rebind_open rebind_same_model ◌+ℤ◌ ◌-ℤ◌ ◌+64◌ ◌-64◌ wrap64
    trim_suffix is_space trim_left keep_unless_blank trim_right trim_space to_lower
    normalize_pricing_tier component_base_code has_component_for_tier add_implicit_request_metric
    file_component components_by_code parent_meter own_component component_within
    component_for_meter base_codes select_codes select_metered_components rat_decimal
    valid_metered_decimal as_usage context_amount tier_upper add_tier graduated_loop final_price
    add_excess tiers_amount tiered_amount valid_component_code normalize_entry normalize_entries
    ensure_parent_metric limit_child limit_children limit_children_to_parent ensure_parents
    normalize_metered_relationships normalize_metered_usage insert_sorted sort_components add_line
    charge_lines at_least calculate_metered_charge_for_tier factor_charge multiplier_charge
    normalize_upstream_cost_discount calculate_upstream_cost priceable prepare_reservation_metrics
    normalize_metering_mode legacy_price_components component_codes without_codes
    price_components_for has_positive_quantity first_positive_metric project_usage
    customer_metering_usage customer_metering_usage_with_estimate apply_metering_price
    price_allows_zero_usage effective_quantity released_row release_held on_held release_reservation
    fail pending_row mark_settlement_pending stored covers after_hold pending_amount
    within_spend_limit prepaid_account request_row reservation_row write_hold place_hold
    customer_quote checked_quote reserve valid_usage_source complete_meter merged_metrics
    usage_metric_int normalize_usage usage_metrics_for settlement_pricing_tier settlement_price
    customer_charge settlement_upstream_cost settled_row write_settlement settle_open by_status
    settle parse_direction positive_amount moved open_account write_credit apply_credit
    normalize_group_multiplier valid_request request_metrics_for first_price resolve_official_price
    resolve_price resolve_upstream_price customer_estimate upstream_estimate add_to_system
    post_charge factor_lines complete_relay_billing settle_reservation chat_usage_is_complete
    billing_breakdown input_of output_of cached_of chat_billing_usage metered_usage parts_of
    clamp_usage_parts record_channel_success canonical_provider billing_service
    pick_weighted_channel pick_from by_weight pool_of max_priority channel_key
    chat_response_has_output retryable_upstream_error relay_stream stream_loop end_stream_loop
    try_stream admit_stream reserve_stream bind_stream stream_attempts after_stream
    open_and_read_chat_stream read_events note_event merge_chat_usage chat_usage_has_values
    bill_stream complete_stream billed_stream fail_stream retryable_stream_error
    stream_usage_is_incomplete with_service_tier
stream_run = refl

relay_stream-IsBilled_example :
    IsBilled biller
      (IsBooked catalog fresh (λ c. request) (λ c. 5) others)
      (billing_service-IsLawful catalog fresh (λ c. request) (λ c. 5) others)
      line
      (relay_stream biller stream_line last_of candidates credited).0.progress
relay_stream-IsBilled_example =
    relay_stream-IsBilled biller (IsBooked catalog fresh (λ c. request) (λ c. 5) others)
      (billing_service-IsLawful catalog fresh (λ c. request) (λ c. 5) others) stream_line refl
      last_of candidates credited stream_run

relay_stream-FromOne_example :
    FromOne stream_line (relay_stream biller stream_line last_of candidates credited).0.sent
relay_stream-FromOne_example = relay_stream-FromOne biller stream_line last_of candidates credited
