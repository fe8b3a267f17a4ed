-- ===== src/Relay/Tests.antt =====
-- A choice among three channels, and the properties of the choice at it.
use model_bridge.Base.{
  suc, ℕ, ◌+◌, ◌<◌, ◌≡◌, refl, [], ◌∷◌, ◌++◌, none, some, true, arith, inl, inr, false, length, ◌≤◌,
}
use model_bridge.Base.Int64.{◌+64◌, ◌-64◌, wrap64}
use model_bridge.Base.Int.{pos, pos_part, ◌≤ℤ◌, ◌+ℤ◌, ◌-ℤ◌}
use model_bridge.Base.Texts.{
  trim_space, trim_left, trim_right, keep_unless_blank, trim_suffix, is_space,
}
use model_bridge.Relay.Channels.{
  Channel, channel_key, is_new, max_priority, pool_of, by_weight, pick_from, pick_weighted_channel,
}
use model_bridge.Relay.Choice.{Among, pick_weighted_channel-best, by_weight-share}
use model_bridge.Relay.Found.{pick_weighted_channel-IsFound}
use model_bridge.Ledger.Credit.{
  parse_direction, positive_amount, moved, open_account, write_credit, apply_credit,
}
use model_bridge.Ledger.Posting.{add_to_system, post_charge}
use model_bridge.Ledger.Quote.{
  normalize_group_multiplier, valid_request, request_metrics_for, first_price,
  resolve_official_price, resolve_price, resolve_upstream_price, customer_estimate,
  upstream_estimate,
}
use model_bridge.Ledger.Release.{
  released_row, release_held, on_held, release_reservation, fail, pending_row,
  mark_settlement_pending,
}
use model_bridge.Ledger.Reserve.{
  stored, covers, after_hold, pending_amount, within_spend_limit, prepaid_account, request_row,
  reservation_row, write_hold, place_hold, customer_quote, checked_quote, reserve,
}
use model_bridge.Ledger.Reported.{
  valid_usage_source, complete_meter, merged_metrics, usage_metric_int, normalize_usage,
  usage_metrics_for,
}
use model_bridge.Ledger.Settle.{
  settlement_pricing_tier, settlement_price, customer_charge, settlement_upstream_cost, settled_row,
  write_settlement, settle_open, by_status, settle,
}
use model_bridge.Metering.Charge.{
  insert_sorted, sort_components, add_line, charge_lines, at_least,
  calculate_metered_charge_for_tier, factor_charge, multiplier_charge,
  normalize_upstream_cost_discount, calculate_upstream_cost, priceable, prepare_reservation_metrics,
  factor_lines,
}
use model_bridge.Metering.Defs.{rat_decimal, valid_metered_decimal, as_usage}
use model_bridge.Metering.Effective.{effective_quantity}
use model_bridge.Metering.Modes.{
  normalize_metering_mode, legacy_price_components, component_codes, without_codes,
  price_components_for, has_positive_quantity, first_positive_metric, project_usage,
  customer_metering_usage, customer_metering_usage_with_estimate, apply_metering_price,
  price_allows_zero_usage,
}
use model_bridge.Metering.Select.{
  to_lower, normalize_pricing_tier, component_base_code, has_component_for_tier,
  add_implicit_request_metric, file_component, components_by_code, parent_meter, own_component,
  component_within, component_for_meter, base_codes, select_codes, select_metered_components,
}
use model_bridge.Metering.Tiers.{
  context_amount, tier_upper, add_tier, graduated_loop, final_price, add_excess, tiers_amount,
  tiered_amount,
}
use model_bridge.Metering.Usage.{
  valid_component_code, normalize_entry, normalize_entries, ensure_parent_metric, limit_child,
  limit_children, limit_children_to_parent, ensure_parents, normalize_metered_relationships,
  normalize_metered_usage,
}
use model_bridge.Base.Results.{ok}
use model_bridge.Ledger.Scenario.{catalog, fresh, request, credited}
use model_bridge.Relay.Errors.{retryable_upstream_error}
use model_bridge.Relay.Parts.{parts_of-fit}
use model_bridge.Relay.Reports.{
  ChatUsage, chat_usage_has_values, chat_usage_is_complete, billing_breakdown, input_of, output_of,
  cached_of, metered_usage, parts_of, clamp_usage_parts,
}
use model_bridge.Relay.Answers.{
  complete_relay_billing, settle_reservation, chat_billing_usage, chat_response_has_output,
}
use model_bridge.Relay.Health.{record_channel_success, canonical_provider}
use model_bridge.Relay.Attempts.{
  try_channel, admit, reserve_first, bind, call_upstream, bill_answer, complete, billed_answer,
  with_defaults, with_total, no_usage,
}
use model_bridge.Relay.Chat.{
  relay_chat, chat_loop, end_loop, nothing_tried, Principal, GroupPolicy, Gate, chat_completions,
  admitted, resolve_group_policy, within_rpm, model_allowed,
}
use model_bridge.Ledger.Rebind.{rebind_reservation_channel, rebind_open, rebind_same_model}
use model_bridge.Relay.Books.{billing_service, IsBooked, billing_service-IsLawful}
use model_bridge.Relay.Paid.{IsBilled}
use model_bridge.Relay.Admitted.{IsPaying, chat_completions-IsBilled}
use model_bridge.Relay.Ends.{Distinct, runs_out, chat_loop-ends}
use model_bridge.Relay.Scenario.{channel, candidates, last_of, answer, line, others, biller}

c_new : is_new ("a" ∷ []) (channel "c" 5 7) ≡ true
unfolding channel_key trim_space trim_left trim_right keep_unless_blank
c_new = refl

-- Once the first channel was tried, one of the next priority follows.
pick_run : pick_weighted_channel last_of candidates ("a" ∷ []) ≡ some (channel "c" 5 7)
unfolding pick_weighted_channel pick_from by_weight pool_of max_priority channel_key trim_space
    trim_left trim_right keep_unless_blank
pick_run = refl

b_new : is_new ("a" ∷ []) (channel "b" 5 3) ≡ true
unfolding channel_key trim_space trim_left trim_right keep_unless_blank
b_new = refl

pick_weighted_channel-best_example :
    Among (channel "c" 5 7) candidates
    × (is_new ("a" ∷ []) (channel "c" 5 7) ≡ true)
    × (pos 5 ≤ℤ pos 5)
pick_weighted_channel-best_example =
    pick_weighted_channel-best last_of candidates ("a" ∷ []) (channel "c" 5 7) (channel "b" 5 3)
      pick_run (inr (inl refl)) b_new

last_of-lt : (n : ℕ) → 0 < n → last_of n < n
last_of-lt n h = omega (arith, h)

pick_weighted_channel-IsFound_example :
    (c : Channel) × (pick_weighted_channel last_of candidates ("a" ∷ []) ≡ some c)
pick_weighted_channel-IsFound_example =
    pick_weighted_channel-IsFound last_of candidates ("a" ∷ []) (channel "c" 5 7) last_of-lt
      (inr (inr (inl refl))) c_new

by_weight-share_example :
    by_weight (3 + 6) ((channel "b" 5 3 ∷ []) ++ channel "c" 5 7 ∷ []) none ≡ some (channel "c" 5 7)
by_weight-share_example =
    by_weight-share (channel "b" 5 3 ∷ []) [] (channel "c" 5 7) 6 none (omega arith)

abbrev principal : Principal
principal = record {
  relays = true;
  allowed_models = [];
  token_id = "t";
  tenant_id = "1";
  group_id = "g";
}

abbrev policy : GroupPolicy
policy = record {
  id = "g";
  status = "active";
  multiplier = "2";
  rpm_limit = 60;
  billing_type = "prepaid";
}

abbrev gate : Gate
gate = record {
  validate = ok tt;
  acquire_token = λ token. ok tt;
  resolve_policy = λ group. ok policy;
  consume_group_rpm = λ group limit. ok true;
  candidates = ok candidates;
  has_billing = true;
}

paying : IsPaying gate principal policy
unfolding trim_space trim_left trim_right keep_unless_blank resolve_group_policy
paying = record { tenant = refl; resolved = refl; priced = refl }

-- The first channel fails, and the second answers and is paid for.
chat_run :
    (chat_completions biller line last_of gate (some principal) false credited).1
    ≡ ok (record answer { usage = record answer.usage { total_tokens = pos 15 } })
unfolding rebind_reservation_channel rebind_open rebind_same_model ◌+ℤ◌ ◌-ℤ◌ ◌+64◌ ◌-64◌ wrap64
    trim_suffix is_space trim_left keep_unless_blank trim_right trim_space to_lower
    normalize_pricing_tier component_base_code has_component_for_tier add_implicit_request_metric
    file_component components_by_code parent_meter own_component component_within
    component_for_meter base_codes select_codes select_metered_components rat_decimal
    valid_metered_decimal as_usage context_amount tier_upper add_tier graduated_loop final_price
    add_excess tiers_amount tiered_amount valid_component_code normalize_entry normalize_entries
    ensure_parent_metric limit_child limit_children limit_children_to_parent ensure_parents
    normalize_metered_relationships normalize_metered_usage insert_sorted sort_components add_line
    charge_lines at_least calculate_metered_charge_for_tier factor_charge multiplier_charge
    normalize_upstream_cost_discount calculate_upstream_cost priceable prepare_reservation_metrics
    normalize_metering_mode legacy_price_components component_codes without_codes
    price_components_for has_positive_quantity first_positive_metric project_usage
    customer_metering_usage customer_metering_usage_with_estimate apply_metering_price
    price_allows_zero_usage effective_quantity released_row release_held on_held release_reservation
    fail pending_row mark_settlement_pending stored covers after_hold pending_amount
    within_spend_limit prepaid_account request_row reservation_row write_hold place_hold
    customer_quote checked_quote reserve valid_usage_source complete_meter merged_metrics
    usage_metric_int normalize_usage usage_metrics_for settlement_pricing_tier settlement_price
    customer_charge settlement_upstream_cost settled_row write_settlement settle_open by_status
    settle parse_direction positive_amount moved open_account write_credit apply_credit
    normalize_group_multiplier valid_request request_metrics_for first_price resolve_official_price
    resolve_price resolve_upstream_price customer_estimate upstream_estimate add_to_system
    post_charge factor_lines relay_chat chat_loop end_loop try_channel admit reserve_first bind
    call_upstream bill_answer complete billed_answer complete_relay_billing settle_reservation
    with_defaults with_total chat_usage_has_values chat_usage_is_complete billing_breakdown input_of
    output_of cached_of chat_billing_usage metered_usage parts_of clamp_usage_parts
    record_channel_success canonical_provider billing_service pick_weighted_channel pick_from
    by_weight pool_of max_priority channel_key chat_response_has_output retryable_upstream_error
    chat_completions admitted resolve_group_policy within_rpm model_allowed
chat_run = refl

chat_completions-IsBilled_example :
    IsBilled biller
      (IsBooked catalog fresh (λ c. request) (λ c. 5) others)
      (billing_service-IsLawful catalog fresh (λ c. request) (λ c. 5) others)
      line
      (chat_completions biller line last_of gate (some principal) false credited).0
chat_completions-IsBilled_example =
    chat_completions-IsBilled biller (IsBooked catalog fresh (λ c. request) (λ c. 5) others)
      (billing_service-IsLawful catalog fresh (λ c. request) (λ c. 5) others) line last_of gate
      principal policy false credited
      (record answer { usage = record answer.usage { total_tokens = pos 15 } }) paying chat_run

chat_loop-ends_example :
    let ended =
      chat_loop biller line last_of
        (suc (length candidates))
        candidates
        (nothing_tried biller line last_of credited) in
    (runs_out ended.1 ≡ false)
    × Distinct ended.0.attempted
    × (length ended.0.attempted ≤ length candidates)
chat_loop-ends_example = chat_loop-ends biller line last_of candidates credited

-- More cached audio than there is cached, and more reasoning than there are answer tokens.
abbrev report : ChatUsage
report = record no_usage {
  prompt_tokens = pos 10;
  completion_tokens = pos 3;
  prompt_details = some (record {
    cached_tokens = pos 4;
    audio_tokens = pos 8;
    image_tokens = pos 0;
    video_tokens = pos 0;
    cached_audio_tokens = pos 6;
    cached_image_tokens = pos 0;
    cached_video_tokens = pos 0;
  });
  completion_details = some (record {
    reasoning_tokens = pos 5;
    audio_tokens = pos 1;
    image_tokens = pos 0;
    video_tokens = pos 0;
  });
}

parts_of-fit_example :
    let p = parts_of report in
    (p.input_audio + p.input_image + p.input_video ≤ pos_part p.input)
    × (p.output_audio + p.output_image + p.output_video ≤ pos_part p.output)
    × (p.cached_audio + p.cached_image + p.cached_video ≤ pos_part p.cached)
    × (pos_part p.cached ≤ pos_part p.input)
    × (pos_part p.reasoning ≤ pos_part p.output)
parts_of-fit_example = parts_of-fit report
