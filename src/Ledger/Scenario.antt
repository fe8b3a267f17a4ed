-- ===== src/Ledger/Scenario.antt =====
-- Concrete rows of internal/billing/service.go, and what its operations make of them.
use model_bridge.Base.{ℕ, ◌*◌, ◌≡◌, refl, [], ◌∷◌, Option, some, none, true, false}
use model_bridge.Base.Int.{◌+ℤ◌, ◌-ℤ◌, pos}
use model_bridge.Base.Results.{ok}
use model_bridge.Base.Texts.{
  trim_suffix, is_space, trim_left, keep_unless_blank, trim_right, trim_space,
}
use model_bridge.Ledger.Credit.{
  parse_direction, positive_amount, moved, open_account, write_credit, apply_credit, CreditRequest,
}
use model_bridge.Ledger.Posting.{add_to_system, post_charge}
use model_bridge.Ledger.Quote.{
  normalize_group_multiplier, valid_request, request_metrics_for, first_price,
  resolve_official_price, resolve_price, resolve_upstream_price, customer_estimate,
  upstream_estimate, Request, Scope, Catalog,
}
use model_bridge.Ledger.Release.{
  released_row, release_held, on_held, release_reservation, fail, pending_row,
  mark_settlement_pending, Target,
}
use model_bridge.Ledger.Reserve.{
  stored, covers, after_hold, pending_amount, within_spend_limit, prepaid_account, request_row,
  reservation_row, write_hold, place_hold, customer_quote, checked_quote, reserve, Fresh,
}
use model_bridge.Ledger.Reported.{
  valid_usage_source, complete_meter, merged_metrics, usage_metric_int, normalize_usage,
  usage_metrics_for, Usage,
}
use model_bridge.Ledger.Settle.{
  settlement_pricing_tier, settlement_price, customer_charge, settlement_upstream_cost, settled_row,
  write_settlement, settle_open, by_status, settle, or_invalid,
}
use model_bridge.Ledger.State.{
  Account, ModelRequest, RequestStatus, Direction, Owner, TransactionKey, ApiToken, Reservation,
  ReservationStatus, Database,
}
use model_bridge.Metering.Charge.{
  insert_sorted, sort_components, add_line, charge_lines, at_least,
  calculate_metered_charge_for_tier, factor_charge, multiplier_charge,
  normalize_upstream_cost_discount, calculate_upstream_cost, priceable, prepare_reservation_metrics,
  factor_lines,
}
use model_bridge.Metering.Defs.{
  rat_decimal, valid_metered_decimal, as_usage, Decimal, Quantities, one,
}
use model_bridge.Metering.Effective.{effective_quantity}
use model_bridge.Metering.Modes.{
  normalize_metering_mode, legacy_price_components, component_codes, without_codes,
  price_components_for, has_positive_quantity, first_positive_metric, project_usage,
  customer_metering_usage, customer_metering_usage_with_estimate, apply_metering_price,
  price_allows_zero_usage, Price, MeteringMode,
}
use model_bridge.Metering.Select.{
  to_lower, normalize_pricing_tier, component_base_code, has_component_for_tier,
  add_implicit_request_metric, file_component, components_by_code, parent_meter, own_component,
  component_within, component_for_meter, base_codes, select_codes, select_metered_components,
}
use model_bridge.Metering.Tiers.{
  context_amount, tier_upper, add_tier, graduated_loop, final_price, add_excess, tiers_amount,
  tiered_amount,
}
use model_bridge.Metering.Usage.{
  valid_component_code, normalize_entry, normalize_entries, ensure_parent_metric, limit_child,
  limit_children, limit_children_to_parent, ensure_parents, normalize_metered_relationships,
  normalize_metered_usage,
}

abbrev pub price : Price
price = record {
  currency = "USD";
  is_official = false;
  input_price = Decimal.amount (2 * one);
  output_price = Decimal.amount (5 * one);
  cached_input_price = Decimal.amount 0;
  cache_creation_price = Decimal.amount 0;
  reasoning_price = Decimal.amount 0;
  minimum_charge = Decimal.amount 0;
  components = [];
}

abbrev pub default_price : Scope → ℕ → Option Price
default_price (Scope.token_scope t) model = none
default_price (Scope.project_scope p) model = none
default_price (Scope.tenant_scope t) model = none
default_price Scope.platform_default model = some price

abbrev pub catalog : Catalog
catalog = record {
  tenant_currency = λ tenant. some "USD";
  model_id = λ provider model. some 9;
  manual_price = default_price;
  official_price = λ model. none;
  channel_target = λ channel model.
      some (record { model_id = model; upstream_cost_discount = Decimal.amount one });
}

-- A prompt of ten tokens and an answer of at most four, in a group that doubles the price.
abbrev pub request : Request
request = record {
  request_id = "r-1";
  idempotency_key = "key-1";
  tenant_id = some 1;
  project_id = some 2;
  token_id = some 3;
  channel_id = some 4;
  model = "m";
  provider = "p";
  group_multiplier = Decimal.amount (2 * one);
  multiplier_digits = 0;
  metering_mode = "token";
  metering_price = Decimal.blank;
  upstream_cost_discount = Decimal.blank;
  estimated_input_tokens = pos 10;
  estimated_output_tokens = pos 4;
  estimated_metrics = [];
  pricing_tier = "";
  endpoint = "/v1/chat/completions";
  client_ip = "192.0.2.1";
  request_type = "";
  reasoning_effort = "";
  billing_type = "";
}

abbrev pub fresh : Fresh
fresh = record { model_request_id = 6; reservation_id = 7; now = 1000 }

abbrev pub again : Fresh
again = record { model_request_id = 16; reservation_id = 17; now = 1001 }

abbrev pub token : ApiToken
token = record { usable = true; spend_limit = 200 * one; spent_amount = 0 }

abbrev pub usage : Usage
usage = record {
  input_tokens = pos 12;
  output_tokens = pos 3;
  cached_input_tokens = pos 0;
  reasoning_tokens = pos 0;
  metrics = [];
  pricing_tier = "";
  source = "upstream";
}

abbrev pub top_up : CreditRequest
top_up = record {
  tenant_id = some 1;
  currency = "USD";
  amount = Decimal.amount (100 * one);
  idempotency_key = "top-up";
  reason = "invoice 17";
  direction = "";
}

abbrev pub take_back : CreditRequest
take_back = record top_up {
  idempotency_key = "take back";
  direction = "debit";
  amount = Decimal.amount one;
}

-- A tenant with a token and no account.
abbrev pub start : Database
start = record {
  accounts = [];
  reservations = [];
  requests = [];
  tokens = (3, token) ∷ [];
  transactions = [];
  lines = [];
  system_balances = [];
}

abbrev pub account : ℕ → Account
account balance = record { tenant_id = 1; currency = "USD"; active = true; balance = pos balance }

abbrev pub credited : Database
credited = record start {
  accounts = (1, account (100 * one)) ∷ [];
  transactions = TransactionKey.client_key "top-up" ∷ [];
  lines =
      record {
        key = TransactionKey.client_key "top-up";
        owner = Owner.tenant_account 1;
        direction = Direction.credit;
        amount = 100 * one;
      }
      ∷ record {
        key = TransactionKey.client_key "top-up";
        owner = Owner.system_account "system:topup:USD";
        direction = Direction.debit;
        amount = 100 * one;
      }
      ∷ [];
  system_balances = ("system:topup:USD", pos (100 * one)) ∷ [];
}

abbrev pub meters : ℕ → ℕ → Quantities
meters input output =
    ("input_tokens", input * one)
    ∷ ("output_tokens", output * one)
    ∷ ("cached_input_tokens", 0)
    ∷ ("reasoning_tokens", 0)
    ∷ []

abbrev pub held_row : Reservation
held_row = record {
  request_id = 6;
  account_id = 1;
  reserved_amount = 80 * one;
  settled_amount = 0;
  released_amount = 0;
  currency = "USD";
  status = ReservationStatus.held;
  expires_at = 1600;
  estimated_metrics = meters 10 4;
  estimated_upstream_metrics = meters 10 4;
}

abbrev pub started_row : ModelRequest
started_row = record {
  request_id = "r-1";
  tenant_id = 1;
  project_id = 2;
  model_id = 9;
  channel_id = some 4;
  idempotency_key = "key-1";
  token_id = 3;
  status = RequestStatus.started;
  estimated_amount = 80 * one;
  settled_amount = 0;
  estimated_upstream_cost = 40 * one;
  upstream_cost = 0;
  group_multiplier = 2000000;
  metering_mode = MeteringMode.token;
  metering_price = Decimal.blank;
  upstream_cost_discount = Decimal.amount one;
  pricing_tier = "";
  price = price;
  upstream_price = price;
  failure_reason = "";
  usage_metrics = [];
}

abbrev pub reserved : Database
reserved = record credited {
  accounts = (1, account (20 * one)) ∷ [];
  reservations = (7, held_row) ∷ [];
  requests = (6, started_row) ∷ [];
}

abbrev pub settled_reservation : Reservation
settled_reservation = record held_row {
  settled_amount = 78 * one;
  released_amount = 2 * one;
  status = ReservationStatus.settled;
}

abbrev pub settled : Database
settled = record credited {
  accounts = (1, account (22 * one)) ∷ [];
  reservations = (7, settled_reservation) ∷ [];
  requests =
      (
        6,
        record started_row {
          status = RequestStatus.settled;
          settled_amount = 78 * one;
          upstream_cost = 39 * one;
          usage_metrics = ("input_tokens", 12 * one) ∷ ("output_tokens", 3 * one) ∷ [];
        },
      )
      ∷ [];
  tokens = (3, record token { spent_amount = 78 * one }) ∷ [];
  transactions = TransactionKey.charge_key 6 ∷ credited.transactions;
  lines =
      record {
        key = TransactionKey.charge_key 6;
        owner = Owner.tenant_account 1;
        direction = Direction.debit;
        amount = 78 * one;
      }
      ∷ record {
        key = TransactionKey.charge_key 6;
        owner = Owner.system_account "system:revenue:USD";
        direction = Direction.credit;
        amount = 78 * one;
      }
      ∷ credited.lines;
  system_balances =
      ("system:topup:USD", pos (100 * one)) ∷ ("system:revenue:USD", pos (78 * one)) ∷ [];
}

abbrev pub released : Database
released = record credited {
  reservations =
      (7, record held_row { released_amount = 80 * one; status = ReservationStatus.released }) ∷ [];
  requests =
      (6, record started_row { status = RequestStatus.failed; failure_reason = "upstream_error" })
      ∷ [];
}

abbrev pub pended : Database
pended = record reserved {
  reservations = (7, record held_row { status = ReservationStatus.pending }) ∷ [];
  requests =
      (
        6,
        record started_row {
          status = RequestStatus.settlement_pending;
          failure_reason = "usage_missing";
        },
      )
      ∷ [];
}

pub credit_run : apply_credit catalog 1 top_up start ≡ ok (pos (100 * one), credited)
unfolding apply_credit parse_direction to_lower trim_space trim_left trim_right keep_unless_blank
    positive_amount valid_metered_decimal open_account prepaid_account write_credit moved ◌+ℤ◌ ◌-ℤ◌
    add_to_system
credit_run = refl

pub reserve_run : reserve catalog fresh request credited ≡ ok (7, reserved)
unfolding ◌+ℤ◌ ◌-ℤ◌ trim_suffix is_space trim_left keep_unless_blank trim_right trim_space to_lower
    normalize_pricing_tier component_base_code has_component_for_tier add_implicit_request_metric
    file_component components_by_code parent_meter own_component component_within
    component_for_meter base_codes select_codes select_metered_components rat_decimal
    valid_metered_decimal as_usage context_amount tier_upper add_tier graduated_loop final_price
    add_excess tiers_amount tiered_amount valid_component_code normalize_entry normalize_entries
    ensure_parent_metric limit_child limit_children limit_children_to_parent ensure_parents
    normalize_metered_relationships normalize_metered_usage insert_sorted sort_components add_line
    charge_lines at_least calculate_metered_charge_for_tier factor_charge multiplier_charge
    normalize_upstream_cost_discount calculate_upstream_cost priceable prepare_reservation_metrics
    normalize_metering_mode legacy_price_components component_codes without_codes
    price_components_for has_positive_quantity first_positive_metric project_usage
    customer_metering_usage customer_metering_usage_with_estimate apply_metering_price
    price_allows_zero_usage effective_quantity released_row release_held on_held release_reservation
    fail pending_row mark_settlement_pending stored covers after_hold pending_amount
    within_spend_limit prepaid_account request_row reservation_row write_hold place_hold
    customer_quote checked_quote reserve valid_usage_source complete_meter merged_metrics
    usage_metric_int normalize_usage usage_metrics_for settlement_pricing_tier settlement_price
    customer_charge settlement_upstream_cost settled_row write_settlement settle_open by_status
    settle parse_direction positive_amount moved open_account write_credit apply_credit
    normalize_group_multiplier valid_request request_metrics_for first_price resolve_official_price
    resolve_price resolve_upstream_price customer_estimate upstream_estimate add_to_system
    post_charge factor_lines
reserve_run = refl

pub settle_run : settle 7 usage reserved ≡ ok (tt, settled)
unfolding ◌+ℤ◌ ◌-ℤ◌ trim_suffix is_space trim_left keep_unless_blank trim_right trim_space to_lower
    normalize_pricing_tier component_base_code has_component_for_tier add_implicit_request_metric
    file_component components_by_code parent_meter own_component component_within
    component_for_meter base_codes select_codes select_metered_components rat_decimal
    valid_metered_decimal as_usage context_amount tier_upper add_tier graduated_loop final_price
    add_excess tiers_amount tiered_amount valid_component_code normalize_entry normalize_entries
    ensure_parent_metric limit_child limit_children limit_children_to_parent ensure_parents
    normalize_metered_relationships normalize_metered_usage insert_sorted sort_components add_line
    charge_lines at_least calculate_metered_charge_for_tier factor_charge multiplier_charge
    normalize_upstream_cost_discount calculate_upstream_cost priceable prepare_reservation_metrics
    normalize_metering_mode legacy_price_components component_codes without_codes
    price_components_for has_positive_quantity first_positive_metric project_usage
    customer_metering_usage customer_metering_usage_with_estimate apply_metering_price
    price_allows_zero_usage effective_quantity released_row release_held on_held release_reservation
    fail pending_row mark_settlement_pending stored covers after_hold pending_amount
    within_spend_limit prepaid_account request_row reservation_row write_hold place_hold
    customer_quote checked_quote reserve valid_usage_source complete_meter merged_metrics
    usage_metric_int normalize_usage usage_metrics_for settlement_pricing_tier settlement_price
    customer_charge settlement_upstream_cost settled_row write_settlement settle_open by_status
    settle parse_direction positive_amount moved open_account write_credit apply_credit
    normalize_group_multiplier valid_request request_metrics_for first_price resolve_official_price
    resolve_price resolve_upstream_price customer_estimate upstream_estimate add_to_system
    post_charge factor_lines
settle_run = refl

pub release_run :
    release_reservation 7 "upstream_error" Target.to_released reserved ≡ ok (tt, released)
unfolding release_reservation on_held release_held released_row trim_space trim_left trim_right
    keep_unless_blank ◌+ℤ◌
release_run = refl

pub mark_run : mark_settlement_pending 7 "usage_missing" none reserved ≡ ok (tt, pended)
unfolding mark_settlement_pending by_status pending_row trim_space trim_left trim_right
    keep_unless_blank
mark_run = refl

-- A debit, at a database without other rows.
abbrev pub debited : Database
debited = record credited {
  accounts = (1, account (99 * one)) ∷ [];
  transactions = TransactionKey.client_key "take back" ∷ credited.transactions;
  lines =
      record {
        key = TransactionKey.client_key "take back";
        owner = Owner.tenant_account 1;
        direction = Direction.debit;
        amount = one;
      }
      ∷ record {
        key = TransactionKey.client_key "take back";
        owner = Owner.system_account "system:topup:USD";
        direction = Direction.credit;
        amount = one;
      }
      ∷ credited.lines;
  system_balances = ("system:topup:USD", pos (101 * one)) ∷ [];
}

pub debit_run : apply_credit catalog 1 take_back credited ≡ ok (pos (99 * one), debited)
unfolding apply_credit parse_direction to_lower trim_space trim_left trim_right keep_unless_blank
    positive_amount valid_metered_decimal open_account prepaid_account write_credit moved ◌+ℤ◌ ◌-ℤ◌
    add_to_system
debit_run = refl

pub usage-metrics :
    or_invalid (normalize_metered_usage (usage_metrics_for (normalize_usage usage)))
    ≡ ok (("input_tokens", 12 * one) ∷ ("output_tokens", 3 * one) ∷ [])
unfolding ◌+ℤ◌ ◌-ℤ◌ trim_suffix is_space trim_left keep_unless_blank trim_right trim_space to_lower
    normalize_pricing_tier component_base_code has_component_for_tier add_implicit_request_metric
    file_component components_by_code parent_meter own_component component_within
    component_for_meter base_codes select_codes select_metered_components rat_decimal
    valid_metered_decimal as_usage context_amount tier_upper add_tier graduated_loop final_price
    add_excess tiers_amount tiered_amount valid_component_code normalize_entry normalize_entries
    ensure_parent_metric limit_child limit_children limit_children_to_parent ensure_parents
    normalize_metered_relationships normalize_metered_usage insert_sorted sort_components add_line
    charge_lines at_least calculate_metered_charge_for_tier factor_charge multiplier_charge
    normalize_upstream_cost_discount calculate_upstream_cost priceable prepare_reservation_metrics
    normalize_metering_mode legacy_price_components component_codes without_codes
    price_components_for has_positive_quantity first_positive_metric project_usage
    customer_metering_usage customer_metering_usage_with_estimate apply_metering_price
    price_allows_zero_usage effective_quantity released_row release_held on_held release_reservation
    fail pending_row mark_settlement_pending stored covers after_hold pending_amount
    within_spend_limit prepaid_account request_row reservation_row write_hold place_hold
    customer_quote checked_quote reserve valid_usage_source complete_meter merged_metrics
    usage_metric_int normalize_usage usage_metrics_for settlement_pricing_tier settlement_price
    customer_charge settlement_upstream_cost settled_row write_settlement settle_open by_status
    settle parse_direction positive_amount moved open_account write_credit apply_credit
    normalize_group_multiplier valid_request request_metrics_for first_price resolve_official_price
    resolve_price resolve_upstream_price customer_estimate upstream_estimate add_to_system
    post_charge factor_lines
usage-metrics = refl

pub upstream-valid : valid_usage_source "upstream" ≡ true
unfolding valid_usage_source trim_space trim_left trim_right keep_unless_blank
upstream-valid = refl

pub two : normalize_group_multiplier (Decimal.amount (2 * one)) 0 ≡ ok 2000000
unfolding normalize_group_multiplier valid_metered_decimal
two = refl
