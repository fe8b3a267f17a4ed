-- ===== src/Ledger/Reported.antt =====
-- The usage that a settlement is given, in internal/billing/service.go: `Usage`, `normalizeUsage`,
-- `usageMetricInt` and `validUsageSource`, and `usageMetricsFor` of internal/billing/metering_sql.go.
use Prim.Native.String.{String}
use model_bridge.Base.{
  ℕ, ◌/◌, ◌%◌, [], ◌∷◌, none, some, Bool, ◌&&◌, ◌||◌, ltb, ◌==◌, if◌then◌else◌, not,
}
use model_bridge.Base.Int.{ℤ, pos, is_positive, min_ℤ}
use model_bridge.Base.Texts.{str_eq, trim_space, lookup, insert}
use model_bridge.Base.Results.{ok, err}
use model_bridge.Metering.Defs.{MeteredUsage, Quantities, one, as_usage}
use model_bridge.Metering.Usage.{quantity_of, normalize_metered_usage}
use model_bridge.Metering.Select.{is_zero_amount}
use model_bridge.Metering.Modes.{is_empty_usage}
use model_bridge.Ledger.Quote.{token_count}

-- `Usage`
pub record Usage : Type 0 where
  pub input_tokens : ℤ
  pub output_tokens : ℤ
  pub cached_input_tokens : ℤ
  pub reasoning_tokens : ℤ
  pub metrics : MeteredUsage
  pub pricing_tier : String
  pub source : String

-- `validUsageSource`
unfoldable pub valid_usage_source : String → Bool
valid_usage_source source =
    let s = trim_space source in
    str_eq s "" || str_eq s "upstream" || str_eq s "local_estimate" || str_eq s "reconciliation"

-- A legacy count completes a meter that is missing or zero.
unfoldable pub complete_meter : String → ℤ → MeteredUsage → MeteredUsage
complete_meter c n metrics = if not (is_positive n) then metrics else elim (lookup c metrics) [
  | none ↦ insert c (token_count n) metrics
  | some current ↦ if is_zero_amount current then insert c (token_count n) metrics else metrics
]

unfoldable pub merged_metrics : Usage → MeteredUsage
merged_metrics u = complete_meter "reasoning_tokens" u.reasoning_tokens (
    complete_meter "cached_input_tokens" u.cached_input_tokens (
      complete_meter "output_tokens" u.output_tokens
        (complete_meter "input_tokens" u.input_tokens u.metrics)))

-- `usageMetricInt`: a whole quantity below 2^63.
unfoldable pub usage_metric_int : Quantities → String → ℕ
usage_metric_int u c =
    let q = quantity_of u c in
    if q % one == 0 && ltb (q / one) 9223372036854775808 then q / one else 0

abbrev positive_or : ℕ → ℤ → ℤ
positive_or new old = if ltb 0 new then pos new else old

-- `normalizeUsage`
unfoldable pub normalize_usage : Usage → Usage
normalize_usage u =
    let named = if str_eq (trim_space u.source) "" then record u { source = "upstream" } else u in
    let merged : Usage = elim (normalize_metered_usage (merged_metrics u)) [
      | err e ↦ named
      | ok [] ↦ named
      | ok (m ∷ ms) ↦ record named {
        metrics = as_usage (m ∷ ms);
        input_tokens = positive_or (usage_metric_int (m ∷ ms) "input_tokens") u.input_tokens;
        output_tokens = positive_or (usage_metric_int (m ∷ ms) "output_tokens") u.output_tokens;
        cached_input_tokens =
            positive_or (usage_metric_int (m ∷ ms) "cached_input_tokens") u.cached_input_tokens;
        reasoning_tokens =
            positive_or (usage_metric_int (m ∷ ms) "reasoning_tokens") u.reasoning_tokens;
      }
    ] in
    record merged {
      cached_input_tokens = min_ℤ merged.cached_input_tokens merged.input_tokens;
      reasoning_tokens = min_ℤ merged.reasoning_tokens merged.output_tokens;
    }

-- `usageMetricsFor`, with `usageFromLegacy`.
unfoldable pub usage_metrics_for : Usage → MeteredUsage
usage_metrics_for u =
    let n = normalize_usage u in
    if is_empty_usage n.metrics
    then ("input_tokens", token_count n.input_tokens)
      ∷ ("output_tokens", token_count n.output_tokens)
      ∷ ("cached_input_tokens", token_count n.cached_input_tokens)
      ∷ ("reasoning_tokens", token_count n.reasoning_tokens)
      ∷ []
    else n.metrics
