-- ===== src/Relay/Reports.antt =====
-- `ChatUsage` of internal/relay/types.go: the token counts that an upstream reports, and the meters
-- that they become. Counts are `int64`.
use Prim.Native.String.{String}
use model_bridge.Base.{
  ℕ, ◌-◌, [], ◌∷◌, Bool, ◌&&◌, ◌||◌, not, if◌then◌else◌, Option, none, some, min,
}
use model_bridge.Base.Int.{ℤ, pos, pos_part, leb_ℤ, is_positive, min_ℤ}
use model_bridge.Base.Int64.{◌+64◌, ◌-64◌}
use model_bridge.Metering.Defs.{MeteredUsage}
use model_bridge.Ledger.Quote.{token_count}
use model_bridge.Metering.Modes.{is_empty_usage}

-- `ChatPromptTokensDetails`
pub record PromptDetails : Type 0 where
  pub cached_tokens : ℤ
  pub audio_tokens : ℤ
  pub image_tokens : ℤ
  pub video_tokens : ℤ
  pub cached_audio_tokens : ℤ
  pub cached_image_tokens : ℤ
  pub cached_video_tokens : ℤ

-- `ChatCompletionTokensDetails`
pub record CompletionDetails : Type 0 where
  pub reasoning_tokens : ℤ
  pub audio_tokens : ℤ
  pub image_tokens : ℤ
  pub video_tokens : ℤ

-- `ChatUsage`
pub record ChatUsage : Type 0 where
  pub prompt_tokens : ℤ
  pub completion_tokens : ℤ
  pub total_tokens : ℤ
  pub prompt_details : Option PromptDetails
  pub completion_details : Option CompletionDetails
  pub cache_creation_input_tokens : ℤ
  pub cache_creation_1h_input_tokens : ℤ
  pub cache_read_input_tokens : ℤ
  pub pricing_tier : String
  pub metrics : MeteredUsage

-- Details that are not there count nothing.
abbrev pub prompt_of : Option PromptDetails → PromptDetails
prompt_of (some d) = d
prompt_of none = record {
  cached_tokens = pos 0;
  audio_tokens = pos 0;
  image_tokens = pos 0;
  video_tokens = pos 0;
  cached_audio_tokens = pos 0;
  cached_image_tokens = pos 0;
  cached_video_tokens = pos 0;
}

abbrev pub completion_of : Option CompletionDetails → CompletionDetails
completion_of (some d) = d
completion_of none = record {
  reasoning_tokens = pos 0;
  audio_tokens = pos 0;
  image_tokens = pos 0;
  video_tokens = pos 0;
}

-- What is billed of a report.
pub record Breakdown : Type 0 where
  pub input_tokens : ℤ
  pub cached_input_tokens : ℤ
  pub output_tokens : ℤ
  pub reasoning_tokens : ℤ

-- The totals, from the details where there are some and no total.
unfoldable pub input_of : ChatUsage → ℤ
input_of u = elim u.prompt_details [
  | none ↦ u.prompt_tokens
  | some d ↦
      if is_positive u.prompt_tokens
      then u.prompt_tokens
      else d.cached_tokens +64 d.audio_tokens +64 d.image_tokens +64 d.video_tokens
]

unfoldable pub output_of : ChatUsage → ℤ
output_of u = elim u.completion_details [
  | none ↦ u.completion_tokens
  | some d ↦
      if is_positive u.completion_tokens
      then u.completion_tokens
      else d.reasoning_tokens +64 d.audio_tokens +64 d.image_tokens +64 d.video_tokens
]

-- A detail that counts something, up to its total.
abbrev pub up_to : ℤ → ℤ → ℤ
up_to total n = if is_positive n then min_ℤ n total else pos 0

-- The cached part: the detail, or the cache read where that is more; never more than the input.
unfoldable pub cached_of : ChatUsage → ℤ
cached_of u =
    let detail = up_to (input_of u) (prompt_of u.prompt_details).cached_tokens in
    if leb_ℤ u.cache_read_input_tokens detail
    then detail
    else min_ℤ u.cache_read_input_tokens (input_of u)

-- `billingBreakdown`
unfoldable pub billing_breakdown : ChatUsage → Breakdown
unfolding input_of output_of cached_of
billing_breakdown u = record {
  input_tokens = input_of u;
  cached_input_tokens = cached_of u;
  output_tokens = output_of u;
  reasoning_tokens = up_to (output_of u) (completion_of u.completion_details).reasoning_tokens;
}

-- What one part takes of the rest of a total that is not negative.
abbrev pub taken : ℕ → ℤ → ℕ
taken rest value = min (pos_part value) rest

-- `clampUsageParts`: each part that counts something takes what is left of the total.
unfoldable pub clamp_usage_parts : ℤ → ℤ → ℤ → ℤ → ℕ × ℕ × ℕ
clamp_usage_parts total a b c =
    let rest = pos_part total in
    let first = taken rest a in
    let second = taken (rest - first) b in
    let third = taken (rest - first - second) c in (first, second, third)

-- A meter that is set only where it counts something.
abbrev pub if_any : String → ℤ → MeteredUsage → MeteredUsage
if_any meter n rest = if is_positive n then (meter, token_count n) ∷ rest else rest

-- The parts of a report that its meters are made of. Those that are clamped are not negative.
pub record Parts : Type 0 where
  pub input : ℤ
  pub cached : ℤ
  pub output : ℤ
  pub reasoning : ℤ
  pub cached_audio : ℕ
  pub cached_image : ℕ
  pub cached_video : ℕ
  pub input_audio : ℕ
  pub input_image : ℕ
  pub input_video : ℕ
  pub output_audio : ℕ
  pub output_image : ℕ
  pub output_video : ℕ

unfoldable pub parts_of : ChatUsage → Parts
unfolding billing_breakdown clamp_usage_parts
parts_of u =
    let b = billing_breakdown u in
    let p = prompt_of u.prompt_details in
    let c = completion_of u.completion_details in
    let cached =
      clamp_usage_parts b.cached_input_tokens p.cached_audio_tokens p.cached_image_tokens
        p.cached_video_tokens in
    let inputs =
      clamp_usage_parts b.input_tokens (p.audio_tokens +64 pos cached.0)
        (p.image_tokens +64 pos cached.1) (p.video_tokens +64 pos cached.2) in
    let outputs = clamp_usage_parts b.output_tokens c.audio_tokens c.image_tokens c.video_tokens in
    record {
      input = b.input_tokens;
      cached = min_ℤ b.cached_input_tokens b.input_tokens;
      output = b.output_tokens;
      reasoning = b.reasoning_tokens;
      cached_audio = cached.0;
      cached_image = cached.1;
      cached_video = cached.2;
      input_audio = inputs.0;
      input_image = inputs.1;
      input_video = inputs.2;
      output_audio = outputs.0;
      output_image = outputs.1;
      output_video = outputs.2;
    }

-- A difference of counts, where it is not negative.
abbrev pub left_of : ℤ → ℤ
left_of n = pos (pos_part n)

-- The cached tokens that are of no modality.
abbrev pub generic_cached : Parts → ℤ
generic_cached p =
    left_of (p.cached -64 pos p.cached_audio -64 pos p.cached_image -64 pos p.cached_video)

-- What is left of the cache that was written for no hour, where any cache was written.
abbrev pub cache_creation : ChatUsage → ℤ
cache_creation u =
    if is_positive u.cache_creation_input_tokens
    then left_of (u.cache_creation_input_tokens -64 u.cache_creation_1h_input_tokens)
    else pos 0

-- `meteredUsage`: what the upstream metered itself, or the meters of the parts.
unfoldable pub metered_usage : ChatUsage → MeteredUsage
metered_usage u =
    let p = parts_of u in
    if not (is_empty_usage u.metrics)
    then u.metrics
    else ("input_tokens", token_count p.input)
      ∷ ("output_tokens", token_count p.output)
      ∷ ("cached_input_tokens", token_count (generic_cached p))
      ∷ ("reasoning_tokens", token_count p.reasoning)
      ∷ if_any "input_audio_tokens" (pos p.input_audio) (
          if_any "output_audio_tokens" (pos p.output_audio) (
            if_any "input_image_tokens" (pos p.input_image) (
              if_any "output_image_tokens" (pos p.output_image) (
                if_any "input_video_tokens" (pos p.input_video) (
                  if_any "output_video_tokens" (pos p.output_video) (
                    if_any "cache_creation_tokens" (cache_creation u) (
                      if_any "cache_creation_1h_tokens" u.cache_creation_1h_input_tokens (
                        if_any "cached_audio_tokens" (pos p.cached_audio) (
                          if_any "cached_image_tokens" (pos p.cached_image)
                            (if_any "cached_video_tokens" (pos p.cached_video) []))))))))))

abbrev pub any_prompt_detail : PromptDetails → Bool
any_prompt_detail d =
    is_positive d.cached_tokens
    || is_positive d.audio_tokens
    || is_positive d.image_tokens
    || is_positive d.video_tokens

abbrev pub any_completion_detail : CompletionDetails → Bool
any_completion_detail d =
    is_positive d.reasoning_tokens
    || is_positive d.audio_tokens
    || is_positive d.image_tokens
    || is_positive d.video_tokens

-- `chatUsageHasValues`
unfoldable pub chat_usage_has_values : ChatUsage → Bool
chat_usage_has_values u =
    is_positive u.prompt_tokens
    || is_positive u.completion_tokens
    || is_positive u.cache_creation_input_tokens
    || is_positive u.cache_creation_1h_input_tokens
    || is_positive u.cache_read_input_tokens
    || any_prompt_detail (prompt_of u.prompt_details)
    || any_completion_detail (completion_of u.completion_details)

-- `chatUsageIsComplete`
unfoldable pub chat_usage_is_complete : ChatUsage → Bool → Bool
chat_usage_is_complete u has_output =
    let b = billing_breakdown u in
    is_positive b.input_tokens && (not has_output || is_positive b.output_tokens)
