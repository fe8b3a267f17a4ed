-- ===== src/Relay/Parts.antt =====
-- The parts of a report in internal/relay/types.go never exceed their totals.
use model_bridge.Base.{◌+◌, ◌≤◌, ◌≡◌, arith, Bool-cases, inl, inr, min}
use model_bridge.Base.Int.{ℤ, pos, pos_part, leb_ℤ, is_positive, min_ℤ}
use model_bridge.Base.Int64.{◌+64◌}
use model_bridge.Relay.Reports.{
  ChatUsage, prompt_of, completion_of, input_of, output_of, cached_of, up_to, billing_breakdown,
  clamp_usage_parts, parts_of,
}

clamp_usage_parts-le :
    (total a b c : ℤ) → let r = clamp_usage_parts total a b c in r.0 + r.1 + r.2 ≤ pos_part total
unfolding clamp_usage_parts
clamp_usage_parts-le total a b c = omega arith

min_ℤ-le : (a b : ℤ) → pos_part (min_ℤ a b) ≤ pos_part b
min_ℤ-le a b = ground arith

pos_part-min_ℤ : (a b : ℤ) → pos_part (min_ℤ a b) ≡ min (pos_part a) (pos_part b)
pos_part-min_ℤ a b = ground arith

up_to-le : (total n : ℤ) → pos_part (up_to total n) ≤ pos_part total
up_to-le total n = elim (Bool-cases (is_positive n)) [
  | inl some_count ↦ rw some_count (min_ℤ-le n total)
  | inr no_count ↦ rw no_count (omega arith)
]

cached_of-le : (u : ChatUsage) → pos_part (cached_of u) ≤ pos_part (input_of u)
unfolding cached_of
cached_of-le u =
    let d = (prompt_of u.prompt_details).cached_tokens in
    elim (Bool-cases (leb_ℤ u.cache_read_input_tokens (up_to (input_of u) d))) [
      | inl less ↦ rw less (up_to-le (input_of u) d)
      | inr more ↦ rw more (min_ℤ-le u.cache_read_input_tokens (input_of u))
    ]

-- Whatever `int64` numbers an upstream reports as its counts, negative ones and sums that wrap around
-- included, the parts that are metered fit in their totals, where a negative total counts as
-- nothing: the modalities of the input in the input, those of the output in the output, the cached
-- modalities in the cached input, the cached input in the input, and the reasoning in the output.
pub parts_of-fit :
    (u : ChatUsage)
    → let p = parts_of u in
      (p.input_audio + p.input_image + p.input_video ≤ pos_part p.input)
      × (p.output_audio + p.output_image + p.output_video ≤ pos_part p.output)
      × (p.cached_audio + p.cached_image + p.cached_video ≤ pos_part p.cached)
      × (pos_part p.cached ≤ pos_part p.input)
      × (pos_part p.reasoning ≤ pos_part p.output)
unfolding parts_of billing_breakdown
parts_of-fit u =
    let p = prompt_of u.prompt_details in
    let c = completion_of u.completion_details in
    let cached =
      clamp_usage_parts (cached_of u) p.cached_audio_tokens p.cached_image_tokens
        p.cached_video_tokens in
    (
      clamp_usage_parts-le (input_of u) (p.audio_tokens +64 pos cached.0)
          (p.image_tokens +64 pos cached.1) (p.video_tokens +64 pos cached.2),
      clamp_usage_parts-le (output_of u) c.audio_tokens c.image_tokens c.video_tokens,
      omega (
        arith,
        clamp_usage_parts-le (cached_of u) p.cached_audio_tokens p.cached_image_tokens
            p.cached_video_tokens,
        cached_of-le u,
        pos_part-min_ℤ (cached_of u) (input_of u),
      ),
      min_ℤ-le (cached_of u) (input_of u),
      up_to-le (output_of u) c.reasoning_tokens,
    )
