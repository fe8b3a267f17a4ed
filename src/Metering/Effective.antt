-- ===== src/Metering/Effective.antt =====
-- `effectiveQuantity` of internal/billing/metering.go, and what it gives to each family of meters.
use Prim.Native.String.{String}
use model_bridge.Base.{ℕ, ◌-◌, ◌≡◌, List, ◌∷◌, ◌++◌, if◌then◌else◌, sum_by, arith}
use model_bridge.Base.Texts.{str_eq}
use model_bridge.Metering.Defs.{Quantities}
use model_bridge.Metering.Usage.{
  quantity_of, input_children, output_children, audio_children, image_children, video_children,
  normalize_metered_relationships,
}
use model_bridge.Metering.Disjoint.{IsDisjoint, normalize_metered_relationships-IsDisjoint}

-- What is left of a meter once its details are priced under their own codes; a negative rest
-- counts as zero, as the subtraction of natural numbers does.
unfoldable pub effective_quantity : String → Quantities → ℕ
effective_quantity c u =
    if str_eq c "input_tokens"
    then q "input_tokens"
      - q "cached_input_tokens"
      - q "cache_creation_tokens"
      - q "cache_creation_1h_tokens"
      - q "input_audio_tokens"
      - q "input_image_tokens"
      - q "input_video_tokens"
    else if str_eq c "output_tokens"
    then q "output_tokens"
      - q "reasoning_tokens"
      - q "output_audio_tokens"
      - q "output_image_tokens"
      - q "output_video_tokens"
    else if str_eq c "input_audio_tokens"
    then q "input_audio_tokens" - q "cache_creation_audio_tokens" - q "cached_audio_tokens"
    else if str_eq c "input_image_tokens"
    then q "input_image_tokens" - q "cached_image_tokens"
    else if str_eq c "input_video_tokens"
    then q "input_video_tokens" - q "cached_video_tokens"
    else q c
  where
    q : String → ℕ
    q = quantity_of u

-- The meters among which the tokens of a prompt are divided, and those of an answer.
abbrev pub input_family : List String
input_family = "input_tokens" ∷ input_children ++ audio_children ++ image_children ++ video_children

abbrev pub output_family : List String
output_family = "output_tokens" ∷ output_children

-- Of a disjoint usage, the priced quantities of a family add up to its total.
pub effective-conserves :
    (u : Quantities)
    → IsDisjoint u
    → (sum_by (λ c. effective_quantity c u) input_family ≡ quantity_of u "input_tokens")
      × (sum_by (λ c. effective_quantity c u) output_family ≡ quantity_of u "output_tokens")
unfolding effective_quantity
effective-conserves u d =
    (omega (arith, d.input, d.audio, d.image, d.video), omega (arith, d.output))

-- Every prompt token and every answer token of a normalised usage is priced exactly once: the
-- quantities that the meters of a family are charged for add up to the family's total.
pub effective_quantity-normalize :
    (u : Quantities)
    → let n = normalize_metered_relationships u in
      (sum_by (λ c. effective_quantity c n) input_family ≡ quantity_of n "input_tokens")
      × (sum_by (λ c. effective_quantity c n) output_family ≡ quantity_of n "output_tokens")
effective_quantity-normalize u =
    effective-conserves (normalize_metered_relationships u)
      (normalize_metered_relationships-IsDisjoint u)
