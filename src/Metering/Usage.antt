-- ===== src/Metering/Usage.antt =====
-- `normalizeMeteredUsage` and the parent and child meters of internal/billing/metering.go.
use Prim.Native.String.{String}
use Prim.Native.Char.{code}
use model_bridge.Base.{
  ℕ, suc, ◌-◌, min, Bool, true, false, ◌&&◌, ◌||◌, not, List, [], ◌∷◌, leb, ltb, ◌==◌,
  if◌then◌else◌, or_else, is_some, sum_by,
}
use model_bridge.Base.Texts.{str_eq, trim_space, lookup, insert}
use model_bridge.Base.Results.{ok, err, ◌>>=◌}
use model_bridge.Metering.Defs.{
  Decimal, MeteredUsage, Quantities, MeteringError, Checked, valid_metered_decimal,
}

-- `rationalValue(usage[code])`: a missing meter counts as zero.
abbrev pub quantity_of : Quantities → String → ℕ
quantity_of u c = or_else (lookup c u) 0

abbrev pub text_length : String → ℕ
text_length String.[] = 0
text_length (String.◌∷◌ c s) = suc (text_length s)

abbrev pub is_lower : ℕ → Bool
is_lower n = leb b'a' n && leb n b'z'

abbrev pub is_code_char : ℕ → Bool
is_code_char n = is_lower n || (leb b'0' n && leb n b'9') || n == b'_'

abbrev pub all_code_chars : String → Bool
all_code_chars String.[] = true
all_code_chars (String.◌∷◌ c s) = is_code_char (code c) && all_code_chars s

-- `validComponentCode`. The built-in table adds nothing: each of its codes has this form.
unfoldable pub valid_component_code : String → Bool
valid_component_code String.[] = false
valid_component_code (String.◌∷◌ c s) =
    leb (text_length s) 127 && is_lower (code c) && all_code_chars s

-- The body of the loop of `normalizeMeteredUsage`.
unfoldable pub normalize_entry : Quantities → String → Decimal → Checked Quantities
normalize_entry acc c Decimal.blank = ok acc
normalize_entry acc c Decimal.malformed =
    if str_eq c ""
    then ok acc
    else if valid_component_code c
    then err MeteringError.invalid_quantity
    else err MeteringError.unsupported_component
normalize_entry acc c (Decimal.amount q) =
    if str_eq c ""
    then ok acc
    else if not (valid_component_code c)
    then err MeteringError.unsupported_component
    else if valid_metered_decimal (Decimal.amount q)
    then ok (insert c q acc)
    else err MeteringError.invalid_quantity

unfoldable pub normalize_entries : Quantities → MeteredUsage → Checked Quantities
normalize_entries acc [] = ok acc
normalize_entries acc ((c, v) ∷ rest) =
    normalize_entry acc (trim_space c) v >>= λ acc'. normalize_entries acc' rest

-- `ensureParentMetric`
unfoldable pub ensure_parent_metric : String → List String → Quantities → Quantities
ensure_parent_metric parent children u =
    let total = sum_by (quantity_of u) children in
    if is_some (lookup parent u) then u else if ltb 0 total then insert parent total u else u

-- The write in the loop of `limitChildrenToParent`: only a meter that is there is written.
unfoldable pub limit_child : String → ℕ → Quantities → Quantities
limit_child c value u = if is_some (lookup c u) then insert c value u else u

-- The loop of `limitChildrenToParent` over the children, with what is left of the parent.
unfoldable pub limit_children : ℕ → List String → Quantities → Quantities
limit_children remaining [] u = u
limit_children remaining (c ∷ cs) u =
    let value = min (quantity_of u c) remaining in
    limit_children (remaining - value) cs (limit_child c value u)

-- `limitChildrenToParent`
unfoldable pub limit_children_to_parent : String → List String → Quantities → Quantities
limit_children_to_parent parent children u = limit_children (quantity_of u parent) children u

abbrev pub input_children : List String
input_children =
    "cached_input_tokens" ∷ "cache_creation_tokens" ∷ "cache_creation_1h_tokens"
    ∷ "input_audio_tokens" ∷ "input_image_tokens" ∷ "input_video_tokens" ∷ []

abbrev pub output_children : List String
output_children =
    "reasoning_tokens" ∷ "output_audio_tokens" ∷ "output_image_tokens" ∷ "output_video_tokens" ∷ []

abbrev pub audio_children : List String
audio_children = "cache_creation_audio_tokens" ∷ "cached_audio_tokens" ∷ []

abbrev pub image_children : List String
image_children = "cached_image_tokens" ∷ []

abbrev pub video_children : List String
video_children = "cached_video_tokens" ∷ []

-- The five calls of `ensureParentMetric` at the start of `normalizeMeteredRelationships`.
unfoldable pub ensure_parents : Quantities → Quantities
ensure_parents u =
    let u1 = ensure_parent_metric "input_audio_tokens" audio_children u in
    let u2 = ensure_parent_metric "input_image_tokens" image_children u1 in
    let u3 = ensure_parent_metric "input_video_tokens" video_children u2 in
    let u4 = ensure_parent_metric "input_tokens" input_children u3 in
    ensure_parent_metric "output_tokens" output_children u4

-- `normalizeMeteredRelationships`
unfoldable pub normalize_metered_relationships : Quantities → Quantities
normalize_metered_relationships u =
    let u1 = limit_children_to_parent "input_tokens" input_children (ensure_parents u) in
    let u2 = limit_children_to_parent "input_audio_tokens" audio_children u1 in
    let u3 = limit_children_to_parent "input_image_tokens" image_children u2 in
    let u4 = limit_children_to_parent "input_video_tokens" video_children u3 in
    limit_children_to_parent "output_tokens" output_children u4

-- `normalizeMeteredUsage`
unfoldable pub normalize_metered_usage : MeteredUsage → Checked Quantities
normalize_metered_usage usage =
    normalize_entries [] usage >>= λ u. ok (normalize_metered_relationships u)
