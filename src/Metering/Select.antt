-- ===== src/Metering/Select.antt =====
-- Price components for meters: pricing tiers, implicit requests and `selectMeteredComponents` of
-- internal/billing/metering.go.
use Prim.Native.String.{String, ◌++◌}
use Prim.Native.Char.{Char, code}
use model_bridge.Base.{
  ℕ, zero, suc, List, [], ◌∷◌, Option, none, some, Bool, true, false, or_else, ◌&&◌, ◌||◌, not, ltb,
  ◌==◌, if◌then◌else◌, is_some,
}
use model_bridge.Base.Texts.{Map, str_eq, trim_suffix, trim_space, lookup, insert}
use model_bridge.Base.Results.{ok, ◌>>=◌, ◌>>◌, guard, or_error}
use model_bridge.Metering.Defs.{
  Decimal, MeteredUsage, Quantities, PriceComponent, MeteringError, Checked, one,
}
use model_bridge.Metering.Usage.{valid_component_code}
use model_bridge.Metering.Effective.{effective_quantity}

abbrev letters : List (ℕ × Char)
letters =
    (65, "a")
    ∷ (66, "b")
    ∷ (67, "c")
    ∷ (68, "d")
    ∷ (69, "e")
    ∷ (70, "f")
    ∷ (71, "g")
    ∷ (72, "h")
    ∷ (73, "i")
    ∷ (74, "j")
    ∷ (75, "k")
    ∷ (76, "l")
    ∷ (77, "m")
    ∷ (78, "n")
    ∷ (79, "o")
    ∷ (80, "p")
    ∷ (81, "q")
    ∷ (82, "r")
    ∷ (83, "s")
    ∷ (84, "t")
    ∷ (85, "u")
    ∷ (86, "v")
    ∷ (87, "w")
    ∷ (88, "x")
    ∷ (89, "y")
    ∷ (90, "z")
    ∷ []

lower_char : List (ℕ × Char) → Char → Char
lower_char [] c = c
lower_char ((n, d) ∷ table) c = if code c == n then d else lower_char table c

-- `strings.ToLower`, over ASCII.
unfoldable pub to_lower : String → String
unfolding lower_char
to_lower String.[] = String.[]
to_lower (String.◌∷◌ c s) = String.◌∷◌ (lower_char letters c) (to_lower s)

-- `normalizePricingTier`
unfoldable pub normalize_pricing_tier : String → String
normalize_pricing_tier value =
    let v = to_lower (trim_space value) in
    if str_eq v "batch"
    then "batches"
    else if str_eq v "priority" || str_eq v "flex" || str_eq v "batches"
    then v
    else ""

-- `componentBaseCode`
unfoldable pub component_base_code : String → String
component_base_code c = trim_suffix "_batches" (trim_suffix "_flex" (trim_suffix "_priority" c))

-- `isZeroAmount`
abbrev pub is_zero_amount : Decimal → Bool
is_zero_amount (Decimal.amount q) = q == 0
is_zero_amount Decimal.blank = false
is_zero_amount Decimal.malformed = false

-- `hasComponentForTier`
unfoldable pub has_component_for_tier : List PriceComponent → String → String → Bool
has_component_for_tier [] base tier = false
has_component_for_tier (c ∷ cs) base tier =
    let t = normalize_pricing_tier tier in
    str_eq c.component_code base
    || (not (str_eq t "") && str_eq c.component_code (base ++ "_" ++ t))
    || has_component_for_tier cs base tier

-- `addImplicitRequestMetric`: a priced request counts once unless the usage says otherwise.
unfoldable pub add_implicit_request_metric :
    List PriceComponent → MeteredUsage → String → MeteredUsage
add_implicit_request_metric components usage tier = elim (lookup "requests" usage) [
  | some value ↦ if not (is_zero_amount value) then usage else with_request
  | none ↦ with_request
]
  where
    with_request : MeteredUsage
    with_request =
        if has_component_for_tier components "requests" tier
        then insert "requests" (Decimal.amount one) usage
        else usage

-- One round of the loop that files the components by their codes.
unfoldable pub file_component : Map PriceComponent → PriceComponent → Checked (Map PriceComponent)
file_component by_code c =
    let k = trim_space c.component_code in
    do
      guard (valid_component_code k && not (str_eq (trim_space c.unit) ""))
          MeteringError.invalid_component
      guard (not (is_some (lookup k by_code))) MeteringError.duplicate_component
      ok (insert k c by_code)

unfoldable pub components_by_code :
    Map PriceComponent → List PriceComponent → Checked (Map PriceComponent)
components_by_code by_code [] = ok by_code
components_by_code by_code (c ∷ cs) =
    file_component by_code c >>= λ by_code'. components_by_code by_code' cs

abbrev pub is_among : String → List String → Bool
is_among c [] = false
is_among c (d ∷ ds) = str_eq c d || is_among c ds

-- The parent meter whose price a detail meter may inherit (the `switch` of `componentForMeter`).
unfoldable pub parent_meter : String → Option String
parent_meter c =
    if is_among c (
      "cached_input_tokens" ∷ "cache_creation_tokens" ∷ "cached_input_tokens_priority"
      ∷ "cached_input_tokens_flex" ∷ "cache_creation_tokens_priority" ∷ "cache_creation_tokens_flex"
      ∷ [])
    then some "input_tokens"
    else if str_eq c "cache_creation_1h_tokens"
    then some "cache_creation_tokens"
    else if str_eq c "reasoning_tokens"
    then some "output_tokens"
    else if is_among c ("input_audio_tokens" ∷ "input_image_tokens" ∷ "input_video_tokens" ∷ [])
    then some "input_tokens"
    else if is_among c ("output_audio_tokens" ∷ "output_image_tokens" ∷ "output_video_tokens" ∷ [])
    then some "output_tokens"
    else if is_among c ("cache_creation_audio_tokens" ∷ "cached_audio_tokens" ∷ [])
    then some "input_audio_tokens"
    else if str_eq c "cached_image_tokens"
    then some "input_image_tokens"
    else if str_eq c "cached_video_tokens"
    then some "input_video_tokens"
    else none

-- The component published for a meter itself: that of the pricing tier, else the plain one.
unfoldable pub own_component : Map PriceComponent → String → String → Option PriceComponent
own_component components c tier =
    let t = normalize_pricing_tier tier in
    let plain = lookup c components in
    if str_eq t ""
    then plain
    else elim (lookup (c ++ "_" ++ t) components) [ some found ↦ some found | none ↦ plain ]

-- `componentForMeter`, whose recursion climbs the parents. The first argument bounds the climb: at
-- zero there is no answer (`none`); an answer is a component, or that there is none.
unfoldable pub component_within :
    ℕ → Map PriceComponent → String → String → Option (Option PriceComponent)
component_within zero components c tier = none
component_within (suc n) components c tier = elim (own_component components c tier) [
  | some found ↦ some (some found)
  | none ↦ elim (parent_meter c) [
    | none ↦ some none
    | some p ↦ elim (str_eq p c) [ true ↦ some none | false ↦ component_within n components p tier ]
  ]
]

-- The answer within three levels, which there always is.
unfoldable pub component_for_meter : Map PriceComponent → String → String → Option PriceComponent
component_for_meter components c tier = or_else (component_within 3 components c tier) none

-- The meters with something to charge for, each once.
unfoldable pub base_codes : Quantities → Quantities → List String → List String
base_codes usage [] found = found
base_codes usage ((c, q) ∷ rest) found =
    let base = component_base_code c in
    base_codes usage rest (
      if ltb 0 (effective_quantity base usage) && not (is_among base found)
      then base ∷ found
      else found)

unfoldable pub select_codes :
    Map PriceComponent → String → List String → Checked (List PriceComponent)
select_codes by_code tier [] = ok []
select_codes by_code tier (c ∷ cs) = do
  found ← or_error (component_for_meter by_code c tier) MeteringError.price_not_configured
  rest ← select_codes by_code tier cs
  ok (record found { component_code = c } ∷ rest)

-- `selectMeteredComponents`
unfoldable pub select_metered_components :
    List PriceComponent → Quantities → String → Checked (List PriceComponent)
select_metered_components components usage tier = do
  by_code ← components_by_code [] components
  select_codes by_code tier (base_codes usage usage [])
