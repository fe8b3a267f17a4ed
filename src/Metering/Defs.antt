-- ===== src/Metering/Defs.antt =====
-- The types of internal/billing/metering.go and the constants of its decimal arithmetic.
use Prim.Native.String.{String}
use model_bridge.Base.{ℕ, ◌+◌, ◌/◌, ◌^◌, List, [], ◌∷◌, Option, Bool, false, ltb}
use model_bridge.Base.Texts.{Map}
use model_bridge.Base.Results.{Result}

-- What a trimmed decimal string denotes: nothing, no number of the accepted form (a sign, a
-- letter, more than thirty fraction digits), or a whole number of 10^-30.
pub data Decimal : Type 0 where
  blank malformed : Decimal
  amount : ℕ → Decimal

-- `MeteredUsage` as adapters write it.
abbrev pub MeteredUsage : Type 0
MeteredUsage = Map Decimal

-- `MeteredUsage` once `normalizeMeteredUsage` has accepted every value.
abbrev pub Quantities : Type 0
Quantities = Map ℕ

pub record PriceTier : Type 0 where
  pub up_to : Decimal
  pub price_per_unit : Decimal

-- The `tier_mode` of a component's metadata: `context` selects one tier by the meter that
-- `tier_basis` names; any other mode prices each tier's part of the quantity.
pub data TierMode : Type 0 where
  graduated : TierMode
  context : String → TierMode

-- `tiers` is `none` where the stored JSON is no list of tiers.
pub record PriceComponent : Type 0 where
  pub component_code : String
  pub unit : String
  pub price_per_unit : Decimal
  pub tiers : Option (List PriceTier)
  pub mode : TierMode

pub record ChargeLine : Type 0 where
  pub component_code : String
  pub unit : String
  pub quantity : ℕ
  pub price_per_unit : ℕ
  pub amount : ℕ

pub record MeteredCharge : Type 0 where
  pub amount : ℕ
  pub lines : List ChargeLine

pub data MeteringError : Type 0 where
  unsupported_component invalid_quantity invalid_component duplicate_component : MeteringError
  price_not_configured invalid_price invalid_tiers invalid_tier_price : MeteringError
  invalid_tier_limit tiers_not_increasing tier_not_final no_applicable_tier : MeteringError
  invalid_minimum invalid_factor invalid_request usage_unavailable : MeteringError

abbrev pub Checked : Type 0 → Type 0
Checked A = Result MeteringError A

-- One, as a whole number of 10^-30.
abbrev pub one : ℕ
one = 10 ^ 30

-- `ratDecimal` of a product of two decimals: thirty digits are kept, and half of the last one is
-- rounded away from zero, as `big.Rat.FloatString` does.
unfoldable pub rat_decimal : ℕ → ℕ
rat_decimal product = (product + one / 2) / one

-- `validMeteredDecimal`: at most thirty digits before the point (those after it are bounded by
-- the representation).
unfoldable pub valid_metered_decimal : Decimal → Bool
valid_metered_decimal (Decimal.amount q) = ltb q (10 ^ 60)
valid_metered_decimal Decimal.blank = false
valid_metered_decimal Decimal.malformed = false

-- Quantities written back as usage.
unfoldable pub as_usage : Quantities → MeteredUsage
as_usage [] = []
as_usage ((c, q) ∷ u) = (c, Decimal.amount q) ∷ as_usage u
