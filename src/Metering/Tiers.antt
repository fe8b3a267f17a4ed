-- ===== src/Metering/Tiers.antt =====
-- `tieredAmount` of internal/billing/metering.go. Amounts are whole numbers of 10^-60, since a
-- price and a quantity are whole numbers of 10^-30.
use model_bridge.Base.{
  ℕ, ◌+◌, ◌-◌, ◌*◌, min, List, [], ◌∷◌, Bool, true, false, leb, ltb, if◌then◌else◌,
}
use model_bridge.Base.Results.{ok, err, ◌>>=◌, or_error}
use model_bridge.Metering.Defs.{
  Decimal, Quantities, PriceTier, TierMode, PriceComponent, MeteringError, Checked,
}
use model_bridge.Metering.Usage.{quantity_of}

-- `new(big.Rat).SetString` with the test of the sign.
abbrev pub parse_price : Decimal → MeteringError → Checked ℕ
parse_price (Decimal.amount p) e = ok p
parse_price Decimal.blank e = err e
parse_price Decimal.malformed e = err e

abbrev pub is_empty {ℓ} : {A : Type ℓ} → List A → Bool
is_empty [] = true
is_empty (x ∷ xs) = false

-- The branch for `tier_mode` `context`: the whole quantity at the price of the first tier whose
-- limit the context does not pass.
unfoldable pub context_amount : List PriceTier → ℕ → ℕ → Checked (ℕ × ℕ)
context_amount [] quantity context = err MeteringError.no_applicable_tier
context_amount (t ∷ ts) quantity context =
    let rest = context_amount ts quantity context in
    parse_price t.price_per_unit MeteringError.invalid_tier_price >>= λ price. elim t.up_to [
      | Decimal.blank ↦ ok (price * quantity, price)
      | Decimal.malformed ↦ err MeteringError.invalid_tier_limit
      | Decimal.amount limit ↦ if leb context limit then ok (price * quantity, price) else rest
    ]

-- The upper end of a tier within the quantity; `final` says that no tier follows.
unfoldable pub tier_upper : Decimal → Bool → ℕ → ℕ → Checked ℕ
tier_upper Decimal.blank final quantity previous =
    if final then ok quantity else err MeteringError.tier_not_final
tier_upper Decimal.malformed final quantity previous = err MeteringError.invalid_tier_limit
tier_upper (Decimal.amount limit) final quantity previous =
    if leb limit previous then err MeteringError.tiers_not_increasing else ok (min quantity limit)

-- What the loop over graduated tiers carries.
pub record Progress : Type 0 where
  pub total : ℕ
  pub previous : ℕ
  pub effective : ℕ

-- The write of one round: the part between the previous limit and this one at the tier's price.
unfoldable pub add_tier : ℕ → ℕ → Progress → Progress
add_tier price upper s =
    if ltb s.previous upper
    then record {
      total = s.total + price * (upper - s.previous);
      previous = upper;
      effective = price;
    }
    else record { total = s.total; previous = upper; effective = s.effective }

unfoldable pub graduated_loop : List PriceTier → ℕ → Progress → Checked Progress
graduated_loop [] quantity s = ok s
graduated_loop (t ∷ ts) quantity s =
    parse_price t.price_per_unit MeteringError.invalid_tier_price >>= λ price.
    tier_upper t.up_to (is_empty ts) quantity s.previous >>= λ upper.
    let rest = graduated_loop ts quantity (add_tier price upper s) in
    if leb quantity upper then ok (add_tier price upper s) else rest

-- `finalPrice`: the last tier's price, or the base price where that is no number.
unfoldable pub final_price : ℕ → List PriceTier → ℕ
final_price base [] = base
final_price base (t ∷ ts) =
    final_price (elim t.price_per_unit [ Decimal.amount p ↦ p | _ ↦ base ]) ts

-- What exceeds the last limit goes at the final price.
unfoldable pub add_excess : ℕ → ℕ → Progress → ℕ × ℕ
add_excess price quantity s = (
  if ltb s.previous quantity then s.total + price * (quantity - s.previous) else s.total,
  s.effective,
)

unfoldable pub tiers_amount : TierMode → List PriceTier → ℕ → ℕ → Quantities → Checked (ℕ × ℕ)
tiers_amount mode [] base quantity usage = ok (base * quantity, base)
tiers_amount (TierMode.context basis) (t ∷ ts) base quantity usage =
    context_amount (t ∷ ts) quantity (quantity_of usage basis)
tiers_amount TierMode.graduated (t ∷ ts) base quantity usage =
    graduated_loop (t ∷ ts) quantity (record { total = 0; previous = 0; effective = base }) >>= λ s.
    ok (add_excess (final_price base (t ∷ ts)) quantity s)

-- `tieredAmount`: the amount and the effective price.
unfoldable pub tiered_amount : PriceComponent → ℕ → Quantities → Checked (ℕ × ℕ)
tiered_amount c quantity usage =
    parse_price c.price_per_unit MeteringError.invalid_price >>= λ base.
    or_error c.tiers MeteringError.invalid_tiers >>= λ tiers.
    tiers_amount c.mode tiers base quantity usage
