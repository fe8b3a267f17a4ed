-- ===== src/Ledger/Factors.antt =====
-- Factors of internal/billing/metering.go and internal/billing/service.go.
use model_bridge.Base.{
  ℕ, ◌+◌, ◌*◌, ◌/◌, ◌%◌, ◌^◌, ◌≤◌, ◌<◌, ◌≡◌, refl, List, [], ◌∷◌, Bool, false, ◌||◌, not, ltb, ◌==◌,
  arith, Bool-cases, inl, inr,
}
use model_bridge.Base.Results.{ok, ok-injective}
use model_bridge.Metering.Defs.{
  Decimal, ChargeLine, MeteredCharge, one, rat_decimal, valid_metered_decimal,
}
use model_bridge.Metering.Select.{is_zero_amount}
use model_bridge.Metering.Charge.{factor_lines, factor_charge, multiplier_charge}
use model_bridge.Ledger.Quote.{normalize_group_multiplier, millionth}

rat_decimal-one : (a : ℕ) → rat_decimal (a * one) ≡ a
unfolding rat_decimal
rat_decimal-one a = omega arith

factor_lines-one : (lines : List ChargeLine) → factor_lines one lines ≡ lines
unfolding factor_lines
factor_lines-one [] = refl
factor_lines-one (l ∷ ls) =
    rw (rat_decimal-one l.price_per_unit, rat_decimal-one l.amount, factor_lines-one ls) refl

-- A group multiplier of one changes neither the amount of a charge nor its lines.
multiplier_charge-one :
    (charge : MeteredCharge) → multiplier_charge charge (Decimal.amount one) ≡ ok charge
unfolding multiplier_charge factor_charge
multiplier_charge-one charge =
    rw (rat_decimal-one charge.amount, factor_lines-one charge.lines) refl

-- An accepted group multiplier with six digits behind the point, as its text must have, is kept
-- exactly: it is positive and at most a thousand. (`digits` counts them.)
normalize_group_multiplier-exact :
    (v digits : ℕ) {m : ℕ}
    → v % millionth ≡ 0
    → normalize_group_multiplier (Decimal.amount v) digits ≡ ok m
    → (m * millionth ≡ v) × (0 < m) × (m ≤ 1000 * 10 ^ 6) × (digits ≤ 6)
unfolding normalize_group_multiplier
normalize_group_multiplier-exact v digits {m} whole h =
    elim (Bool-cases (
      not (valid_metered_decimal (Decimal.amount v))
      || is_zero_amount (Decimal.amount v)
      || ltb 6 digits
      || ltb (1000 * one) v)) [
        | inl bad ↦ cc (rw bad at h)
        | inr fine ↦
            let same : (v + millionth / 2) / millionth ≡ m = ok-injective (rw fine at h) in
            let (positive, top, short) =
              accepted (not (valid_metered_decimal (Decimal.amount v))) v digits fine in
            let exact : m * millionth ≡ v = omega (arith, same, whole) in
            (exact, omega (arith, exact, positive), omega (arith, exact, top), short)
      ]
  where
    accepted :
        (b : Bool) (v digits : ℕ)
        → (b || (v == 0) || ltb 6 digits || ltb (1000 * one) v) ≡ false
        → (0 < v) × (v ≤ 1000 * one) × (digits ≤ 6)
    accepted b v digits h = ground arith
