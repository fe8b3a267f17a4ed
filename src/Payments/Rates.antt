-- ===== src/Payments/Rates.antt =====
-- Minor units and recharge rates of internal/payments/service.go lose nothing.
use Prim.Native.String.{String}
use native.Mathlib.Nat.{eq_of_mul-eq-mul_right, mul-mod_left, mul-pos, div-eq_of_eq-mul_left}
use model_bridge.Base.{ℕ, suc, ◌*◌, ◌/◌, ◌%◌, ◌<◌, ◌≡◌, sym, ap, true, ◌∙◌, ltb, ◌==◌, arith}
use model_bridge.Base.Int.{pos, negsuc}
use model_bridge.Base.Results.{ok, >>=-eq-ok, ok-injective, guard-then}
use model_bridge.Payments.Amounts.{
  AmountText, unit, minor_per_one, float_string_12, normalize_ratio, normalize_amount, minor_amount,
  apply_recharge_rate, normalized_recharge_rate,
}
use model_bridge.Payments.Exact.{IsPayable, normalize_ratio-Normal, normalize_amount-Normal}

-- The amount that is sent to a provider in minor units is exactly the amount that was asked for,
-- times the minor units of one.
pub minor_amount-exact :
    (n d : ℕ) (currency : String) {m : ℕ}
    → minor_amount (AmountText.ratio (pos n) d) currency ≡ ok m
    → m * suc d ≡ n * minor_per_one currency
unfolding minor_amount
minor_amount-exact n d currency {m} h =
    let (v, e, out) = >>=-eq-ok (normalize_amount (AmountText.ratio (pos n) d) currency) _ h in
    let normal = normalize_amount-Normal n d currency e in
    let divided : v * minor_per_one currency / unit ≡ m = ok-injective out in
    let counted : m ≡ normal.minor =
      sym divided
      ∙ div-eq_of_eq-mul_left {n = unit} {m = v * minor_per_one currency} {k = normal.minor}
          (omega arith) normal.whole in
    let left : v * suc d * minor_per_one currency ≡ n * unit * minor_per_one currency =
      ap (λ (x : ℕ). x * minor_per_one currency) normal.same in
    let right : v * minor_per_one currency * suc d ≡ normal.minor * unit * suc d =
      ap (λ (x : ℕ). x * suc d) normal.whole in
    rw counted (
      eq_of_mul-eq-mul_right unit (omega arith) (normal.minor * suc d) (n * minor_per_one currency)
        (grind (arith, left, right)))

normalize_amount-pos :
    (t : AmountText) (currency : String) {v : ℕ} → normalize_amount t currency ≡ ok v → 0 < v
unfolding normalize_amount
normalize_amount-pos AmountText.blank currency h = cc
normalize_amount-pos AmountText.malformed currency h = cc
normalize_amount-pos (AmountText.ratio (negsuc n) d) currency h = cc
normalize_amount-pos (AmountText.ratio (pos n) d) currency h =
    (normalize_ratio-Normal n d currency h).positive

accepted_product :
    (product : ℕ) (currency : String) {v : ℕ}
    → 0 < product
    → ((product * minor_per_one currency) % (unit * unit) == 0) ≡ true
    → float_string_12 product (unit * unit) ≡ v
    → normalize_ratio product (unit * unit) currency ≡ ok v
unfolding normalize_ratio
accepted_product product currency h whole out = ground (arith, whole, out)

-- A top-up that is accepted credits exactly the normal form of its amount times the rate, and this
-- is a positive whole number of minor units again.
pub apply_recharge_rate-exact :
    (amount rate : AmountText) (currency : String) {v : ℕ}
    → apply_recharge_rate amount rate currency ≡ ok v
    → (base : ℕ) × (normalize_amount amount currency ≡ ok base)
      × (v * unit ≡ base * normalized_recharge_rate rate)
      × IsPayable currency v
unfolding apply_recharge_rate
apply_recharge_rate-exact amount rate currency {v} h =
    let (base, e, h1) = >>=-eq-ok (normalize_amount amount currency) _ h in
    let factor = normalized_recharge_rate rate in
    let (some_rate, h2) = guard-then (ltb 0 factor) _ _ h1 in
    let (whole, out) =
      guard-then ((base * factor * minor_per_one currency) % (unit * unit) == 0) _ _ h2 in
    let product = base * factor in
    let some_product : 0 < product =
      mul-pos (normalize_amount-pos amount currency e) (ground (arith, some_rate)) in
    let normal =
      normalize_ratio-Normal product 999999999999999999999999 currency
        (accepted_product product currency some_product whole (ok-injective out)) in
    let twice : v * unit * unit ≡ product * unit = grind (arith, normal.same) in
    (
      base,
      e,
      eq_of_mul-eq-mul_right unit (omega arith) (v * unit) product twice,
      (normal.positive, rw normal.whole (mul-mod_left normal.minor unit)),
    )
