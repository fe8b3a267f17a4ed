-- ===== src/Metering/Graduated.antt =====
-- Graduated prices against an independent description: the cost of each single unit.
use Prim.Native.String.{String}
use model_bridge.Base.{
  ℕ, zero, suc, ◌+◌, ◌-◌, ◌*◌, ◌≤◌, ◌<◌, ◌≡◌, refl, min, List, [], ◌∷◌, Option, none, some, leb,
  ltb, if◌then◌else◌, or_else, arith, Bool-cases, ap, ◌∙◌, leb→le, inl, inr,
}
use model_bridge.Base.Results.{ok, err, ◌>>=◌}
use model_bridge.Metering.Defs.{Decimal, Checked, Quantities, PriceTier, TierMode, PriceComponent}
use model_bridge.Metering.Tiers.{
  Progress, tier_upper, add_tier, graduated_loop, final_price, add_excess, tiers_amount,
  tiered_amount,
}

-- A price table as it is published: tiers with a limit and a price each, and perhaps a last tier
-- without a limit.
abbrev pub Table : Type 0
Table = List (ℕ × ℕ)

abbrev pub to_tiers : Table → Option ℕ → List PriceTier
to_tiers [] none = []
to_tiers [] (some p) = record { up_to = Decimal.blank; price_per_unit = Decimal.amount p } ∷ []
to_tiers ((limit, p) ∷ ts) final =
    record { up_to = Decimal.amount limit; price_per_unit = Decimal.amount p } ∷ to_tiers ts final

-- The limits grow, from above `lo`.
abbrev pub Increasing : ℕ → Table → Type 0
Increasing lo [] = Unit
Increasing lo ((limit, p) ∷ ts) = (lo < limit) × Increasing limit ts

-- The price of the unit that follows the first `x`: that of the first tier that is not used up.
abbrev pub unit_price : Table → ℕ → ℕ → ℕ
unit_price [] final x = final
unit_price ((limit, p) ∷ ts) final x = if ltb x limit then p else unit_price ts final x

-- The price of the first `q` units, one by one.
pub units_cost : Table → ℕ → ℕ → ℕ
units_cost ts final zero = 0
units_cost ts final (suc q) = units_cost ts final q + unit_price ts final q

-- The price beyond the last limit.
abbrev pub price_beyond : ℕ → Table → Option ℕ → ℕ
price_beyond base [] final = or_else final base
price_beyond base ((limit, p) ∷ ts) final = price_beyond p ts final

-- The cost of the units from `lo` on, tier by tier.
cost : ℕ → Table → ℕ → ℕ → ℕ
cost lo [] final q = final * (q - lo)
cost lo ((limit, p) ∷ ts) final q = p * (min q limit - lo) + cost limit ts final q

cost-below : (lo : ℕ) (ts : Table) (f q : ℕ) → Increasing lo ts → q ≤ lo → cost lo ts f q ≡ 0
unfolding cost
cost-below lo [] f q i h = grind arith
cost-below lo ((limit, p) ∷ ts) f q i h =
    grind (arith, cost-below limit ts f q i.1 (omega (arith, i.0)), i.0)

-- One more unit of a part that begins at `lo`.
part-suc : (p lo q : ℕ) → lo ≤ q → p * (suc q - lo) ≡ p * (q - lo) + p
part-suc p lo q h = let e : suc q - lo ≡ suc (q - lo) = omega arith in rw e (omega arith)

cost-suc :
    (lo : ℕ) (ts : Table) (f q : ℕ)
    → Increasing lo ts
    → lo ≤ q
    → cost lo ts f (suc q) ≡ cost lo ts f q + unit_price ts f q
unfolding cost
cost-suc lo [] f q i h = part-suc f lo q h
cost-suc lo ((limit, p) ∷ ts) f q i h = elim (Bool-cases (ltb q limit)) [
  | inl inside ↦
      let below : q < limit = ground arith in
      let e : min (suc q) limit ≡ suc q = omega arith in
      let e' : min q limit ≡ q = omega arith in
      rw (inside, e, e')
        (omega (
          arith,
          part-suc p lo q h,
          cost-below limit ts f (suc q) i.1 (omega arith),
          cost-below limit ts f q i.1 (omega arith),
        ))
  | inr outside ↦
      let above : limit ≤ q = ground arith in
      let e : min (suc q) limit ≡ limit = omega arith in
      let e' : min q limit ≡ limit = omega arith in
      rw (outside, e, e') (omega (arith, cost-suc limit ts f q i.1 above))
]

-- Tier by tier and unit by unit are the same sum.
cost-eq-units_cost : (ts : Table) (f q : ℕ) → Increasing 0 ts → cost 0 ts f q ≡ units_cost ts f q
unfolding units_cost
cost-eq-units_cost ts f zero i = cost-below 0 ts f 0 i (omega arith)
cost-eq-units_cost ts f (suc q) i =
    omega (arith, cost-suc 0 ts f q i (omega arith), cost-eq-units_cost ts f q i)

final_price-to_tiers :
    (base : ℕ) (ts : Table) (final : Option ℕ)
    → final_price base (to_tiers ts final) ≡ price_beyond base ts final
unfolding final_price
final_price-to_tiers base [] none = refl
final_price-to_tiers base [] (some p) = refl
final_price-to_tiers base ((limit, p) ∷ ts) final = final_price-to_tiers p ts final

-- The amount that a computation charges, without its effective price.
abbrev pub amount_of : Checked (ℕ × ℕ) → Option ℕ
amount_of (ok (a, p)) = some a
amount_of (err e) = none

-- The loop and the excess after it.
run : Table → Option ℕ → ℕ → ℕ → Progress → Option ℕ
run ts final beyond q s =
    amount_of (graduated_loop (to_tiers ts final) q s >>= λ s'. ok (add_excess beyond q s'))

-- A tier that reaches the quantity ends the loop, and nothing exceeds it.
run-last :
    (limit p : ℕ) (ts : Table) (final : Option ℕ) (beyond q : ℕ) (s : Progress)
    → s.previous < limit
    → s.previous ≤ q
    → q ≤ limit
    → run ((limit, p) ∷ ts) final beyond q s ≡ some (s.total + p * (q - s.previous))
unfolding run graduated_loop add_excess add_tier tier_upper
run-last limit p ts final beyond q s i h k =
    let e : min q limit ≡ q = omega arith in ground (arith, e)

-- A tier that ends below the quantity is charged whole.
run-next :
    (limit p : ℕ) (ts : Table) (final : Option ℕ) (beyond q : ℕ) (s : Progress)
    → s.previous < limit
    → limit < q
    → run ((limit, p) ∷ ts) final beyond q s
      ≡ run ts final beyond q
          (record { total = s.total + p * (limit - s.previous); previous = limit; effective = p })
unfolding run graduated_loop add_excess add_tier tier_upper
run-next limit p ts final beyond q s i k =
    let e : min q limit ≡ limit = omega arith in ground (arith, e)

run-cost :
    (ts : Table) (final : Option ℕ) (f q : ℕ) (s : Progress)
    → Increasing s.previous ts
    → s.previous ≤ q
    → run ts final (or_else final f) q s ≡ some (s.total + cost s.previous ts (or_else final f) q)
run-cost [] none f q s i h = unfold run graduated_loop add_excess cost in ground arith
run-cost [] (some p) f q s i h =
    unfold run graduated_loop add_excess add_tier tier_upper cost in ground arith
run-cost ((limit, p) ∷ ts) final f q s i h = elim (Bool-cases (leb q limit)) [
  | inl reached ↦
      let below : q ≤ limit = leb→le q limit reached in
      let e : min q limit ≡ q = omega arith in
      run-last limit p ts final (or_else final f) q s i.0 h below
      ∙ unfold cost in
        rw (e, cost-below limit ts (or_else final f) q i.1 below) (ap some (omega arith))
  | inr passed ↦
      let above : limit < q = ground arith in
      let e : min q limit ≡ limit = omega arith in
      let s' : Progress = record {
        total = s.total + p * (limit - s.previous);
        previous = limit;
        effective = p;
      } in
      run-next limit p ts final (or_else final f) q s i.0 above
      ∙ run-cost ts final f q s' i.1 (omega arith)
      ∙ unfold cost in rw e (ap some (omega arith))
]

or_else-price_beyond :
    (base : ℕ) (ts : Table) (final : Option ℕ)
    → or_else final (price_beyond base ts final) ≡ price_beyond base ts final
or_else-price_beyond base [] none = refl
or_else-price_beyond base [] (some p) = refl
or_else-price_beyond base ((limit, p) ∷ ts) final = or_else-price_beyond p ts final

run-units_cost :
    (base : ℕ) (ts : Table) (final : Option ℕ) (q : ℕ)
    → Increasing 0 ts
    → run ts final
        (price_beyond base ts final)
        q
        (record { total = 0; previous = 0; effective = base })
      ≡ some (units_cost ts (price_beyond base ts final) q)
run-units_cost base ts final q i =
    let f : ℕ = price_beyond base ts final in
    let s : Progress = record { total = 0; previous = 0; effective = base } in
    rw (or_else-price_beyond base ts final) at (run-cost ts final f q s i (omega arith))
    ∙ ap some (omega (arith, cost-eq-units_cost ts f q i))

base-units_cost : (base q : ℕ) → base * q ≡ units_cost [] base q
unfolding units_cost
base-units_cost base zero = omega arith
base-units_cost base (suc q) = omega (arith, base-units_cost base q)

-- A component with a base price and graduated tiers.
abbrev pub graduated_component : String → String → ℕ → Table → Option ℕ → PriceComponent
graduated_component c unit base ts final = record {
  component_code = c;
  unit = unit;
  price_per_unit = Decimal.amount base;
  tiers = some (to_tiers ts final);
  mode = TierMode.graduated;
}

-- Graduated pricing charges every unit at the price of the tier in which it lies, and the units
-- beyond the last limit at the last tier's price, whatever the quantity, if the limits grow.
pub tiered_amount-eq-units_cost :
    (c unit : String) (base : ℕ) (ts : Table) (final : Option ℕ) (q : ℕ) (usage : Quantities)
    → Increasing 0 ts
    → amount_of (tiered_amount (graduated_component c unit base ts final) q usage)
      ≡ some (units_cost ts (price_beyond base ts final) q)
unfolding tiered_amount tiers_amount run final_price
tiered_amount-eq-units_cost c unit base [] none q usage i = ap some (base-units_cost base q)
tiered_amount-eq-units_cost c unit base [] (some p) q usage i = run-units_cost base [] (some p) q i
tiered_amount-eq-units_cost c unit base ((limit, p) ∷ ts) final q usage i =
    rw (final_price-to_tiers p ts final) (run-units_cost base ((limit, p) ∷ ts) final q i)
