-- ===== src/Metering/Billed.antt =====
-- What a successful charge guarantees: the minimum is met, and no meter is left out.
use Prim.Native.String.{String, compare}
use Prim.Native.Nat.{Ordering}
use model_bridge.Base.{
  ℕ, ◌≤◌, ◌<◌, ◌≡◌, ◌⊎◌, inl, inr, refl, sym, subst, ap, List, [], ◌∷◌, true, false, ltb, arith,
  Bool-cases, if◌then◌else◌, not, ◌&&◌,
}
use model_bridge.Base.Texts.{Map, str_eq, eq_iff}
use model_bridge.Base.Results.{ok, >>=-eq-ok, ok-injective, or_error}
use model_bridge.Metering.Defs.{
  Decimal, MeteredUsage, Quantities, PriceComponent, ChargeLine, MeteredCharge, MeteringError,
  rat_decimal,
}
use model_bridge.Metering.Usage.{normalize_metered_usage}
use model_bridge.Metering.Effective.{effective_quantity}
use model_bridge.Metering.Tiers.{tiered_amount}
use model_bridge.Metering.Select.{
  component_base_code, add_implicit_request_metric, components_by_code, component_for_meter,
  base_codes, select_codes, select_metered_components, is_among,
}
use model_bridge.Metering.Charge.{
  add_line, insert_sorted, sort_components, charge_lines, at_least,
  calculate_metered_charge_for_tier,
}

abbrev pub Among : String → List String → Type 0
Among c [] = ⊥
Among c (d ∷ ds) = (d ≡ c) ⊎ Among c ds

-- Some component of the list has the code `c`.
abbrev pub HasCode : String → List PriceComponent → Type 0
HasCode c [] = ⊥
HasCode c (p ∷ ps) = (p.component_code ≡ c) ⊎ HasCode c ps

-- Some line charges the quantity `q` under the code `c`.
abbrev pub HasLine : String → ℕ → List ChargeLine → Type 0
HasLine c q [] = ⊥
HasLine c q (l ∷ ls) = ((l.component_code ≡ c) × (l.quantity ≡ q)) ⊎ HasLine c q ls

is_among→Among : (c : String) (ds : List String) → is_among c ds ≡ true → Among c ds
is_among→Among c [] h = cc
is_among→Among c (d ∷ ds) h = elim (Bool-cases (str_eq c d)) [
  | inl e ↦ inl (sym ((eq_iff c d).0 e))
  | inr e ↦ inr (is_among→Among c ds (ground (arith, e, h)))
]

base_codes-keeps :
    (c : String) (u rest : Quantities) (found : List String)
    → Among c found
    → Among c (base_codes u rest found)
unfolding base_codes
base_codes-keeps c u [] found h = h
base_codes-keeps c u ((d, q) ∷ rest) found h =
    elim (Bool-cases (
      ltb 0 (effective_quantity (component_base_code d) u)
      && not (is_among (component_base_code d) found))) [
        | inl e ↦ rw e (base_codes-keeps c u rest (component_base_code d ∷ found) (inr h))
        | inr e ↦ rw e (base_codes-keeps c u rest found h)
      ]

abbrev pub HasKey : String → Quantities → Type 0
HasKey c [] = ⊥
HasKey c ((d, q) ∷ rest) = (d ≡ c) ⊎ HasKey c rest

-- The walk's choice at one meter: the code is in the result, if there is something to charge.
found_here :
    (b : String) (u : Quantities) (found : List String)
    → 0 < effective_quantity b u
    → Among b
        (if ltb 0 (effective_quantity b u) && not (is_among b found) then b ∷ found else found)
found_here b u found h = elim (Bool-cases (is_among b found)) [
  | inl e ↦
      let pick : (ltb 0 (effective_quantity b u) && not (is_among b found)) ≡ false =
        ground (arith, e) in
      rw pick (is_among→Among b found e)
  | inr e ↦
      let pick : (ltb 0 (effective_quantity b u) && not (is_among b found)) ≡ true =
        ground (arith, e, h) in
      rw pick (inl refl)
]

-- A meter with something to charge for is found by the walk over the usage.
base_codes-finds :
    (c : String) (u rest : Quantities) (found : List String)
    → HasKey c rest
    → 0 < effective_quantity (component_base_code c) u
    → Among (component_base_code c) (base_codes u rest found)
unfolding base_codes
base_codes-finds c u [] found k h = absurd k
base_codes-finds c u ((d, q) ∷ rest) found (inl e) h =
    let b = component_base_code d in
    let next : List String =
      if ltb 0 (effective_quantity b u) && not (is_among b found) then b ∷ found else found in
    let same : component_base_code d ≡ component_base_code c = ap component_base_code e in
    base_codes-keeps (component_base_code c) u rest next (
      subst (λ x. Among x next) same
        (found_here b u found (subst (λ x. 0 < effective_quantity x u) (sym same) h)))
base_codes-finds c u ((d, q) ∷ rest) found (inr k) h = base_codes-finds c u rest _ k h

select_codes-HasCode :
    (c : String) (by_code : Map PriceComponent) (tier : String) (cs : List String)
    {sel : List PriceComponent}
    → select_codes by_code tier cs ≡ ok sel
    → Among c cs
    → HasCode c sel
unfolding select_codes
select_codes-HasCode c by_code tier [] h m = absurd m
select_codes-HasCode c by_code tier (d ∷ ds) {sel} h m =
    let (found, _, h') =
      >>=-eq-ok (or_error (component_for_meter by_code d tier) MeteringError.price_not_configured) _
        h in
    let (rest, r, e) = >>=-eq-ok (select_codes by_code tier ds) _ h' in
    subst (HasCode c) (ok-injective e) (elim m [
      | inl here ↦ inl here
      | inr later ↦ inr (select_codes-HasCode c by_code tier ds r later)
    ])

insert_sorted-HasCode :
    (c : String) (p : PriceComponent) (ps : List PriceComponent)
    → HasCode c (p ∷ ps)
    → HasCode c (insert_sorted p ps)
unfolding insert_sorted
insert_sorted-HasCode c p [] h = h
insert_sorted-HasCode c p (d ∷ ds) h =
    let behind : HasCode c (d ∷ insert_sorted p ds) = elim h [
      | inl new ↦ inr (insert_sorted-HasCode c p ds (inl new))
      | inr (inl first) ↦ inl first
      | inr (inr later) ↦ inr (insert_sorted-HasCode c p ds (inr later))
    ] in
    elim (compare p.component_code d.component_code)
      as (λ o. HasCode c (elim o [ Ordering.gt ↦ d ∷ insert_sorted p ds | _ ↦ p ∷ d ∷ ds ])) [
        | Ordering.gt ↦ behind
        | _ ↦ h
      ]

sort_components-HasCode :
    (c : String) (ps : List PriceComponent) → HasCode c ps → HasCode c (sort_components ps)
unfolding sort_components
sort_components-HasCode c [] h = h
sort_components-HasCode c (p ∷ ps) (inl e) = insert_sorted-HasCode c p (sort_components ps) (inl e)
sort_components-HasCode c (p ∷ ps) (inr h) =
    insert_sorted-HasCode c p (sort_components ps) (inr (sort_components-HasCode c ps h))

add_line-HasLine :
    (c : String) (p : PriceComponent) (q n : ℕ) (priced : ℕ × ℕ) (ls : List ChargeLine)
    → 0 < q
    → (p.component_code ≡ c) × (q ≡ n) ⊎ HasLine c n ls
    → HasLine c n (add_line p q priced ls)
unfolding add_line
add_line-HasLine c p q n priced ls k m = let pick : ltb 0 q ≡ true = ground (arith, k) in rw pick m

add_line-keeps :
    (c : String) (p : PriceComponent) (q n : ℕ) (priced : ℕ × ℕ) (ls : List ChargeLine)
    → HasLine c n ls
    → HasLine c n (add_line p q priced ls)
unfolding add_line
add_line-keeps c p q n priced ls m = elim (Bool-cases (ltb 0 q)) [
  | inl e ↦ rw e (inr m)
  | inr e ↦ rw e m
]

-- The quantity charged under a code.
abbrev pub charged_quantity : Quantities → String → ℕ
charged_quantity u c = effective_quantity (component_base_code c) u

charge_lines-HasLine :
    (c : String) (u : Quantities) (ps : List PriceComponent) {r : ℕ × List ChargeLine}
    → charge_lines ps u ≡ ok r
    → HasCode c ps
    → 0 < charged_quantity u c
    → HasLine c (charged_quantity u c) r.1
unfolding charge_lines
charge_lines-HasLine c u [] h m k = absurd m
charge_lines-HasLine c u (p ∷ ps) h m k =
    let q : ℕ = charged_quantity u p.component_code in
    let n : ℕ = charged_quantity u c in
    let (priced, _, h') = >>=-eq-ok (tiered_amount p q u) _ h in
    let (rest, chain, e) = >>=-eq-ok (charge_lines ps u) _ h' in
    subst (λ (x : ℕ × List ChargeLine). HasLine c n x.1) (ok-injective e)
      (elim m [
        | inl here ↦
            let same : q ≡ n = ap (charged_quantity u) here in
            add_line-HasLine c p q n priced rest.1 (omega (arith, same, k)) (inl (here, same))
        | inr later ↦
            add_line-keeps c p q n priced rest.1 (charge_lines-HasLine c u ps chain later k)
      ])

at_least-le : (m t : ℕ) → m ≤ rat_decimal (at_least m t)
unfolding at_least rat_decimal
at_least-le m t = ground arith

-- The lines of a charge over `n` hold every meter with something to charge for.
lines-HasLine :
    (components : List PriceComponent) (tier c : String) (n : Quantities)
    {selected : List PriceComponent} {charged : ℕ × List ChargeLine}
    → select_metered_components components n tier ≡ ok selected
    → charge_lines (sort_components selected) n ≡ ok charged
    → HasKey c n
    → component_base_code (component_base_code c) ≡ component_base_code c
    → 0 < charged_quantity n c
    → HasLine (component_base_code c) (charged_quantity n c) charged.1
unfolding select_metered_components
lines-HasLine components tier c n {selected} {charged} es ec key idem k =
    let b = component_base_code c in
    let (by_code, _, es') = >>=-eq-ok (components_by_code [] components) _ es in
    let again : charged_quantity n b ≡ charged_quantity n c =
      ap (λ x. effective_quantity x n) idem in
    let has : HasCode b selected =
      select_codes-HasCode b by_code tier (base_codes n n []) es'
        (base_codes-finds c n n [] key k) in
    subst (λ q. HasLine b q charged.1) again
      (charge_lines-HasLine b n (sort_components selected) ec
        (sort_components-HasCode b selected has) (omega (arith, again, k)))

-- A successful charge is never below the minimum charge, and no meter is free by omission: each
-- meter of the normalised usage whose base code has something left to charge for has a line with
-- exactly that quantity. (The base code must keep under a second removal of the tier suffixes.)
pub calculate_metered_charge-bills :
    (components : List PriceComponent) (usage : MeteredUsage) (m : ℕ) (tier c : String)
    {n : Quantities} {charge : MeteredCharge}
    → normalize_metered_usage (add_implicit_request_metric components usage tier) ≡ ok n
    → calculate_metered_charge_for_tier components usage (Decimal.amount m) tier ≡ ok charge
    → HasKey c n
    → component_base_code (component_base_code c) ≡ component_base_code c
    → 0 < charged_quantity n c
    → (m ≤ charge.amount) × HasLine (component_base_code c) (charged_quantity n c) charge.lines
unfolding calculate_metered_charge_for_tier
calculate_metered_charge-bills components usage m tier c {n} hn h key idem k =
    let (selected, es, h2) =
      >>=-eq-ok (select_metered_components components n tier) _ (rw hn at h) in
    let (charged, ec, h3) = >>=-eq-ok (charge_lines (sort_components selected) n) _ h2 in
    subst
      (λ (x : MeteredCharge).
        (m ≤ x.amount) × HasLine (component_base_code c) (charged_quantity n c) x.lines)
      (ok-injective h3)
      (at_least-le m charged.0, lines-HasLine components tier c n es ec key idem k)
