-- ===== src/Payments/Offers.antt =====
-- What the packages hold that internal/payments/service.go has normalized.
use Prim.Native.String.{String, len}
use model_bridge.Base.{
  ℕ, ◌+◌, ◌≡◌, sym, [], ◌∷◌, List, Bool, true, ◌&&◌, ◌||◌, not, ltb, leb, ◌==◌, subst, ◌∙◌, eqb→eq,
}
use model_bridge.Base.Int.{ℤ, pos, negsuc, pos_part}
use model_bridge.Base.Texts.{str_eq}
use model_bridge.Base.Results.{ok, >>=-eq-ok, guard-then, ok-injective}
use model_bridge.Payments.Amounts.{AmountText, normalize_amount}
use model_bridge.Payments.Packages.{
  valid_days, PackageInput, RechargePackage, valid_time, parsed_or_zero, is_set, normalize_kind,
  package_bonus, package_credit, contains_id, package_id, normalize_package,
  normalize_recharge_packages,
}

package_credit-eq :
    (text : AmountText) (computed : ℕ) (currency : String) {v : ℕ}
    → package_credit text computed currency ≡ ok v
    → v ≡ computed
unfolding package_credit normalize_amount
package_credit-eq AmountText.blank computed currency h = sym (ok-injective h)
package_credit-eq AmountText.malformed computed currency h = cc
package_credit-eq (AmountText.ratio n d) computed currency {v} h =
    let (credited, e, h1) = >>=-eq-ok (normalize_amount (AmountText.ratio n d) currency) _ h in
    let (same, out) = guard-then (credited == computed) _ _ h1 in
    sym (ok-injective out) ∙ eqb→eq credited computed same

valid_days-le : (days : ℤ) → valid_days days ≡ true → leb (pos_part days) 36500 ≡ true
unfolding valid_days
valid_days-le (pos n) h = h
valid_days-le (negsuc n) h = cc

-- A package on sale.
pub record Sound (seen : List String) (p : RechargePackage) : Type 0 where
  pub sum : p.credited_amount ≡ p.amount + p.bonus_amount
  pub kind : (str_eq p.kind "recharge" || str_eq p.kind "subscription") ≡ true
  pub ordered :
      (not (is_set p.starts_at)
        || not (is_set p.ends_at)
        || ltb (parsed_or_zero p.starts_at) (parsed_or_zero p.ends_at))
      ≡ true
  pub times : (valid_time p.starts_at && valid_time p.ends_at) ≡ true
  pub days : leb p.validity_days 36500 ≡ true
  pub new : not (contains_id p.id seen) ≡ true

module _ (generated : PackageInput → ℕ → String) (valid_id : String → Bool) where
  normalize_package-Sound :
      (item : PackageInput) (index : ℕ) (seen : List String) {p : RechargePackage}
      → normalize_package generated valid_id item index seen ≡ ok p
      → Sound seen p
  unfolding normalize_package
  normalize_package-Sound item index seen {p} h =
      let id = package_id generated valid_id item index in
      let kind = normalize_kind item.kind in
      let (_, h1) =
        guard-then
          (valid_id id
            && not (str_eq item.name "")
            && leb (len item.name) 128
            && leb (len item.description) 500)
          _ _ h in
      let (new, h2) = guard-then (not (contains_id id seen)) _ _ h1 in
      let (kinds, h3) = guard-then (str_eq kind "recharge" || str_eq kind "subscription") _ _ h2 in
      let (_, h4) = guard-then (len item.currency == 3) _ _ h3 in
      let (amount, _, h5) = >>=-eq-ok (normalize_amount item.amount item.currency) _ h4 in
      let (bonus, _, h6) = >>=-eq-ok (package_bonus item.bonus_amount item.currency) _ h5 in
      let (credited, e, h7) =
        >>=-eq-ok (package_credit item.credited_amount (amount + bonus) item.currency) _ h6 in
      let (days, h8) = guard-then (valid_days item.validity_days) _ _ h7 in
      let (times, h9) = guard-then (valid_time item.starts_at && valid_time item.ends_at) _ _ h8 in
      let (ordered, h10) =
        guard-then
          (not (is_set item.starts_at)
            || not (is_set item.ends_at)
            || ltb (parsed_or_zero item.starts_at) (parsed_or_zero item.ends_at))
          _ _ h9 in
      let (_, out) =
        guard-then (not (str_eq kind "subscription") || leb (len item.subscription_plan_code) 128) _
          _ h10 in
      let sum = package_credit-eq item.credited_amount (amount + bonus) item.currency e in
      subst (Sound seen) (ok-injective out) (record {
        sum = sum;
        kind = kinds;
        ordered = ordered;
        times = times;
        days = valid_days-le item.validity_days days;
        new = new;
      })

  -- Each package with those before it.
  abbrev pub Offered : List String → List RechargePackage → Type 0
  Offered seen [] = Unit
  Offered seen (p ∷ ps) = Sound seen p × Offered (p.id ∷ seen) ps

  -- The packages that are accepted credit exactly their amount and their bonus, are of one of the
  -- two kinds, have times that can be read of which the first is earlier where both are given, last
  -- at most 36500 days, and have identifiers that differ from one another.
  pub normalize_recharge_packages-Offered :
      (items : List PackageInput) (index : ℕ) (seen : List String) {ps : List RechargePackage}
      → normalize_recharge_packages generated valid_id items index seen ≡ ok ps
      → Offered seen ps
  unfolding normalize_recharge_packages
  normalize_recharge_packages-Offered [] index seen h = subst (Offered seen) (ok-injective h) tt
  normalize_recharge_packages-Offered (item ∷ items) index seen h =
      let (p, e, h1) = >>=-eq-ok (normalize_package generated valid_id item index seen) _ h in
      let (ps, es, out) =
        >>=-eq-ok (normalize_recharge_packages generated valid_id items (index + 1) (p.id ∷ seen)) _
          h1 in
      subst (Offered seen) (ok-injective out) (
        normalize_package-Sound item index seen e,
        normalize_recharge_packages-Offered items (index + 1) (p.id ∷ seen) es,
      )
