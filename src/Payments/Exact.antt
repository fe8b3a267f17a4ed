-- ===== src/Payments/Exact.antt =====
-- The arithmetic of internal/payments/service.go loses nothing.
use Prim.Native.String.{String}
use native.Mathlib.Nat.{
  dvd_of_mod-eq-zero, eq_of_mul-eq-mul_right, mul-mod_left, div-mul_cancel, div-eq_of_lt-le,
}
use model_bridge.Base.{
  ℕ, zero, suc, ◌+◌, ◌*◌, ◌/◌, ◌%◌, ◌<◌, ◌≡◌, ◌⊎◌, inl, inr, refl, sym, ap, true, ◌&&◌, Bool-cases,
  ◌↔◌, ◌∙◌, ltb, ◌==◌, arith, eqb→eq,
}
use model_bridge.Base.Int.{pos}
use model_bridge.Base.Results.{ok, Result-cases, ok-injective}
use model_bridge.Payments.Amounts.{
  AmountText, unit, minor_per_one, float_string_12, normalize_ratio, normalize_amount, printed,
  same_amount,
}

minor_cases : (currency : String) → (minor_per_one currency ≡ 1) ⊎ (minor_per_one currency ≡ 100)
unfolding minor_per_one
minor_cases currency = ground arith

-- A multiple of the denominator is printed exactly.
pub float_string_12-exact :
    (num den m : ℕ) → 0 < den → num * unit ≡ m * den → float_string_12 num den ≡ m
unfolding float_string_12
float_string_12-exact num den m h e =
    rw e (div-eq_of_lt-le (2 * den) {m = 2 * (m * den) + den} (grind arith) (grind arith))

-- What is a whole number of parts of one is a whole number of the last printed digit.
scaled :
    (num den minor digits : ℕ)
    → minor * digits ≡ unit
    → (num * minor) % den ≡ 0
    → num * unit ≡ (num * minor / den * digits) * den
scaled num den minor digits whole divides =
    let back = div-mul_cancel den {m = num * minor} (dvd_of_mod-eq-zero den divides) in
    let q = num * minor / den in
    let grown : num * minor * digits ≡ q * den * digits = ap (λ (t : ℕ). t * digits) (sym back) in
    rw (← whole) (grind (arith, grown))

-- What a successful `normalizeAmount` returns: the ratio itself, and a whole number of minor units.
pub record Normal (num den : ℕ) (currency : String) (v : ℕ) : Type 0 where
  pub positive : 0 < v
  pub same : v * den ≡ num * unit
  pub minor : ℕ
  pub whole : v * minor_per_one currency ≡ minor * unit

left_pos : (a b n : ℕ) → n ≡ a * b → 0 < n → 0 < a
left_pos zero b n e h = absurd (grind arith)
left_pos (suc a) b n e h = omega arith

some_num : (a n d : ℕ) → 0 < a → a * suc d ≡ n * unit → 0 < n
some_num zero n d h e = elim h [ ]
some_num (suc a) zero d h e = absurd (grind arith)
some_num (suc a) (suc n) d h e = omega arith

-- Where the minor units are `minor` to one, and a minor unit is `digits` of the last digit.
scaled-Normal :
    (num d minor digits : ℕ) (currency : String) {v : ℕ}
    → minor_per_one currency ≡ minor
    → minor * digits ≡ unit
    → 0 < digits
    → normalize_ratio num (suc d) currency ≡ ok v
    → Normal num (suc d) currency v
unfolding normalize_ratio
scaled-Normal num d minor digits currency {v} m whole some_digits h =
    elim (Bool-cases (ltb 0 num && (num * minor_per_one currency) % suc d == 0)) [
      | inr no_good ↦ cc (rw no_good at h)
      | inl good ↦
          let even : (num * minor_per_one currency) % suc d ≡ 0 = ground (arith, good) in
          let counted : 0 < num = ground (arith, good) in
          let divides : (num * minor) % suc d ≡ 0 = rw m at even in
          let s = scaled num (suc d) minor digits whole divides in
          let q = num * minor / suc d in
          let out : float_string_12 num (suc d) ≡ v = ok-injective (rw good at h) in
          let exact : v ≡ q * digits =
            sym out ∙ float_string_12-exact num (suc d) (q * digits) (omega arith) s in
          let some_out = left_pos (q * digits) (suc d) (num * unit) s (omega (arith, counted)) in
          let grown : q * (minor * digits) ≡ q * unit = ap (λ (x : ℕ). q * x) whole in
          let in_minor : q * digits * minor ≡ q * unit = grind (arith, grown) in
          record {
            positive = rw exact some_out;
            same = rw exact (sym s);
            minor = q;
            whole = rw (exact, m) in_minor;
          }
    ]

pub normalize_ratio-Normal :
    (num d : ℕ) (currency : String) {v : ℕ}
    → normalize_ratio num (suc d) currency ≡ ok v
    → Normal num (suc d) currency v
normalize_ratio-Normal num d currency {v} h = elim (minor_cases currency) [
  | inl m ↦ scaled-Normal num d 1 unit currency m refl (omega arith) h
  | inr m ↦ scaled-Normal num d 100 10000000000 currency m refl (omega arith) h
]

pub normalize_amount-Normal :
    (n d : ℕ) (currency : String) {v : ℕ}
    → normalize_amount (AmountText.ratio (pos n) d) currency ≡ ok v
    → Normal n (suc d) currency v
unfolding normalize_amount
normalize_amount-Normal n d currency h = normalize_ratio-Normal n d currency h

-- A text that is a whole positive number of minor units is accepted.
pub normalize_amount-accepts :
    (n d : ℕ) (currency : String)
    → 0 < n
    → (n * minor_per_one currency) % suc d ≡ 0
    → normalize_amount (AmountText.ratio (pos n) d) currency ≡ ok (float_string_12 n (suc d))
unfolding normalize_amount normalize_ratio
normalize_amount-accepts n d currency h e = ground arith

-- A positive amount in 10^-12 that is a whole number of minor units.
abbrev pub IsPayable : String → ℕ → Type 0
IsPayable currency a = (0 < a) × ((a * minor_per_one currency) % unit ≡ 0)

normalize_amount-printed :
    (a : ℕ) (currency : String)
    → IsPayable currency a
    → normalize_amount (printed a) currency ≡ ok a
normalize_amount-printed a currency p =
    rw (normalize_amount-accepts a 999999999999 currency p.0 p.1)
      (ap ok (float_string_12-exact a unit a (omega arith) refl))

-- The same value is a whole number of minor units too.
same_value-divides :
    (a n d minor : ℕ) → (a * minor) % unit ≡ 0 → a * suc d ≡ n * unit → (n * minor) % suc d ≡ 0
same_value-divides a n d minor whole same =
    let k = a * minor / unit in
    let back : k * unit ≡ a * minor =
      div-mul_cancel unit {m = a * minor} (dvd_of_mod-eq-zero unit whole) in
    let left : a * suc d * minor ≡ n * unit * minor = ap (λ (x : ℕ). x * minor) same in
    let right : k * unit * suc d ≡ a * minor * suc d = ap (λ (x : ℕ). x * suc d) back in
    let product : n * minor ≡ k * suc d =
      eq_of_mul-eq-mul_right unit (omega arith) (n * minor) (k * suc d)
        (grind (arith, left, right)) in
    rw product (mul-mod_left k (suc d))

-- The check of a callback's amount is exact: for an order whose amount is a positive whole number
-- of minor units, it accepts a reported positive number exactly where it is the same number, however
-- it is written.
pub same_amount-exact :
    (a n d : ℕ) (currency : String)
    → IsPayable currency a
    → (same_amount (printed a) (AmountText.ratio (pos n) d) currency ≡ true)
      ↔ (a * suc d ≡ n * unit)
unfolding same_amount
same_amount-exact a n d currency p = (only, if_same)
  where
    only :
        same_amount (printed a) (AmountText.ratio (pos n) d) currency ≡ true → a * suc d ≡ n * unit
    only h = elim (Result-cases (normalize_amount (AmountText.ratio (pos n) d) currency)) [
      | inr (e, bad) ↦ cc (rw (normalize_amount-printed a currency p, bad) at h)
      | inl (v, good) ↦
          let equal : (a == v) ≡ true = rw (normalize_amount-printed a currency p, good) at h in
          rw (eqb→eq a v equal) (normalize_amount-Normal n d currency good).same
    ]

    if_same :
        a * suc d ≡ n * unit → same_amount (printed a) (AmountText.ratio (pos n) d) currency ≡ true
    if_same same =
        let accepted =
          normalize_amount-accepts n d currency (some_num a n d p.0 same)
            (same_value-divides a n d (minor_per_one currency) p.1 same) in
        rw
          (
            normalize_amount-printed a currency p,
            accepted,
            float_string_12-exact n (suc d) a (omega arith) (sym same),
          )
          (ground arith)
