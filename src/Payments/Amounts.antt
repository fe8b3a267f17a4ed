-- ===== src/Payments/Amounts.antt =====
-- Amounts of internal/payments/service.go: texts read by big.Rat, and their normal form.
--
-- A normal form is a number: the text that `trimDecimal` makes of `FloatString(12)` is determined
-- by the whole number of 10^-12 that it prints.
use Prim.Native.String.{String}
use model_bridge.Base.{
  ℕ, suc, ◌+◌, ◌*◌, ◌/◌, ◌%◌, ◌^◌, Bool, true, false, ◌&&◌, ◌||◌, ltb, leb, ◌==◌, if◌then◌else◌,
}
use model_bridge.Base.Int.{ℤ, pos, negsuc}
use model_bridge.Base.Texts.{str_eq, trim_space}
use model_bridge.Base.Results.{Result, ok, err, ◌>>=◌, ◌>>◌, guard}
use model_bridge.Metering.Select.{to_lower}
use model_bridge.Ledger.State.{BillingError}

pub data PaymentError : Type 0 where
  unavailable invalid_request provider_disabled provider_unconfigured : PaymentError
  order_not_found order_closed callback_invalid callback_untrusted : PaymentError
  amount_mismatch currency_mismatch provider_failure database_failure : PaymentError
  -- An error of the billing service.
  billing : BillingError → PaymentError

abbrev pub Paid : Type 0 → Type 0
Paid A = Result PaymentError A

-- What `big.Rat.SetString` makes of a trimmed text: nothing for an empty text, nothing for one
-- that is no number, or a numerator over a denominator, which is one more than the second number.
pub data AmountText : Type 0 where
  blank malformed : AmountText
  ratio : ℤ → ℕ → AmountText

-- One, as a whole number of 10^-12.
abbrev pub unit : ℕ
unit = 10 ^ 12

-- The text of a number that was printed with twelve digits, or that a numeric(30, 12) column holds.
abbrev pub printed : ℕ → AmountText
printed amount = ratio (pos amount) 999999999999

-- `strings.EqualFold`, over ASCII.
unfoldable pub equal_fold : String → String → Bool
equal_fold a b = str_eq (to_lower a) (to_lower b)

-- `decimalPlaces`, as a power of ten: the minor units of one.
unfoldable pub minor_per_one : String → ℕ
minor_per_one currency =
    if equal_fold currency "JPY" || equal_fold currency "KRW" || equal_fold currency "VND"
    then 1
    else 100

-- `FloatString(12)`: half of the last digit is rounded away from zero.
unfoldable pub float_string_12 : ℕ → ℕ → ℕ
float_string_12 num den = (2 * (num * unit) + den) / (2 * den)

-- A positive ratio that is a whole number of minor units.
unfoldable pub normalize_ratio : ℕ → ℕ → String → Paid ℕ
normalize_ratio num den currency =
    if ltb 0 num && (num * minor_per_one currency) % den == 0
    then ok (float_string_12 num den)
    else err PaymentError.invalid_request

-- `normalizeAmount`
unfoldable pub normalize_amount : AmountText → String → Paid ℕ
normalize_amount AmountText.blank currency = err PaymentError.invalid_request
normalize_amount AmountText.malformed currency = err PaymentError.invalid_request
normalize_amount (AmountText.ratio (negsuc n) d) currency = err PaymentError.invalid_request
normalize_amount (AmountText.ratio (pos n) d) currency = normalize_ratio n (suc d) currency

abbrev pub equal_amounts : Paid ℕ → Paid ℕ → Bool
equal_amounts (ok a) (ok b) = a == b
equal_amounts (ok a) (err e) = false
equal_amounts (err e) b = false

-- `sameAmount`
unfoldable pub same_amount : AmountText → AmountText → String → Bool
same_amount left right currency =
    equal_amounts (normalize_amount left currency) (normalize_amount right currency)

-- `minorAmount`: the normal form is read again.
unfoldable pub minor_amount : AmountText → String → Paid ℕ
minor_amount value currency = do
  normalized ← normalize_amount value currency
  ok (normalized * minor_per_one currency / unit)

-- `normalizeNonNegativeAmount`
unfoldable pub normalize_non_negative_amount : AmountText → String → Paid ℕ
normalize_non_negative_amount (AmountText.ratio (pos n) d) currency =
    if n == 0 then ok 0 else normalize_amount (AmountText.ratio (pos n) d) currency
normalize_non_negative_amount (AmountText.ratio (negsuc n) d) currency =
    err PaymentError.invalid_request
normalize_non_negative_amount AmountText.blank currency = err PaymentError.invalid_request
normalize_non_negative_amount AmountText.malformed currency = err PaymentError.invalid_request

-- `normalizeRechargeRate`: at most a million, printed with twelve digits.
unfoldable pub normalize_recharge_rate : AmountText → Paid ℕ
normalize_recharge_rate AmountText.blank = ok unit
normalize_recharge_rate AmountText.malformed = err PaymentError.invalid_request
normalize_recharge_rate (AmountText.ratio (negsuc n) d) = err PaymentError.invalid_request
normalize_recharge_rate (AmountText.ratio (pos n) d) =
    if ltb 0 n && leb n (1000000 * suc d)
    then ok (float_string_12 n (suc d))
    else err PaymentError.invalid_request

-- `normalizedRechargeRate`
unfoldable pub normalized_recharge_rate : AmountText → ℕ
normalized_recharge_rate value = elim (normalize_recharge_rate value) [
  | ok rate ↦ rate
  | err e ↦ unit
]

-- `applyRechargeRate`: the product, where it is a whole number of minor units.
unfoldable pub apply_recharge_rate : AmountText → AmountText → String → Paid ℕ
apply_recharge_rate amount rate currency = do
  base ← normalize_amount amount currency
  let factor = normalized_recharge_rate rate
  guard (ltb 0 factor) PaymentError.invalid_request
  guard ((base * factor * minor_per_one currency) % (unit * unit) == 0) PaymentError.invalid_request
  ok (float_string_12 (base * factor) (unit * unit))

-- `providerSupportsCurrency`
pub data Provider : Type 0 where
  wechat alipay stripe paypal : Provider

unfoldable pub provider_supports_currency : Provider → String → Bool
provider_supports_currency Provider.wechat currency = equal_fold (trim_space currency) "CNY"
provider_supports_currency Provider.alipay currency = equal_fold (trim_space currency) "CNY"
provider_supports_currency Provider.stripe currency =
    if str_eq (trim_space currency) "" then false else true
provider_supports_currency Provider.paypal currency =
    if str_eq (trim_space currency) "" then false else true
