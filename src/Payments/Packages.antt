-- ===== src/Payments/Packages.antt =====
-- The recharge packages of internal/payments/service.go.
use Prim.Native.String.{String, len}
use model_bridge.Base.{
  ℕ, ◌+◌, [], ◌∷◌, List, Bool, true, false, ◌&&◌, ◌||◌, not, ltb, leb, ◌==◌, if◌then◌else◌,
}
use model_bridge.Base.Int.{ℤ, pos, negsuc, pos_part}
use model_bridge.Base.Texts.{str_eq, trim_space}
use model_bridge.Base.Results.{ok, ◌>>=◌, ◌>>◌, guard}
use model_bridge.Metering.Select.{to_lower}
use model_bridge.Payments.Amounts.{
  Paid, PaymentError, AmountText, normalize_amount, normalize_non_negative_amount,
}

-- What a text says to `time.Parse(time.RFC3339, …)`: it is empty, no time, a time only once the
-- white space around it is gone, or a time.
pub data TimeText : Type 0 where
  empty malformed : TimeText
  padded exact : ℕ → TimeText

-- `RechargePackage` with the texts of its amounts, as it is stored or sent; the currency is in
-- capitals already.
pub record PackageInput : Type 0 where
  pub id : String
  pub name : String
  pub description : String
  pub kind : String
  pub currency : String
  pub amount : AmountText
  pub credited_amount : AmountText
  pub bonus_amount : AmountText
  pub validity_days : ℤ
  pub starts_at : TimeText
  pub ends_at : TimeText
  pub subscription_plan_code : String
  pub enabled : Bool

-- `RechargePackage` once it is normalized.
pub record RechargePackage : Type 0 where
  pub id : String
  pub name : String
  pub description : String
  pub kind : String
  pub currency : String
  pub amount : ℕ
  pub credited_amount : ℕ
  pub bonus_amount : ℕ
  pub validity_days : ℕ
  pub starts_at : TimeText
  pub ends_at : TimeText
  pub subscription_plan_code : String
  pub enabled : Bool

-- At most a hundred years, and not negative.
unfoldable pub valid_days : ℤ → Bool
valid_days (pos n) = leb n 36500
valid_days (negsuc n) = false

-- Whether the trimmed text is empty or a time.
unfoldable pub valid_time : TimeText → Bool
valid_time TimeText.empty = true
valid_time TimeText.malformed = false
valid_time (TimeText.padded t) = true
valid_time (TimeText.exact t) = true

-- The time that is left where the error of `time.Parse` is dropped: the zero time comes before all.
unfoldable pub parsed_or_zero : TimeText → ℕ
parsed_or_zero TimeText.empty = 0
parsed_or_zero TimeText.malformed = 0
parsed_or_zero (TimeText.padded t) = 0
parsed_or_zero (TimeText.exact t) = t

unfoldable pub is_set : TimeText → Bool
is_set TimeText.empty = false
is_set TimeText.malformed = true
is_set (TimeText.padded t) = true
is_set (TimeText.exact t) = true

-- `strings.ToLower(strings.TrimSpace(item.Kind))`, with its default.
unfoldable pub normalize_kind : String → String
normalize_kind kind = let k = to_lower (trim_space kind) in if str_eq k "" then "recharge" else k

-- The bonus, which is zero where there is none.
unfoldable pub package_bonus : AmountText → String → Paid ℕ
package_bonus AmountText.blank currency = ok 0
package_bonus AmountText.malformed currency =
    normalize_non_negative_amount AmountText.malformed currency
package_bonus (AmountText.ratio n d) currency =
    normalize_non_negative_amount (AmountText.ratio n d) currency

-- The credited amount, which is the sum where there is none and has to be it where there is one.
unfoldable pub package_credit : AmountText → ℕ → String → Paid ℕ
package_credit AmountText.blank computed currency = ok computed
package_credit AmountText.malformed computed currency =
    normalize_amount AmountText.malformed currency
package_credit (AmountText.ratio n d) computed currency = do
  credited ← normalize_amount (AmountText.ratio n d) currency
  guard (credited == computed) PaymentError.invalid_request
  ok credited

abbrev pub contains_id : String → List String → Bool
contains_id id [] = false
contains_id id (j ∷ js) = str_eq j id || contains_id id js

-- The identifier, or one made of the package's texts and its index: `generatedPackageID`, whose
-- MD5 digest is a parameter; `valid_id` is `ids.Valid`.
module _ (generated : PackageInput → ℕ → String) (valid_id : String → Bool) where
  unfoldable pub package_id : PackageInput → ℕ → String
  package_id item index =
      let id = trim_space item.id in if str_eq id "" then generated item index else id

  -- One round of the loop of `normalizeRechargePackages`.
  unfoldable pub normalize_package : PackageInput → ℕ → List String → Paid RechargePackage
  normalize_package item index seen = do
    let id = package_id item index
    let kind = normalize_kind item.kind
    guard
        (valid_id id
          && not (str_eq item.name "")
          && leb (len item.name) 128
          && leb (len item.description) 500)
        PaymentError.invalid_request
    guard (not (contains_id id seen)) PaymentError.invalid_request
    guard (str_eq kind "recharge" || str_eq kind "subscription") PaymentError.invalid_request
    guard (len item.currency == 3) PaymentError.invalid_request
    amount ← normalize_amount item.amount item.currency
    bonus ← package_bonus item.bonus_amount item.currency
    credited ← package_credit item.credited_amount (amount + bonus) item.currency
    guard (valid_days item.validity_days) PaymentError.invalid_request
    guard (valid_time item.starts_at && valid_time item.ends_at) PaymentError.invalid_request
    guard
        (not (is_set item.starts_at)
          || not (is_set item.ends_at)
          || ltb (parsed_or_zero item.starts_at) (parsed_or_zero item.ends_at))
        PaymentError.invalid_request
    guard (not (str_eq kind "subscription") || leb (len item.subscription_plan_code) 128)
        PaymentError.invalid_request
    ok (record {
      id = id;
      name = trim_space item.name;
      description = trim_space item.description;
      kind = kind;
      currency = item.currency;
      amount = amount;
      credited_amount = credited;
      bonus_amount = bonus;
      validity_days = pos_part item.validity_days;
      starts_at = item.starts_at;
      ends_at = item.ends_at;
      subscription_plan_code = item.subscription_plan_code;
      enabled = item.enabled;
    })

  -- `normalizeRechargePackages`
  unfoldable pub normalize_recharge_packages :
      List PackageInput → ℕ → List String → Paid (List RechargePackage)
  normalize_recharge_packages [] index seen = ok []
  normalize_recharge_packages (item ∷ rest) index seen = do
    first ← normalize_package item index seen
    others ← normalize_recharge_packages rest (index + 1) (first.id ∷ seen)
    ok (first ∷ others)

-- `isRechargePackageActive`
unfoldable pub starts_by : TimeText → ℕ → Bool
starts_by TimeText.empty now = true
starts_by TimeText.malformed now = false
starts_by (TimeText.padded t) now = false
starts_by (TimeText.exact t) now = not (ltb now t)

unfoldable pub ends_after : TimeText → ℕ → Bool
ends_after TimeText.empty now = true
ends_after TimeText.malformed now = false
ends_after (TimeText.padded t) now = false
ends_after (TimeText.exact t) now = ltb now t

unfoldable pub is_recharge_package_active : RechargePackage → ℕ → Bool
is_recharge_package_active p now = starts_by p.starts_at now && ends_after p.ends_at now

-- `packageAmounts`: the amounts of the packages on sale, each once.
abbrev pub contains_amount : ℕ → List ℕ → Bool
contains_amount a [] = false
contains_amount a (b ∷ bs) = (b == a) || contains_amount a bs

unfoldable pub package_amounts : List RechargePackage → List ℕ → List ℕ
package_amounts [] seen = []
package_amounts (p ∷ ps) seen =
    let skipped = package_amounts ps seen in
    let kept = p.amount ∷ package_amounts ps (p.amount ∷ seen) in
    if not p.enabled || not (str_eq p.kind "recharge") || contains_amount p.amount seen
    then skipped
    else kept
