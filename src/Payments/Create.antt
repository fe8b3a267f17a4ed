-- ===== src/Payments/Create.antt =====
-- `CreateOrder` of internal/payments/service.go.
use Prim.Native.String.{String, len, ◌++◌}
use Prim.Native.Char.{code}
use model_bridge.Base.{
  ℕ, ◌+◌, ◌*◌, [], ◌∷◌, List, Bool, ◌&&◌, ◌||◌, not, ltb, leb, ◌==◌, if◌then◌else◌, Option, none,
  some, is_some,
}
use model_bridge.Base.Texts.{Map, lookup, insert, str_eq}
use model_bridge.Base.Results.{ok, err, ◌>>=◌, ◌>>◌, guard, or_error}
use model_bridge.Ledger.State.{BillingError, Database}
use model_bridge.Ledger.Reserve.{prepaid_account}
use model_bridge.Payments.Amounts.{
  Paid, PaymentError, Provider, AmountText, printed, equal_fold, normalize_amount, same_amount,
  normalized_recharge_rate, apply_recharge_rate, provider_supports_currency,
}
use model_bridge.Payments.Orders.{
  Order, OrderStatus, Store, Outcome, parse_provider, find_by, update_pending,
}
use model_bridge.Payments.Packages.{RechargePackage, is_recharge_package_active}

-- `CreateRequest`, its texts trimmed and its currency in capitals; an identifier that is not valid
-- is `none`.
pub record CreateRequest : Type 0 where
  pub tenant_id : Option ℕ
  pub user_id : Option ℕ
  pub provider : String
  pub amount : AmountText
  pub currency : String
  pub idempotency_key : String
  pub return_url : String
  pub package_id : String

-- `providerOrder`
pub record ProviderOrder : Type 0 where
  pub provider_order_id : String
  pub checkout_url : String
  pub qr_code : String
  pub checkout_client_secret : String

-- What `CreateOrder` asks of others: the rows of the provider's configuration, the packages on
-- sale, the check of a URL, the provider's checkout, and the identifier that `ids.New` returns.
pub record Desk : Type 0 where
  -- The stored `enabled`, if the provider has a row.
  pub enabled : Provider → Option Bool
  -- `hasRequiredFields`
  pub configured : Provider → Bool
  pub recharge_rate : Provider → AmountText
  pub packages : Paid (List RechargePackage)
  pub valid_https_url : String → Bool
  pub checkout : String → Order → Paid ProviderOrder
  pub new_id : String
  pub now : ℕ

-- `orderLifetime`, in seconds.
abbrev pub order_lifetime : ℕ
order_lifetime = 1800

-- `strings.ReplaceAll(id, "-", "")`
unfoldable pub without_dashes : String → String
without_dashes String.[] = String.[]
without_dashes (String.◌∷◌ c s) =
    if code c == 45 then without_dashes s else String.◌∷◌ c (without_dashes s)

-- The first package that the request may buy.
unfoldable pub select_package : List RechargePackage → String → String → ℕ → Option RechargePackage
select_package [] id currency now = none
select_package (p ∷ ps) id currency now =
    if str_eq p.id id
      && p.enabled
      && str_eq p.kind "recharge"
      && equal_fold p.currency currency
      && is_recharge_package_active p now
    then some p
    else select_package ps id currency now

-- What an order charges and credits.
pub record Terms : Type 0 where
  pub tenant_id : ℕ
  pub user_id : ℕ
  pub provider : Provider
  pub amount : ℕ
  pub credited_amount : ℕ
  pub recharge_rate : ℕ
  pub package_id : String
  pub bonus_amount : ℕ
  pub valid_until : Option ℕ

-- The package of the request, if it names one, whose amount has to be the one that is paid.
unfoldable pub chosen_package : Desk → CreateRequest → ℕ → Paid (Option RechargePackage)
chosen_package desk r amount = if str_eq r.package_id "" then ok none else do
  packages ← desk.packages
  p ←
      or_error (select_package packages r.package_id r.currency desk.now)
        PaymentError.invalid_request
  guard (same_amount (printed amount) (printed p.amount) r.currency) PaymentError.invalid_request
  ok (some p)

unfoldable pub credit_basis : ℕ → Option RechargePackage → ℕ
credit_basis amount none = amount
credit_basis amount (some p) = p.credited_amount

unfoldable pub valid_until : ℕ → Option RechargePackage → Option ℕ
valid_until now none = none
valid_until now (some p) =
    if ltb 0 p.validity_days then some (now + p.validity_days * 86400) else none

abbrev pub bought_id : Option RechargePackage → String
bought_id none = ""
bought_id (some p) = p.id

abbrev pub bought_bonus : Option RechargePackage → ℕ
bought_bonus none = 0
bought_bonus (some p) = p.bonus_amount

-- `CreateOrder` from its start to the query of the idempotency key.
unfoldable pub order_terms : Desk → CreateRequest → Database → Paid Terms
order_terms desk r ledger = do
  tenant ← or_error r.tenant_id PaymentError.invalid_request
  user ← or_error r.user_id PaymentError.invalid_request
  provider ← or_error (parse_provider r.provider) PaymentError.invalid_request
  guard
      (not (str_eq r.idempotency_key "")
        && leb (len r.idempotency_key) 128
        && desk.valid_https_url r.return_url)
      PaymentError.invalid_request
  amount ← normalize_amount r.amount r.currency
  guard (provider_supports_currency provider r.currency) PaymentError.currency_mismatch
  account ←
      or_error (prepaid_account ledger.accounts tenant r.currency)
        (PaymentError.billing BillingError.account_not_found)
  guard (str_eq account.1.currency r.currency) PaymentError.currency_mismatch
  enabled ← or_error (desk.enabled provider) PaymentError.provider_disabled
  guard enabled PaymentError.provider_disabled
  guard (desk.configured provider) PaymentError.provider_unconfigured
  bought ← chosen_package desk r amount
  let rate = normalized_recharge_rate (desk.recharge_rate provider)
  credited ← apply_recharge_rate (printed (credit_basis amount bought)) (printed rate) r.currency
  ok (record {
    tenant_id = tenant;
    user_id = user;
    provider = provider;
    amount = amount;
    credited_amount = credited;
    recharge_rate = rate;
    package_id = bought_id bought;
    bonus_amount = bought_bonus bought;
    valid_until = valid_until desk.now bought;
  })

-- The row of the insert.
unfoldable pub order_row : Desk → CreateRequest → Terms → Order
order_row desk r t = record {
  tenant_id = t.tenant_id;
  user_id = t.user_id;
  provider = t.provider;
  merchant_order_no = "recharge_" ++ without_dashes desk.new_id;
  provider_order_id = "";
  amount = t.amount;
  credited_amount = t.credited_amount;
  recharge_rate = t.recharge_rate;
  currency = r.currency;
  package_id = t.package_id;
  bonus_amount = t.bonus_amount;
  valid_until = t.valid_until;
  status = OrderStatus.pending;
  checkout_url = "";
  checkout_client_secret = "";
  qr_code = "";
  failure_reason = "";
  paid_at = none;
  expires_at = desk.now + order_lifetime;
  idempotency_key = r.idempotency_key;
}

-- The query of an order by its tenant and idempotency key.
unfoldable pub existing_order : ℕ → String → Map Order → Option (String × Order)
existing_order tenant key orders =
    find_by (λ o. o.tenant_id == tenant && str_eq o.idempotency_key key) orders

-- The unique columns of an insert.
unfoldable pub violates_unique : String → Order → Map Order → Bool
violates_unique id order orders =
    is_some (lookup id orders)
    || is_some (find_by (λ o. str_eq o.merchant_order_no order.merchant_order_no) orders)
    || is_some (existing_order order.tenant_id order.idempotency_key orders)

-- `getExistingByIdempotency`
unfoldable pub get_existing_by_idempotency : ℕ → String → Store → Paid Order
get_existing_by_idempotency tenant key s = do
  found ← or_error (existing_order tenant key s.orders) PaymentError.invalid_request
  ok found.1

-- `markFailed`
unfoldable pub mark_failed : String → String → Store → Store
mark_failed id reason s =
    update_pending id (λ o. record o { status = OrderStatus.failed; failure_reason = reason }) s

abbrev pub with_checkout : ProviderOrder → Order → Order
with_checkout p o = record o {
  provider_order_id = p.provider_order_id;
  checkout_url = p.checkout_url;
  qr_code = p.qr_code;
  checkout_client_secret = p.checkout_client_secret;
}

-- `updateProviderOrder`, whatever the status.
unfoldable pub update_provider_order : String → ProviderOrder → Store → Outcome Order
update_provider_order id p s = elim (lookup id s.orders) [
  | none ↦ (err PaymentError.order_not_found, s)
  | some order ↦
      (ok (with_checkout p order), record s { orders = insert id (with_checkout p order) s.orders })
]

-- The provider's checkout, after the insert; `reason` is what its error says.
unfoldable pub open_checkout : Desk → String → Order → Store → Outcome Order
open_checkout desk reason order s = elim (desk.checkout desk.new_id order) [
  | err e ↦ (err e, mark_failed desk.new_id reason s)
  | ok p ↦ update_provider_order desk.new_id p s
]

-- The insert, whose row has to meet the checks of the table: its rate is positive.
unfoldable pub insert_order : Desk → String → Order → Store → Outcome Order
insert_order desk reason order s =
    if order.recharge_rate == 0
    then (err PaymentError.database_failure, s)
    else if violates_unique desk.new_id order s.orders
    then (get_existing_by_idempotency order.tenant_id order.idempotency_key s, s)
    else open_checkout desk reason order (record s { orders = insert desk.new_id order s.orders })

-- `CreateOrder`
unfoldable pub create_order : Desk → String → CreateRequest → Store → Outcome Order
create_order desk reason r s = elim (order_terms desk r s.ledger) [
  | err e ↦ (err e, s)
  | ok t ↦ elim (existing_order t.tenant_id r.idempotency_key s.orders) [
    | some (id, order) ↦ (ok order, s)
    | none ↦ insert_order desk reason (order_row desk r t) s
  ]
]
