-- ===== src/Payments/Orders.antt =====
-- The rows of `payment_orders` that internal/payments/service.go reads and writes.
--
-- Order identifiers are texts, since the key of a ledger transaction is made of one. Amounts are
-- whole numbers of 10^-12, as in the `numeric(30, 12)` columns of migrations/047_payments.sql.
use Prim.Native.String.{String, ◌++◌}
use model_bridge.Base.{ℕ, [], ◌∷◌, Bool, true, false, if◌then◌else◌, Option, none, some, ◌*◌, ◌^◌}
use model_bridge.Base.Texts.{Map, lookup, insert, str_eq, trim_space}
use model_bridge.Base.Results.{Result}
use model_bridge.Metering.Select.{to_lower}
use model_bridge.Metering.Defs.{Decimal}
use model_bridge.Ledger.State.{Database}
use model_bridge.Ledger.Credit.{CreditRequest}
use model_bridge.Payments.Amounts.{PaymentError, Provider}

pub data OrderStatus : Type 0 where
  pending paid failed cancelled expired : OrderStatus

-- `Order`; an empty text stands for a column that is null.
pub record Order : Type 0 where
  pub tenant_id : ℕ
  pub user_id : ℕ
  pub provider : Provider
  pub merchant_order_no : String
  pub provider_order_id : String
  pub amount : ℕ
  pub credited_amount : ℕ
  pub recharge_rate : ℕ
  pub currency : String
  pub package_id : String
  pub bonus_amount : ℕ
  pub valid_until : Option ℕ
  pub status : OrderStatus
  pub checkout_url : String
  pub checkout_client_secret : String
  pub qr_code : String
  pub failure_reason : String
  pub paid_at : Option ℕ
  pub expires_at : ℕ
  pub idempotency_key : String

-- The orders, and the ledger of the billing service.
pub record Store : Type 0 where
  pub orders : Map Order
  pub ledger : Database

-- What an operation returns, and the store that it leaves: several commits may precede an error.
abbrev pub Outcome : Type 0 → Type 0
Outcome A = Result PaymentError A × Store

-- `supportedProvider`, and the provider that the text names.
unfoldable pub parse_provider : String → Option Provider
parse_provider text =
    let p = to_lower (trim_space text) in
    if str_eq p "wechat"
    then some Provider.wechat
    else if str_eq p "alipay"
    then some Provider.alipay
    else if str_eq p "stripe"
    then some Provider.stripe
    else if str_eq p "paypal"
    then some Provider.paypal
    else none

abbrev pub same_provider : Provider → Provider → Bool
same_provider Provider.wechat Provider.wechat = true
same_provider Provider.alipay Provider.alipay = true
same_provider Provider.stripe Provider.stripe = true
same_provider Provider.paypal Provider.paypal = true
same_provider p q = false

abbrev pub is_pending : OrderStatus → Bool
is_pending OrderStatus.pending = true
is_pending OrderStatus.paid = false
is_pending OrderStatus.failed = false
is_pending OrderStatus.cancelled = false
is_pending OrderStatus.expired = false

abbrev pub is_paid : OrderStatus → Bool
is_paid OrderStatus.pending = false
is_paid OrderStatus.paid = true
is_paid OrderStatus.failed = false
is_paid OrderStatus.cancelled = false
is_paid OrderStatus.expired = false

-- `WHERE` some column has a value: the first such row.
unfoldable pub find_by {ℓ} : {V : Type ℓ} → (V → Bool) → Map V → Option (String × V)
find_by test [] = none
find_by test ((id, order) ∷ rest) = if test order then some (id, order) else find_by test rest

-- `WHERE id = … AND status = 'pending'` of an update.
unfoldable pub update_pending : String → (Order → Order) → Store → Store
update_pending id change s = elim (lookup id s.orders) [
  | none ↦ s
  | some order ↦
      if is_pending order.status then record s { orders = insert id (change order) s.orders } else s
]

-- The key under which `settleCallback` credits an order.
abbrev pub credit_key : String → String
credit_key id = "payment:credit:" ++ id

-- The credit that an order asks of the billing service.
unfoldable pub credit_request : String → Order → CreditRequest
credit_request id order = record {
  tenant_id = some order.tenant_id;
  currency = order.currency;
  amount = Decimal.amount (order.credited_amount * 10 ^ 18);
  idempotency_key = credit_key id;
  reason = "online recharge " ++ order.merchant_order_no;
  direction = "";
}
