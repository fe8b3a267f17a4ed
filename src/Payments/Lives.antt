-- ===== src/Payments/Lives.antt =====
-- What runs of internal/payments/service.go keep of their orders.
use Prim.Native.String.{String}
use model_bridge.Base.{List, ℕ, ◌≡◌, refl, true, none, some, arith, Bool-cases, inl, inr}
use model_bridge.Base.Texts.{Map, lookup, insert, lookup-insert, str_eq, eq_iff}
use model_bridge.Payments.Orders.{Order, OrderStatus, Store, is_pending}
use model_bridge.Payments.Runs.{Step, Reach, failed_row}
use model_bridge.Payments.Create.{ProviderOrder, with_checkout}
use model_bridge.Payments.Callback.{CallbackPayment, paid_row, expired_row}
use model_bridge.Payments.Calls.{Call, answer_all, answer_all-Reach}
use model_bridge.Ledger.Quote.{Catalog}

-- A status that is not pending is final.
pub data Closes (status : OrderStatus) : OrderStatus → Type 0 where
  stay : Closes status status
  close : (later : OrderStatus) → status ≡ OrderStatus.pending → Closes status later

Closes-trans : {a b c : OrderStatus} → Closes a b → Closes b c → Closes a c
Closes-trans Closes.stay n = n
Closes-trans (Closes.close b e) Closes.stay = Closes.close b e
Closes-trans (Closes.close b e) (Closes.close c f) = Closes.close c e

-- An order later in its life: its terms stay, and its status moves as it may.
pub record Later (o o' : Order) : Type 0 where
  pub tenant_id : o'.tenant_id ≡ o.tenant_id
  pub provider : o'.provider ≡ o.provider
  pub merchant_order_no : o'.merchant_order_no ≡ o.merchant_order_no
  pub amount : o'.amount ≡ o.amount
  pub credited_amount : o'.credited_amount ≡ o.credited_amount
  pub currency : o'.currency ≡ o.currency
  pub expires_at : o'.expires_at ≡ o.expires_at
  pub status : Closes o.status o'.status

Later-trans : {a b c : Order} → Later a b → Later b c → Later a c
Later-trans m n = record {
  tenant_id = cc (m.tenant_id, n.tenant_id);
  provider = cc (m.provider, n.provider);
  merchant_order_no = cc (m.merchant_order_no, n.merchant_order_no);
  amount = cc (m.amount, n.amount);
  credited_amount = cc (m.credited_amount, n.credited_amount);
  currency = cc (m.currency, n.currency);
  expires_at = cc (m.expires_at, n.expires_at);
  status = Closes-trans m.status n.status;
}

Later-refl : (o : Order) → Later o o
Later-refl o = record {
  tenant_id = refl;
  provider = refl;
  merchant_order_no = refl;
  amount = refl;
  credited_amount = refl;
  currency = refl;
  expires_at = refl;
  status = Closes.stay;
}

-- A row under the identifier, later in the life of the order.
abbrev pub Lives : String → Order → Map Order → Type 0
Lives id o orders = (o' : Order) × (lookup id orders ≡ some o') × Later o o'

-- A write over a row.
Lives-insert :
    (id j : String) (old new o : Order) (orders : Map Order)
    → lookup id orders ≡ some old
    → Later old new
    → lookup j orders ≡ some o
    → Lives j o (insert id new orders)
Lives-insert id j old new o orders found later e = elim (Bool-cases (str_eq id j)) [
  | inl same ↦
      let equal : old ≡ o = ground (arith, found, e, eq_iff id j, same) in
      (new, rw (lookup-insert id j new orders, same) refl, rw (← equal) later)
  | inr other ↦ (o, rw (lookup-insert id j new orders, other) e, Later-refl o)
]

-- The insert of a new row.
Lives-new :
    (id j : String) (new o : Order) (orders : Map Order)
    → lookup id orders ≡ none
    → lookup j orders ≡ some o
    → Lives j o (insert id new orders)
Lives-new id j new o orders absent e = elim (Bool-cases (str_eq id j)) [
  | inl same ↦
      let absent' : lookup j orders ≡ none = rw ((eq_iff id j).0 same) at absent in cc (absent', e)
  | inr other ↦ (o, rw (lookup-insert id j new orders, other) e, Later-refl o)
]

pub open_still : (o : Order) → is_pending o.status ≡ true → o.status ≡ OrderStatus.pending
open_still o h = ground (arith, h)

checks_out : (p : ProviderOrder) (order : Order) → Later order (with_checkout p order)
checks_out p order = record {
  tenant_id = refl;
  provider = refl;
  merchant_order_no = refl;
  amount = refl;
  credited_amount = refl;
  currency = refl;
  expires_at = refl;
  status = Closes.stay;
}

fails :
    (reason : String) (order : Order)
    → order.status ≡ OrderStatus.pending
    → Later order (failed_row reason order)
fails reason order e = record {
  tenant_id = refl;
  provider = refl;
  merchant_order_no = refl;
  amount = refl;
  credited_amount = refl;
  currency = refl;
  expires_at = refl;
  status = Closes.close OrderStatus.failed e;
}

expires : (order : Order) → order.status ≡ OrderStatus.pending → Later order (expired_row order)
expires order e = record {
  tenant_id = refl;
  provider = refl;
  merchant_order_no = refl;
  amount = refl;
  credited_amount = refl;
  currency = refl;
  expires_at = refl;
  status = Closes.close OrderStatus.expired e;
}

pays :
    (now : ℕ) (p : CallbackPayment) (order : Order)
    → order.status ≡ OrderStatus.pending
    → Later order (paid_row now p order)
pays now p order e = record {
  tenant_id = refl;
  provider = refl;
  merchant_order_no = refl;
  amount = refl;
  credited_amount = refl;
  currency = refl;
  expires_at = refl;
  status = Closes.close OrderStatus.paid e;
}

Step-Lives :
    {s t : Store} {catalog : Catalog} (j : String) (o : Order)
    → Step catalog s t
    → lookup j s.orders ≡ some o
    → Lives j o t.orders
Step-Lives j o (Step.billed ledger step) e = (o, e, Later-refl o)
Step-Lives {s} j o (Step.inserted id order new pending) e = Lives-new id j order o s.orders new e
Step-Lives {s} j o (Step.checked_out id order p found) e =
    Lives-insert id j order _ o s.orders found (checks_out p order) e
Step-Lives {s} j o (Step.failed id order reason found pending) e =
    Lives-insert id j order _ o s.orders found (fails reason order (open_still order pending)) e
Step-Lives {s} j o (Step.expired id order found pending) e =
    Lives-insert id j order _ o s.orders found (expires order (open_still order pending)) e
Step-Lives {s} j o (Step.paid id order now p found pending recorded) e =
    Lives-insert id j order _ o s.orders found (pays now p order (open_still order pending)) e

pub Reach-Lives :
    {start s : Store} (id : String) (o : Order)
    → Reach start s
    → lookup id start.orders ≡ some o
    → Lives id o s.orders
Reach-Lives id o Reach.here e = (o, e, Later-refl o)
Reach-Lives id o (Reach.next catalog run step) e =
    let (before, found, m) = Reach-Lives id o run e in
    let (after, found', n) = Step-Lives id before step found in (after, found', Later-trans m n)

-- Through every sequence of orders, webhooks and captures, with whatever the providers answer and
-- whichever last updates fail, an order keeps its tenant, its provider, its amount, what it credits
-- and when it expires; and once its status is not pending, its status never changes again: a paid
-- order stays paid, and a failed or expired one is never paid.
pub answer_all-Lives :
    (catalog : Catalog) (calls : List Call) (s : Store) (id : String) (o : Order)
    → lookup id s.orders ≡ some o
    → (o' : Order) × (lookup id (answer_all catalog calls s).orders ≡ some o') × Later o o'
answer_all-Lives catalog calls s id o e = Reach-Lives id o (answer_all-Reach catalog calls s) e
