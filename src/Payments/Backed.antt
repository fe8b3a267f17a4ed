-- ===== src/Payments/Backed.antt =====
-- Every order that internal/payments/service.go marks as paid has been credited.
use Prim.Native.String.{String}
use model_bridge.Base.{◌≡◌, true, some, Bool-cases, inl, inr}
use model_bridge.Base.Texts.{Map, lookup, insert, str_eq, eq_iff}
use model_bridge.Ledger.Posting.{has_transaction}
use model_bridge.Base.{List, [], ◌∷◌}
use model_bridge.Ledger.State.{TransactionKey}
use model_bridge.Ledger.Keys.{Grown, Grown-has_transaction}
use model_bridge.Ledger.Runs.{Step-Touched}
use model_bridge.Payments.Orders.{Order, OrderStatus, Store}
use model_bridge.Payments.Settled.{ledger_key}
use model_bridge.Payments.Runs.{Step, Reach}
use model_bridge.Payments.Calls.{Call, answer_all, answer_all-Reach}
use model_bridge.Ledger.Quote.{Catalog}

-- A paid order has its credit among the keys of the ledger.
abbrev pub IsBacked : List TransactionKey → String → OrderStatus → Type 0
IsBacked keys id OrderStatus.paid = has_transaction (ledger_key id) keys ≡ true
IsBacked keys id OrderStatus.pending = Unit
IsBacked keys id OrderStatus.failed = Unit
IsBacked keys id OrderStatus.cancelled = Unit
IsBacked keys id OrderStatus.expired = Unit

abbrev pub Backed : List TransactionKey → Map Order → Type 0
Backed keys [] = Unit
Backed keys ((id, order) ∷ rest) = IsBacked keys id order.status × Backed keys rest

IsBacked-Grown :
    {keys later : List TransactionKey} (id : String) (status : OrderStatus)
    → Grown keys later
    → IsBacked keys id status
    → IsBacked later id status
IsBacked-Grown id OrderStatus.paid g h = Grown-has_transaction (ledger_key id) g h
IsBacked-Grown id OrderStatus.pending g h = tt
IsBacked-Grown id OrderStatus.failed g h = tt
IsBacked-Grown id OrderStatus.cancelled g h = tt
IsBacked-Grown id OrderStatus.expired g h = tt

Backed-Grown :
    {keys later : List TransactionKey} (orders : Map Order)
    → Grown keys later
    → Backed keys orders
    → Backed later orders
Backed-Grown [] g b = tt
Backed-Grown ((id, order) ∷ rest) g b =
    (IsBacked-Grown id order.status g b.0, Backed-Grown rest g b.1)

Backed-insert :
    (keys : List TransactionKey) (id : String) (new : Order) (orders : Map Order)
    → IsBacked keys id new.status
    → Backed keys orders
    → Backed keys (insert id new orders)
Backed-insert keys id new [] h b = (h, tt)
Backed-insert keys id new ((j, o) ∷ orders) h b = elim (Bool-cases (str_eq j id)) [
  | inl same ↦ rw same (h, b.1)
  | inr other ↦ rw other (b.0, Backed-insert keys id new orders h b.1)
]

Backed-lookup :
    (keys : List TransactionKey) (id : String) (order : Order) (orders : Map Order)
    → lookup id orders ≡ some order
    → Backed keys orders
    → IsBacked keys id order.status
Backed-lookup keys id order [] e b = cc e
Backed-lookup keys id order ((j, o) ∷ orders) e b = elim (Bool-cases (str_eq j id)) [
  | inl same ↦ let equal : o ≡ order = cc (rw same at e) in rw (← equal, ← (eq_iff j id).0 same) b.0
  | inr other ↦ Backed-lookup keys id order orders (rw other at e) b.1
]

unpaid :
    (keys : List TransactionKey) (id : String) (status : OrderStatus)
    → status ≡ OrderStatus.pending
    → IsBacked keys id status
unpaid keys id status e = rw e tt

Step-Backed :
    {s t : Store} {catalog : Catalog}
    → Step catalog s t
    → Backed s.ledger.transactions s.orders
    → Backed t.ledger.transactions t.orders
Step-Backed {s} (Step.billed ledger step) b = Backed-Grown s.orders (Step-Touched step).keys b
Step-Backed {s} (Step.inserted id order new pending) b =
    Backed-insert s.ledger.transactions id order s.orders
      (unpaid s.ledger.transactions id order.status pending) b
Step-Backed {s} (Step.checked_out id order p found) b =
    Backed-insert s.ledger.transactions id _ s.orders
      (Backed-lookup s.ledger.transactions id order s.orders found b) b
Step-Backed {s} (Step.failed id order reason found pending) b =
    Backed-insert s.ledger.transactions id _ s.orders tt b
Step-Backed {s} (Step.expired id order found pending) b =
    Backed-insert s.ledger.transactions id _ s.orders tt b
Step-Backed {s} (Step.paid id order now p found pending recorded) b =
    Backed-insert s.ledger.transactions id _ s.orders recorded b

pub Reach-Backed :
    {start s : Store}
    → Reach start s
    → Backed start.ledger.transactions start.orders
    → Backed s.ledger.transactions s.orders
Reach-Backed Reach.here b = b
Reach-Backed (Reach.next catalog run step) b = Step-Backed step (Reach-Backed run b)

-- After every sequence of orders, webhooks and captures, with whatever the providers answer and
-- whichever last updates fail, every order that is paid has its credit in the ledger, where this
-- holds before.
pub answer_all-Backed :
    (catalog : Catalog) (calls : List Call) (s : Store)
    → Backed s.ledger.transactions s.orders
    → let after = answer_all catalog calls s in Backed after.ledger.transactions after.orders
answer_all-Backed catalog calls s b = Reach-Backed (answer_all-Reach catalog calls s) b
