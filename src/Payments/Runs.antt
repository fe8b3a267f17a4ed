-- ===== src/Payments/Runs.antt =====
-- Runs of internal/payments/service.go: its commits and those of the billing service, in any order.
use Prim.Native.String.{String}
use model_bridge.Base.{ℕ, ◌≡◌, true, none, some}
use model_bridge.Base.Texts.{lookup, insert}
use model_bridge.Ledger.State.{Database}
use model_bridge.Ledger.Quote.{Catalog}
use model_bridge.Ledger.Posting.{has_transaction}
use model_bridge.Ledger.Runs
use model_bridge.Ledger.Runs.{Step-Touched}
use model_bridge.Payments.Orders.{Order, OrderStatus, Store, is_pending}
use model_bridge.Payments.Rows.{Keyed, insert-Keyed}
use model_bridge.Payments.Create.{ProviderOrder, with_checkout}
use model_bridge.Payments.Callback.{CallbackPayment, paid_row, expired_row}
use model_bridge.Payments.Settled.{ledger_key}

abbrev pub failed_row : String → Order → Order
failed_row reason order = record order { status = OrderStatus.failed; failure_reason = reason }

-- One commit. The update to paid follows a credit of the order or the refusal of a second one.
pub data Step (catalog : Catalog) (s : Store) : Store → Type 0 where
  billed :
      (ledger : Database)
      → Runs.Step catalog s.ledger ledger
      → Step catalog s (record s { ledger = ledger })
  inserted :
      (id : String) (order : Order)
      → lookup id s.orders ≡ none
      → order.status ≡ OrderStatus.pending
      → Step catalog s (record s { orders = insert id order s.orders })
  checked_out :
      (id : String) (order : Order) (p : ProviderOrder)
      → lookup id s.orders ≡ some order
      → Step catalog s (record s { orders = insert id (with_checkout p order) s.orders })
  failed :
      (id : String) (order : Order) (reason : String)
      → lookup id s.orders ≡ some order
      → is_pending order.status ≡ true
      → Step catalog s (record s { orders = insert id (failed_row reason order) s.orders })
  expired :
      (id : String) (order : Order)
      → lookup id s.orders ≡ some order
      → is_pending order.status ≡ true
      → Step catalog s (record s { orders = insert id (expired_row order) s.orders })
  paid :
      (id : String) (order : Order) (now : ℕ) (p : CallbackPayment)
      → lookup id s.orders ≡ some order
      → is_pending order.status ≡ true
      → has_transaction (ledger_key id) s.ledger.transactions ≡ true
      → Step catalog s (record s { orders = insert id (paid_row now p order) s.orders })

-- The stores that the service comes to; the tables of prices may be others at each step.
pub data Reach (start : Store) : Store → Type 0 where
  here : Reach start start
  next : {s t : Store} (catalog : Catalog) → Reach start s → Step catalog s t → Reach start t

-- The ledger only changes as the billing service changes it.
pub Reach-ledger : {start s : Store} → Reach start s → Runs.Reach start.ledger s.ledger
Reach-ledger Reach.here = Runs.Reach.here
Reach-ledger (Reach.next catalog run (Step.billed ledger step)) =
    Runs.Reach.next catalog (Reach-ledger run) step
Reach-ledger (Reach.next catalog run (Step.inserted id order new pending)) = Reach-ledger run
Reach-ledger (Reach.next catalog run (Step.checked_out id order p found)) = Reach-ledger run
Reach-ledger (Reach.next catalog run (Step.failed id order reason found pending)) = Reach-ledger run
Reach-ledger (Reach.next catalog run (Step.expired id order found pending)) = Reach-ledger run
Reach-ledger (Reach.next catalog run (Step.paid id order now p found pending recorded)) =
    Reach-ledger run

pub Reach-Keyed : {start s : Store} → Reach start s → Keyed start.orders → Keyed s.orders
Reach-Keyed Reach.here k = k
Reach-Keyed (Reach.next catalog run (Step.billed ledger step)) k = Reach-Keyed run k
Reach-Keyed (Reach.next catalog run (Step.inserted id order new pending)) k =
    insert-Keyed id _ _ (Reach-Keyed run k)
Reach-Keyed (Reach.next catalog run (Step.checked_out id order p found)) k =
    insert-Keyed id _ _ (Reach-Keyed run k)
Reach-Keyed (Reach.next catalog run (Step.failed id order reason found pending)) k =
    insert-Keyed id _ _ (Reach-Keyed run k)
Reach-Keyed (Reach.next catalog run (Step.expired id order found pending)) k =
    insert-Keyed id _ _ (Reach-Keyed run k)
Reach-Keyed (Reach.next catalog run (Step.paid id order now p found pending recorded)) k =
    insert-Keyed id _ _ (Reach-Keyed run k)
