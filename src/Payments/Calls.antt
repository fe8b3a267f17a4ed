-- ===== src/Payments/Calls.antt =====
-- Sequences of calls of internal/payments/service.go.
use Prim.Native.String.{String}
use model_bridge.Base.{ℕ, Bool, List, [], ◌∷◌}
use model_bridge.Base.Results.{Result}
use model_bridge.Ledger.Quote.{Catalog}
use model_bridge.Payments.Amounts.{PaymentError, Provider, AmountText}
use model_bridge.Payments.Orders.{Store}
use model_bridge.Payments.Create.{Desk, CreateRequest, create_order}
use model_bridge.Payments.Callback.{CallbackPayment, handle_webhook, capture_paypal}
use model_bridge.Payments.Runs.{Reach}
use model_bridge.Payments.Operations.{
  create_order-Reach, handle_webhook-Reach, capture_paypal-Reach,
}

-- What `ids.New`, the clock and the database give a callback: the identifier of an account that it
-- may open, the time, and whether its last update fails.
pub record Moment : Type 0 where
  pub fresh : ℕ
  pub now : ℕ
  pub write_fails : Bool

-- The methods of `Service` that write.
pub data Call : Type 0 where
  creates : Desk → String → CreateRequest → Call
  notifies :
      Moment
      → String
      → ℕ
      → (Provider → Bool)
      → (Provider → Result PaymentError CallbackPayment)
      → Call
  captures : Moment → (String → Result PaymentError (String × AmountText)) → ℕ → String → Call

unfoldable pub answer : Catalog → Call → Store → Store
answer catalog (Call.creates desk reason r) s = (create_order desk reason r s).1
answer catalog (Call.notifies m provider body configured verify) s =
    (handle_webhook catalog m.fresh m.now m.write_fails provider body configured verify s).1
answer catalog (Call.captures m capture tenant id) s =
    (capture_paypal catalog m.fresh m.now m.write_fails capture tenant id s).1

unfoldable pub answer_all : Catalog → List Call → Store → Store
answer_all catalog [] s = s
answer_all catalog (call ∷ calls) s = answer_all catalog calls (answer catalog call s)

Reach-trans : {a b c : Store} → Reach a b → Reach b c → Reach a c
Reach-trans r Reach.here = r
Reach-trans r (Reach.next catalog q step) = Reach.next catalog (Reach-trans r q) step

answer-Reach : (catalog : Catalog) (call : Call) (s : Store) → Reach s (answer catalog call s)
unfolding answer
answer-Reach catalog (Call.creates desk reason r) s = create_order-Reach catalog desk reason r s
answer-Reach catalog (Call.notifies m provider body configured verify) s =
    handle_webhook-Reach catalog m.fresh m.now m.write_fails provider body configured verify s
answer-Reach catalog (Call.captures m capture tenant id) s =
    capture_paypal-Reach catalog m.fresh m.now m.write_fails capture tenant id s

-- Every sequence of orders, webhooks and captures, with whatever the providers answer and whichever
-- last updates fail, is a run of single commits: of an insert, of a checkout, of the end of a
-- pending order, of its payment where its credit is in the ledger, or of the billing service.
pub answer_all-Reach :
    (catalog : Catalog) (calls : List Call) (s : Store) → Reach s (answer_all catalog calls s)
unfolding answer_all
answer_all-Reach catalog [] s = Reach.here
answer_all-Reach catalog (call ∷ calls) s =
    Reach-trans (answer-Reach catalog call s)
      (answer_all-Reach catalog calls (answer catalog call s))
