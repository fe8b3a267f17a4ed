-- ===== src/Payments/Operations.antt =====
-- The operations of internal/payments/service.go are runs of its commits.
use Prim.Native.String.{String}
use model_bridge.Base.{
  ℕ, ◌^◌, ◌*◌, ◌≡◌, refl, Bool, true, false, ◌||◌, not, ltb, ◌==◌, if◌then◌else◌, none, some,
  Bool-cases, Option-cases, inl, inr,
}
use model_bridge.Base.Texts.{Map, lookup, insert, str_eq}
use model_bridge.Base.Results.{Result, Result-cases}
use model_bridge.Ledger.State.{Database}
use model_bridge.Ledger.Quote.{Catalog}
use model_bridge.Ledger.Runs
use model_bridge.Payments.Amounts.{PaymentError, Provider, AmountText}
use model_bridge.Payments.Orders.{
  Order, OrderStatus, Store, Outcome, credit_request, update_pending, is_pending, is_paid,
  parse_provider, same_provider,
}
use model_bridge.Payments.Create.{
  Desk, CreateRequest, order_row, order_terms, existing_order, violates_unique, mark_failed,
  update_provider_order, open_checkout, insert_order, create_order,
}
use model_bridge.Payments.Callback.{
  CallbackPayment, paid_row, expired_row, mark_paid, settle_callback, handle_webhook,
  capture_paypal,
}
use model_bridge.Payments.Settled.{
  Carried, ledger_key, Does, settle_callback-Does, settle_callback-Matched, credit_order-cases,
}
use model_bridge.Ledger.Posting.{has_transaction}
use model_bridge.Payments.Runs.{Step, Reach, failed_row}

-- A branch.
if-Reach :
    {A : Type 0} (b : Bool) (x y : Outcome A) {s : Store}
    → Reach s x.1
    → Reach s y.1
    → Reach s (if b then x else y).1
if-Reach true x y r q = r
if-Reach false x y r q = q

-- An update of a pending row, or none.
update_pending-Reach :
    (catalog : Catalog) (id : String) (change : Order → Order) {start s : Store}
    → Reach start s
    → ((order : Order)
        → lookup id s.orders ≡ some order
        → is_pending order.status ≡ true
        → Step catalog s (record s { orders = insert id (change order) s.orders }))
    → Reach start (update_pending id change s)
unfolding update_pending
update_pending-Reach catalog id change {start} {s} run step =
    elim (Option-cases (lookup id s.orders)) [
      | inl absent ↦ rw (absent, update_pending) run
      | inr (order, found) ↦ elim (Bool-cases (is_pending order.status)) [
        | inl pending ↦
            rw (found, update_pending, pending) (Reach.next catalog run (step order found pending))
        | inr closed ↦ rw (found, update_pending, closed) run
      ]
    ]

mark_paid-Reach :
    (catalog : Catalog) (now : ℕ) (write_fails : Bool) (p : CallbackPayment) (id : String)
    {start s : Store}
    → Reach start s
    → has_transaction (ledger_key id) s.ledger.transactions ≡ true
    → Reach start (mark_paid now write_fails p id s).1
unfolding mark_paid
mark_paid-Reach catalog now true p id run recorded = run
mark_paid-Reach catalog now false p id {s = s} run recorded =
    update_pending-Reach catalog id (paid_row now p) run
      (λ order found pending. Step.paid id order now p found pending recorded)

-- The credit of an order is a commit of the billing service, or none.
credit-Reach :
    (catalog : Catalog) (fresh : ℕ) (id : String) (order : Order) (s : Store) (ledger : Database)
    → Carried catalog fresh id order s ledger
    → Reach s (record s { ledger = ledger })
credit-Reach catalog fresh id order s ledger carried = elim carried.how [
  | inl same ↦ rw same Reach.here
  | inr (b, c) ↦
      Reach.next catalog Reach.here
        (Step.billed ledger (Runs.Step.credited fresh (credit_request id order) b c))
]

module _ (catalog : Catalog) (fresh now : ℕ) (write_fails : Bool) where
  pub settle_callback-Reach :
      (p : CallbackPayment) (s : Store)
      → Reach s (settle_callback catalog fresh now write_fails p s).1
  settle_callback-Reach p s = elim (settle_callback-Does catalog fresh now write_fails p s) [
    | Does.refuses result run ↦ rw run Reach.here
    | Does.expires id order found pending late run ↦ rw run (
        update_pending-Reach catalog id expired_row Reach.here
          (λ row e open_row. Step.expired id row e open_row))
    | Does.credits id order m ↦
        let run = settle_callback-Matched catalog fresh now write_fails p s id order m in
        elim (credit_order-cases catalog fresh now write_fails p id order s) [
          | inr (e, failed) ↦ rw (run, failed) Reach.here
          | inl (ledger, carried, paid) ↦
              rw (run, paid)
                (mark_paid-Reach catalog now write_fails p id
                  (credit-Reach catalog fresh id order s ledger carried) carried.recorded)
        ]
  ]

  pub handle_webhook-Reach :
      (provider : String) (body : ℕ) (configured : Provider → Bool)
      (verify : Provider → Result PaymentError CallbackPayment) (s : Store)
      → Reach s (handle_webhook catalog fresh now write_fails provider body configured verify s).1
  unfolding handle_webhook
  handle_webhook-Reach provider body configured verify s =
      elim (Option-cases (parse_provider provider)) [
        | inl unsupported ↦ rw (unsupported, handle_webhook) Reach.here
        | inr (named, e) ↦
            rw (e, handle_webhook)
              (if-Reach (body == 0 || ltb (2 * 2 ^ 20) body) _ _ Reach.here (
                if-Reach (not (configured named)) _ _ Reach.here
                  (elim (Result-cases (verify named)) [
                    | inr (failure, f) ↦ rw f Reach.here
                    | inl (payment, f) ↦ rw f (
                        if-Reach payment.paid _ _
                          (settle_callback-Reach (record payment { provider = some named }) s)
                          (if-Reach
                            (not (str_eq payment.merchant_order_no "")
                              || not (str_eq payment.provider_order_id ""))
                            _ _ Reach.here Reach.here))
                  ])))
      ]

  pub capture_paypal-Reach :
      (capture : String → Result PaymentError (String × AmountText)) (tenant : ℕ) (id : String)
      (s : Store)
      → Reach s (capture_paypal catalog fresh now write_fails capture tenant id s).1
  unfolding capture_paypal
  capture_paypal-Reach capture tenant id s = elim (Option-cases (lookup id s.orders)) [
    | inl absent ↦ rw (absent, capture_paypal) Reach.here
    | inr (order, e) ↦
        rw (e, capture_paypal)
          (if-Reach (not (order.tenant_id == tenant)) _ _ Reach.here (
            if-Reach (not (same_provider order.provider Provider.paypal)) _ _ Reach.here (
              if-Reach (is_paid order.status) _ _ Reach.here (
                if-Reach (str_eq order.provider_order_id "") _ _ Reach.here
                  (elim (Result-cases (capture order.provider_order_id)) [
                    | inr (failure, f) ↦ rw f Reach.here
                    | inl (money, f) ↦ rw f (settle_callback-Reach _ s)
                  ])))))
  ]

module _ (catalog : Catalog) (desk : Desk) (reason : String) where
  open_checkout-Reach :
      (order : Order) {start s : Store}
      → Reach start s
      → Reach start (open_checkout desk reason order s).1
  unfolding open_checkout mark_failed update_provider_order
  open_checkout-Reach order {start} {s} run =
      elim (Result-cases (desk.checkout desk.new_id order)) [
        | inr (failure, e) ↦
            rw (e, open_checkout)
              (update_pending-Reach catalog desk.new_id (failed_row reason) run
                (λ row found pending. Step.failed desk.new_id row reason found pending))
        | inl (p, e) ↦ elim (Option-cases (lookup desk.new_id s.orders)) [
          | inl absent ↦ rw (e, open_checkout, absent, update_provider_order) run
          | inr (row, found) ↦
              rw (e, open_checkout, found, update_provider_order)
                (Reach.next catalog run (Step.checked_out desk.new_id row p found))
        ]
      ]

  -- An insert that violates no unique column has a new identifier.
  new_row :
      (order : Order) (orders : Map Order)
      → violates_unique desk.new_id order orders ≡ false
      → lookup desk.new_id orders ≡ none
  unfolding violates_unique
  new_row order orders h = elim (Option-cases (lookup desk.new_id orders)) [
    | inl absent ↦ absent
    | inr (row, found) ↦ cc (rw found at h)
  ]

  insert_order-Reach :
      (order : Order) (s : Store)
      → order.status ≡ OrderStatus.pending
      → Reach s (insert_order desk reason order s).1
  unfolding insert_order
  insert_order-Reach order s pending =
      if-Reach (order.recharge_rate == 0) _ _ Reach.here
        (elim (Bool-cases (violates_unique desk.new_id order s.orders)) [
          | inl taken ↦ rw taken Reach.here
          | inr free ↦ rw free (
              open_checkout-Reach order (
                Reach.next catalog Reach.here
                  (Step.inserted desk.new_id order (new_row order s.orders free) pending)))
        ])

  -- `CreateOrder` is a run of commits, on every branch.
  pub create_order-Reach :
      (r : CreateRequest) (s : Store) → Reach s (create_order desk reason r s).1
  unfolding create_order order_row
  create_order-Reach r s = elim (Result-cases (order_terms desk r s.ledger)) [
    | inr (failure, e) ↦ rw (e, create_order) Reach.here
    | inl (t, e) ↦ elim (Option-cases (existing_order t.tenant_id r.idempotency_key s.orders)) [
      | inr (row, found) ↦ rw (e, create_order, found) Reach.here
      | inl absent ↦ rw (e, create_order, absent) (insert_order-Reach _ s refl)
    ]
  ]
