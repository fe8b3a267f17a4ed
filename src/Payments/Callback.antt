-- ===== src/Payments/Callback.antt =====
-- `settleCallback`, `HandleWebhook` and `CapturePayPal` of internal/payments/service.go.
--
-- What a provider reported arrives verified: the signatures and the calls of the providers are
-- parameters. `write_fails` says that the last update does not reach the database.
use Prim.Native.String.{String}
use model_bridge.Base.{
  ℕ, Bool, true, ◌&&◌, ◌||◌, not, ◌==◌, ltb, if◌then◌else◌, Option, none, some, ◌^◌, ◌*◌,
}
use model_bridge.Base.Texts.{Map, lookup, str_eq}
use model_bridge.Base.Results.{Result, ok, err}
use model_bridge.Ledger.Quote.{Catalog}
use model_bridge.Ledger.Credit.{apply_credit}
use model_bridge.Ledger.Duplicates.{is_duplicate}
use model_bridge.Payments.Amounts.{
  PaymentError, Provider, AmountText, printed, equal_fold, same_amount,
}
use model_bridge.Payments.Orders.{
  Order, OrderStatus, Store, Outcome, parse_provider, is_paid, same_provider, find_by,
  update_pending, credit_request,
}

-- `callbackPayment`
pub record CallbackPayment : Type 0 where
  pub provider : Option Provider
  pub merchant_order_no : String
  pub provider_order_id : String
  pub currency : String
  pub amount : AmountText
  pub paid : Bool

-- The query of the order: by its merchant number, or by the provider's where there is none.
unfoldable pub find_order : CallbackPayment → Map Order → Option (String × Order)
find_order p orders =
    if str_eq p.merchant_order_no ""
    then find_by (λ o. str_eq o.provider_order_id p.provider_order_id) orders
    else find_by (λ o. str_eq o.merchant_order_no p.merchant_order_no) orders

abbrev pub provider_matches : Option Provider → Provider → Bool
provider_matches none q = true
provider_matches (some p) q = same_provider q p

abbrev pub paid_row : ℕ → CallbackPayment → Order → Order
paid_row now p order = record order {
  status = OrderStatus.paid;
  provider_order_id =
      if str_eq p.provider_order_id "" then order.provider_order_id else p.provider_order_id;
  paid_at = some now;
}

abbrev pub expired_row : Order → Order
expired_row order = record order { status = OrderStatus.expired }

-- The last update.
unfoldable pub mark_paid : ℕ → Bool → CallbackPayment → String → Store → Outcome (Unit {0})
mark_paid now write_fails p id s =
    if write_fails
    then (err PaymentError.database_failure, s)
    else (ok tt, update_pending id (paid_row now p) s)

-- Where an order is paid, where it is pending, and where it is closed.
unfoldable pub on_status {ℓ} : {A : Type ℓ} → OrderStatus → A → A → A → A
on_status OrderStatus.paid done open_still closed = done
on_status OrderStatus.pending done open_still closed = open_still
on_status OrderStatus.failed done open_still closed = closed
on_status OrderStatus.cancelled done open_still closed = closed
on_status OrderStatus.expired done open_still closed = closed

module _ (catalog : Catalog) (fresh : ℕ) where
  -- `biller.Credit`, whose refusal of a duplicate key is no error here.
  unfoldable pub credit_order :
      ℕ → Bool → CallbackPayment → String → Order → Store → Outcome (Unit {0})
  credit_order now write_fails p id order s =
      elim (apply_credit catalog fresh (credit_request id order) s.ledger) [
        | ok (balance, ledger) ↦ mark_paid now write_fails p id (record s { ledger = ledger })
        | err e ↦
            if is_duplicate e
            then mark_paid now write_fails p id s
            else (err (PaymentError.billing e), s)
      ]

  unfoldable pub settle_pending :
      ℕ → Bool → CallbackPayment → String → Order → Store → Outcome (Unit {0})
  settle_pending now write_fails p id order s =
      if not (str_eq p.currency "") && not (equal_fold order.currency p.currency)
      then (err PaymentError.currency_mismatch, s)
      else if not (same_amount (printed order.amount) p.amount order.currency)
      then (err PaymentError.amount_mismatch, s)
      else if ltb order.expires_at now
      then (err PaymentError.order_closed, update_pending id expired_row s)
      else credit_order now write_fails p id order s

  unfoldable pub settle_order :
      ℕ → Bool → CallbackPayment → String → Order → Store → Outcome (Unit {0})
  settle_order now write_fails p id order s =
      if not (provider_matches p.provider order.provider)
      then (err PaymentError.callback_invalid, s)
      else on_status order.status (ok tt, s) (settle_pending now write_fails p id order s)
          (err PaymentError.order_closed, s)

  -- `settleCallback`
  unfoldable pub settle_callback : ℕ → Bool → CallbackPayment → Store → Outcome (Unit {0})
  settle_callback now write_fails p s =
      if str_eq p.merchant_order_no "" && str_eq p.provider_order_id ""
      then (err PaymentError.callback_invalid, s)
      else elim (find_order p s.orders) [
        | none ↦ (err PaymentError.order_not_found, s)
        | some (id, order) ↦ settle_order now write_fails p id order s
      ]

  -- `HandleWebhook`, with the length of the body, whether the provider's configuration is complete,
  -- and what the verification of the body makes of it.
  unfoldable pub handle_webhook :
      ℕ
      → Bool
      → String
      → ℕ
      → (Provider → Bool)
      → (Provider → Result PaymentError CallbackPayment)
      → Store
      → Outcome (Unit {0})
  handle_webhook now write_fails provider body configured verify s =
      elim (parse_provider provider) [
        | none ↦ (err PaymentError.callback_invalid, s)
        | some named ↦
            if body == 0 || ltb (2 * 2 ^ 20) body
            then (err PaymentError.callback_invalid, s)
            else if not (configured named)
            then (err PaymentError.provider_unconfigured, s)
            else elim (verify named) [
              | err e ↦ (err e, s)
              | ok payment ↦
                  if payment.paid
                  then settle_callback now write_fails (record payment { provider = some named }) s
                  else if not (str_eq payment.merchant_order_no "")
                      || not (str_eq payment.provider_order_id "")
                  then (ok tt, s)
                  else (err PaymentError.callback_invalid, s)
            ]
      ]

  -- `CapturePayPal`, with what PayPal answers for a provider's order: the currency and the amount
  -- of a completed capture, or an error.
  unfoldable pub capture_paypal :
      ℕ
      → Bool
      → (String → Result PaymentError (String × AmountText))
      → ℕ
      → String
      → Store
      → Outcome (Unit {0})
  capture_paypal now write_fails capture tenant id s = elim (lookup id s.orders) [
    | none ↦ (err PaymentError.order_not_found, s)
    | some order ↦
        if not (order.tenant_id == tenant)
        then (err PaymentError.order_not_found, s)
        else if not (same_provider order.provider Provider.paypal)
        then (err PaymentError.invalid_request, s)
        else if is_paid order.status
        then (ok tt, s)
        else if str_eq order.provider_order_id ""
        then (err PaymentError.invalid_request, s)
        else elim (capture order.provider_order_id) [
          | err e ↦ (err e, s)
          | ok (currency, amount) ↦
              settle_callback now write_fails
                (record {
                  provider = some Provider.paypal;
                  merchant_order_no = order.merchant_order_no;
                  provider_order_id = order.provider_order_id;
                  currency = currency;
                  amount = amount;
                  paid = true;
                })
                s
        ]
  ]
