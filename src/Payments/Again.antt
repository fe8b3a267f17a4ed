-- ===== src/Payments/Again.antt =====
-- Callbacks of internal/payments/service.go for orders that are paid already.
use Prim.Native.String.{String}
use model_bridge.Base.{ℕ, ◌≡◌, refl, Bool, true, false, ◌&&◌, some, Bool-cases, inl, inr, ap, ◌∙◌}
use model_bridge.Base.Texts.{Map, str_eq, lookup, insert}
use model_bridge.Base.Results.{ok}
use model_bridge.Ledger.Quote.{Catalog}
use model_bridge.Ledger.Retries.{str_eq_refl}
use model_bridge.Payments.Orders.{Order, OrderStatus, Store, update_pending, find_by, is_pending}
use model_bridge.Payments.Rows.{Keyed, find_by-lookup, find_by-insert, find_by-test}
use model_bridge.Payments.Callback.{
  CallbackPayment, find_order, paid_row, provider_matches, mark_paid, settle_callback, settle_order,
}
use model_bridge.Payments.Settled.{Matched, at_paid, credit_order-cases, settle_callback-Matched}

-- A paid row keeps or takes the provider's number.
still_named :
    (now : ℕ) (p : CallbackPayment) (order : Order)
    → str_eq order.provider_order_id p.provider_order_id ≡ true
    → str_eq (paid_row now p order).provider_order_id p.provider_order_id ≡ true
still_named now p order h = elim (Bool-cases (str_eq p.provider_order_id "")) [
  | inl none_given ↦ rw none_given h
  | inr given ↦ rw given (str_eq_refl p.provider_order_id)
]

-- The row that the query of a callback finds, once it is marked as paid.
find_order-paid :
    (now : ℕ) (p : CallbackPayment) (id : String) (order : Order) (orders : Map Order)
    → Keyed orders
    → find_order p orders ≡ some (id, order)
    → find_order p (insert id (paid_row now p order) orders) ≡ some (id, paid_row now p order)
unfolding find_order
find_order-paid now p id order orders k found = elim (Bool-cases (str_eq p.merchant_order_no "")) [
  | inl unnumbered ↦
      let test = λ (o : Order). str_eq o.provider_order_id p.provider_order_id in
      let hit : find_by test orders ≡ some (id, order) = rw unnumbered at found in
      rw (unnumbered, find_order)
        (find_by-insert test orders (paid_row now p order) (find_by-lookup test orders k hit) hit
          (still_named now p order (find_by-test test orders hit)))
  | inr numbered ↦
      let test = λ (o : Order). str_eq o.merchant_order_no p.merchant_order_no in
      let hit : find_by test orders ≡ some (id, order) = rw numbered at found in
      rw (numbered, find_order)
        (find_by-insert test orders (paid_row now p order) (find_by-lookup test orders k hit) hit
          (find_by-test test orders hit))
]

find_order-lookup :
    (p : CallbackPayment) (id : String) (order : Order) (orders : Map Order)
    → Keyed orders
    → find_order p orders ≡ some (id, order)
    → lookup id orders ≡ some order
unfolding find_order
find_order-lookup p id order orders k found = elim (Bool-cases (str_eq p.merchant_order_no "")) [
  | inl unnumbered ↦
      find_by-lookup (λ (o : Order). str_eq o.provider_order_id p.provider_order_id) orders k
        (rw unnumbered at found)
  | inr numbered ↦
      find_by-lookup (λ (o : Order). str_eq o.merchant_order_no p.merchant_order_no) orders k
        (rw numbered at found)
]

-- The last update of a pending order.
update_pending-paid :
    (now : ℕ) (p : CallbackPayment) (s : Store) (id : String) (order : Order)
    → lookup id s.orders ≡ some order
    → order.status ≡ OrderStatus.pending
    → update_pending id (paid_row now p) s
      ≡ record s { orders = insert id (paid_row now p order) s.orders }
unfolding update_pending
update_pending-paid now p s id order row pending =
    let open_still : is_pending order.status ≡ true = ap is_pending pending in
    rw (row, update_pending, open_still) refl

marked :
    (now : ℕ) (p : CallbackPayment) (s : Store) (id : String) (after : Store)
    → update_pending id (paid_row now p) s ≡ after
    → mark_paid now false p id s ≡ (ok tt, after)
unfolding mark_paid
marked now p s id after e = ap (λ (x : Store). (ok tt, x)) e

-- A callback for an order that is paid.
paid_callback :
    (catalog : Catalog) (fresh now : ℕ) (write_fails : Bool) (p : CallbackPayment) (s : Store)
    (id : String) (order : Order)
    → (str_eq p.merchant_order_no "" && str_eq p.provider_order_id "") ≡ false
    → find_order p s.orders ≡ some (id, order)
    → provider_matches p.provider order.provider ≡ true
    → order.status ≡ OrderStatus.paid
    → settle_callback catalog fresh now write_fails p s ≡ (ok tt, s)
unfolding settle_callback settle_order
paid_callback catalog fresh now write_fails p s id order named found provider e =
    rw (named, settle_callback, found, settle_order, provider, at_paid order.status _ _ _ e) refl

-- Once a callback has been answered without an error for a pending order that it paid, the same
-- callback at any later time is answered without an error again, and changes nothing, neither the
-- order nor the ledger.
pub settle_callback-repeat :
    (catalog : Catalog) (fresh later_fresh now later : ℕ) (write_fails : Bool) (p : CallbackPayment)
    (s : Store) (id : String) (order : Order)
    → Keyed s.orders
    → Matched now p s id order
    → (settle_callback catalog fresh now false p s).0 ≡ ok tt
    → let after = (settle_callback catalog fresh now false p s).1 in
      settle_callback catalog later_fresh later write_fails p after ≡ (ok tt, after)
settle_callback-repeat catalog fresh later_fresh now later write_fails p s id order k m done =
    let first = settle_callback-Matched catalog fresh now false p s id order m in
    elim (credit_order-cases catalog fresh now false p id order s) [
      | inr (e, failed) ↦ cc (rw (first ∙ failed) at done)
      | inl (ledger, carried, paid) ↦
          let s' = record s { ledger = ledger } in
          let written =
            update_pending-paid now p s' id order (find_order-lookup p id order s.orders k m.found)
              m.pending in
          let after = record s' { orders = insert id (paid_row now p order) s.orders } in
          let same : settle_callback catalog fresh now false p s ≡ (ok tt, after) =
            first ∙ paid ∙ marked now p s' id after written in
          rw same (
            paid_callback catalog later_fresh later write_fails p after id (paid_row now p order)
              m.named (find_order-paid now p id order s.orders k m.found) m.provider refl)
    ]
