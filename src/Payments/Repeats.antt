-- ===== src/Payments/Repeats.antt =====
-- Callbacks of internal/payments/service.go that are delivered again after a lost update.
use Prim.Native.String.{String}
use model_bridge.Base.{
  ℕ, ◌≡◌, refl, sym, Bool, true, false, ltb, Bool-cases, inl, inr, ◌∙◌, if◌then◌else◌,
}
use model_bridge.Base.Int.{ℤ}
use model_bridge.Base.Results.{ok, err}
use model_bridge.Ledger.State.{Database}
use model_bridge.Ledger.Quote.{Catalog}
use model_bridge.Ledger.Credit.{apply_credit}
use model_bridge.Ledger.Duplicates.{committed-has_transaction, apply_credit-again}
use model_bridge.Payments.Amounts.{PaymentError}
use model_bridge.Payments.Orders.{Order, Store, credit_request, update_pending}
use model_bridge.Payments.Callback.{
  CallbackPayment, mark_paid, credit_order, settle_callback, settle_order, settle_pending,
  expired_row,
}
use model_bridge.Payments.Settled.{Matched, at_pending, settle_callback-Matched}

-- The same callback at another time, while the order is not overdue.
later_Matched :
    (now later : ℕ) (p : CallbackPayment) (s : Store) (ledger : Database) (id : String)
    (order : Order)
    → Matched now p s id order
    → ltb order.expires_at later ≡ false
    → Matched later p (record s { ledger = ledger }) id order
later_Matched now later p s ledger id order m in_time = record {
  named = m.named;
  found = m.found;
  provider = m.provider;
  pending = m.pending;
  currency = m.currency;
  amount = m.amount;
  in_time = in_time;
}

module _ (catalog : Catalog) (fresh : ℕ) (p : CallbackPayment) (s : Store) (id : String)
    (order : Order) {balance : ℤ} {ledger : Database}
    (credited : apply_credit catalog fresh (credit_request id order) s.ledger
      ≡ ok (balance, ledger)) where
  -- The first credit goes on to the update.
  credit_order-first :
      (now : ℕ) (write_fails : Bool)
      → credit_order catalog fresh now write_fails p id order s
        ≡ mark_paid now write_fails p id (record s { ledger = ledger })
  unfolding credit_order
  credit_order-first now write_fails = rw (credited, credit_order) refl

  -- The second is refused as a duplicate, and goes on to the update too.
  credit_order-second :
      (later_fresh now : ℕ) (write_fails : Bool)
      → credit_order catalog later_fresh now write_fails p id order (record s { ledger = ledger })
        ≡ mark_paid now write_fails p id (record s { ledger = ledger })
  unfolding credit_order
  credit_order-second later_fresh now write_fails =
      let again =
        apply_credit-again catalog fresh later_fresh (credit_request id order) s.ledger ledger
          credited
          (committed-has_transaction catalog fresh (credit_request id order) s.ledger credited) in
      rw (again, credit_order) refl

  -- The callback once its credit has committed and its last update was lost.
  lost_update :
      (now : ℕ)
      → Matched now p s id order
      → settle_callback catalog fresh now true p s
        ≡ (err PaymentError.database_failure, record s { ledger = ledger })
  unfolding mark_paid
  lost_update now m =
      settle_callback-Matched catalog fresh now true p s id order m ∙ credit_order-first now true

  retry_in_time :
      (later_fresh now later : ℕ)
      → Matched now p s id order
      → ltb order.expires_at later ≡ false
      → settle_callback catalog later_fresh later false p (record s { ledger = ledger })
        ≡ settle_callback catalog fresh later false p s
  retry_in_time later_fresh now later m in_time =
      let again =
        settle_callback-Matched catalog later_fresh later false p (record s { ledger = ledger }) id
          order (later_Matched now later p s ledger id order m in_time) in
      let once =
        settle_callback-Matched catalog fresh later false p s id order
          (later_Matched now later p s s.ledger id order m in_time) in
      again
      ∙ credit_order-second later_fresh later false
      ∙ sym (once ∙ credit_order-first later false)

  retry_late :
      (later_fresh now later : ℕ)
      → Matched now p s id order
      → ltb order.expires_at later ≡ true
      → settle_callback catalog later_fresh later false p (record s { ledger = ledger }) ≡ (
        err PaymentError.order_closed,
        update_pending id expired_row (record s { ledger = ledger }),
      )
  unfolding settle_callback settle_order settle_pending
  retry_late later_fresh now later m late =
      rw
        (
          m.named,
          settle_callback,
          m.found,
          settle_order,
          m.provider,
          at_pending order.status _ _ _ m.pending,
          settle_pending,
          m.currency,
          m.amount,
          late,
        )
        refl

  -- Where the credit of a callback committed and its last update was lost, the order is still
  -- pending. A second delivery before the order expires makes of the store what one delivery at
  -- that time would have made of it: the money is credited once. A second delivery after that
  -- closes the order as expired, although its money was credited.
  pub settle_callback-retry :
      (later_fresh now later : ℕ)
      → Matched now p s id order
      → settle_callback catalog later_fresh later false p
          (settle_callback catalog fresh now true p s).1
        ≡ (if ltb order.expires_at later
            then (
              err PaymentError.order_closed,
              update_pending id expired_row (record s { ledger = ledger }),
            )
            else settle_callback catalog fresh later false p s)
  settle_callback-retry later_fresh now later m = elim (Bool-cases (ltb order.expires_at later)) [
    | inl late ↦ rw (lost_update now m, late) (retry_late later_fresh now later m late)
    | inr in_time ↦ rw (lost_update now m, in_time) (retry_in_time later_fresh now later m in_time)
  ]
