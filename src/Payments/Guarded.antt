-- ===== src/Payments/Guarded.antt =====
-- When a callback of internal/payments/service.go moves money.
use Prim.Native.String.{String}
use model_bridge.Ledger.Credit.{apply_credit}
use model_bridge.Base.Int.{ℤ}
use model_bridge.Payments.Callback.{mark_paid}
use model_bridge.Payments.Orders.{credit_request}
use model_bridge.Base.Texts.{lookup}
use model_bridge.Payments.Orders.{is_pending}
use model_bridge.Base.{
  ℕ, ◌≡◌, ◌⊎◌, refl, Bool, true, false, Bool-cases, Option-cases, inl, inr, ◌∙◌,
}
use model_bridge.Base.Results.{ok}
use model_bridge.Ledger.Quote.{Catalog}
use model_bridge.Payments.Orders.{Order, Store, update_pending}
use model_bridge.Payments.Callback.{CallbackPayment, expired_row, settle_callback}
use model_bridge.Payments.Callback.{paid_row}
use model_bridge.Payments.Settled.{
  Matched, Does, settle_callback-Does, settle_callback-Matched, credit_order-cases,
}

update_pending-ledger :
    (id : String) (change : Order → Order) (s : Store)
    → (update_pending id change s).ledger ≡ s.ledger
unfolding update_pending
update_pending-ledger id change s = elim (Option-cases (lookup id s.orders)) [
  | inl absent ↦ rw (absent, update_pending) refl
  | inr (order, found) ↦ elim (Bool-cases (is_pending order.status)) [
    | inl open_still ↦ rw (found, update_pending, open_still) refl
    | inr closed ↦ rw (found, update_pending, closed) refl
  ]
]

mark_paid-ledger :
    (now : ℕ) (write_fails : Bool) (p : CallbackPayment) (id : String) (s : Store)
    → (mark_paid now write_fails p id s).1.ledger ≡ s.ledger
unfolding mark_paid
mark_paid-ledger now true p id s = refl
mark_paid-ledger now false p id s = update_pending-ledger id (paid_row now p) s

-- A callback leaves the ledger as it is, or it commits one credit: of the order that it names,
-- which was pending and not overdue, of the same provider, with the currency and exactly the amount
-- that the provider reported, under the key of this order.
pub settle_callback-credits :
    (catalog : Catalog) (fresh now : ℕ) (write_fails : Bool) (p : CallbackPayment) (s : Store)
    → let after = (settle_callback catalog fresh now write_fails p s).1 in
      (after.ledger ≡ s.ledger)
      ⊎ ((id : String) × (order : Order) × (b : ℤ) × Matched now p s id order
          × (apply_credit catalog fresh (credit_request id order) s.ledger ≡ ok (b, after.ledger)))
settle_callback-credits catalog fresh now write_fails p s =
    elim (settle_callback-Does catalog fresh now write_fails p s) [
      | Does.refuses result run ↦ inl (rw run refl)
      | Does.expires id order found pending late run ↦
          inl (rw run (update_pending-ledger id expired_row s))
      | Does.credits id order m ↦
          let run = settle_callback-Matched catalog fresh now write_fails p s id order m in
          elim (credit_order-cases catalog fresh now write_fails p id order s) [
            | inr (e, failed) ↦ inl (rw (run, failed) refl)
            | inl (ledger, carried, paid) ↦
                let kept = mark_paid-ledger now write_fails p id (record s { ledger = ledger }) in
                elim carried.how [
                  | inl same ↦ inl (rw (run, paid) (kept ∙ same))
                  | inr (b, c) ↦ inr (id, order, b, m, rw (run, paid, kept) c)
                ]
          ]
    ]
