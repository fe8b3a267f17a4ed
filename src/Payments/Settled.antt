-- ===== src/Payments/Settled.antt =====
-- What a callback of internal/payments/service.go has checked when it credits an order.
use Prim.Native.String.{String}
use model_bridge.Base.Results.{Result-cases}
use model_bridge.Ledger.Posting.{has_transaction}
use model_bridge.Ledger.Credit.{apply_credit}
use model_bridge.Base.Int.{ℤ}
use model_bridge.Ledger.State.{Database}
use model_bridge.Ledger.Duplicates.{
  is_duplicate, refused-has_transaction, committed-has_transaction,
}
use model_bridge.Payments.Callback.{mark_paid}
use model_bridge.Payments.Orders.{credit_request}
use model_bridge.Base.{
  ℕ, ◌≡◌, ◌⊎◌, refl, Bool, true, false, ◌&&◌, not, ltb, some, Bool-cases, Option-cases, inl, inr,
  ◌∙◌,
}
use model_bridge.Base.Texts.{str_eq, trim_space}
use model_bridge.Base.Results.{Result, ok, err}
use model_bridge.Ledger.State.{TransactionKey}
use model_bridge.Ledger.Quote.{Catalog}
use model_bridge.Payments.Amounts.{PaymentError, printed, equal_fold, same_amount}
use model_bridge.Payments.Orders.{Order, OrderStatus, Store, credit_key, update_pending}
use model_bridge.Payments.Callback.{
  CallbackPayment, find_order, provider_matches, expired_row, credit_order, settle_pending,
  settle_order, settle_callback, on_status,
}

-- The key of an order's credit in the ledger.
abbrev pub ledger_key : String → TransactionKey
ledger_key id = TransactionKey.client_key (trim_space (credit_key id))

-- The order that a callback names, and what is checked before the credit.
pub record Matched (now : ℕ) (p : CallbackPayment) (s : Store) (id : String) (order : Order)
    : Type 0 where
  pub named : (str_eq p.merchant_order_no "" && str_eq p.provider_order_id "") ≡ false
  pub found : find_order p s.orders ≡ some (id, order)
  pub provider : provider_matches p.provider order.provider ≡ true
  pub pending : order.status ≡ OrderStatus.pending
  pub currency : (not (str_eq p.currency "") && not (equal_fold order.currency p.currency)) ≡ false
  pub amount : same_amount (printed order.amount) p.amount order.currency ≡ true
  pub in_time : ltb order.expires_at now ≡ false

pub at_pending {ℓ} :
    {A : Type ℓ} (status : OrderStatus) (done open_still closed : A)
    → status ≡ OrderStatus.pending
    → on_status status done open_still closed ≡ open_still
unfolding on_status
at_pending status done open_still closed e = rw e refl

pub at_paid {ℓ} :
    {A : Type ℓ} (status : OrderStatus) (done open_still closed : A)
    → status ≡ OrderStatus.paid
    → on_status status done open_still closed ≡ done
unfolding on_status
at_paid status done open_still closed e = rw e refl

status_cases {ℓ} :
    {A : Type ℓ} (status : OrderStatus) (done open_still closed : A)
    → ((status ≡ OrderStatus.pending) × (on_status status done open_still closed ≡ open_still))
      ⊎ ((on_status status done open_still closed ≡ done)
          ⊎ (on_status status done open_still closed ≡ closed))
unfolding on_status
status_cases OrderStatus.pending done open_still closed = inl (refl, refl)
status_cases OrderStatus.paid done open_still closed = inr (inl refl)
status_cases OrderStatus.failed done open_still closed = inr (inr refl)
status_cases OrderStatus.cancelled done open_still closed = inr (inr refl)
status_cases OrderStatus.expired done open_still closed = inr (inr refl)

-- With the checks passed, a callback is a credit and its last update.
pub settle_callback-Matched :
    (catalog : Catalog) (fresh now : ℕ) (write_fails : Bool) (p : CallbackPayment) (s : Store)
    (id : String) (order : Order)
    → Matched now p s id order
    → settle_callback catalog fresh now write_fails p s
      ≡ credit_order catalog fresh now write_fails p id order s
unfolding settle_callback settle_order settle_pending
settle_callback-Matched catalog fresh now write_fails p s id order m =
    rw
      (
        m.named,
        settle_callback,
        m.found,
        settle_order,
        m.provider,
        at_pending order.status _ _ _ m.pending,
        settle_pending,
        m.currency,
        m.amount,
        m.in_time,
      )
      refl

-- The ledger after the credit of an order: its key is there, by this credit or by an earlier one.
pub record Carried (catalog : Catalog) (fresh : ℕ) (id : String) (order : Order) (s : Store)
    (ledger : Database) : Type 0 where
  pub recorded : has_transaction (ledger_key id) ledger.transactions ≡ true
  pub how :
      (ledger ≡ s.ledger)
      ⊎ ((b : ℤ) × (apply_credit catalog fresh (credit_request id order) s.ledger ≡ ok (b, ledger)))

-- The credit goes on to the update with its key in the ledger, or it returns an error.
pub credit_order-cases :
    (catalog : Catalog) (fresh now : ℕ) (write_fails : Bool) (p : CallbackPayment) (id : String)
    (order : Order) (s : Store)
    → ((ledger : Database) × Carried catalog fresh id order s ledger
        × (credit_order catalog fresh now write_fails p id order s
            ≡ mark_paid now write_fails p id (record s { ledger = ledger })))
      ⊎ ((e : PaymentError) × (credit_order catalog fresh now write_fails p id order s
            ≡ (err e, s)))
unfolding credit_order credit_request
credit_order-cases catalog fresh now write_fails p id order s =
    elim (Result-cases (apply_credit catalog fresh (credit_request id order) s.ledger)) [
      | inl (done, c) ↦
          let recorded =
            committed-has_transaction catalog fresh (credit_request id order) s.ledger c in
          inl (
            done.1,
            record { recorded = recorded; how = inr (done.0, c) },
            rw (c, credit_order) refl,
          )
      | inr (e, c) ↦ elim (Bool-cases (is_duplicate e)) [
        | inl dup ↦
            let recorded =
              refused-has_transaction catalog fresh (credit_request id order) s.ledger c dup in
            inl (
              s.ledger,
              record { recorded = recorded; how = inl refl },
              rw (c, credit_order, dup) refl,
            )
        | inr other ↦ inr (PaymentError.billing e, rw (c, credit_order, other) refl)
      ]
    ]

-- What a callback does.
pub data Does (catalog : Catalog) (fresh now : ℕ) (write_fails : Bool) (p : CallbackPayment)
    (s : Store) : Type 0 where
  -- It passes every check and tries the credit.
  credits :
      (id : String) (order : Order)
      → Matched now p s id order
      → Does catalog fresh now write_fails p s
  -- The order is overdue.
  expires :
      (id : String) (order : Order)
      → find_order p s.orders ≡ some (id, order)
      → order.status ≡ OrderStatus.pending
      → ltb order.expires_at now ≡ true
      → settle_callback catalog fresh now write_fails p s
        ≡ (err PaymentError.order_closed, update_pending id expired_row s)
      → Does catalog fresh now write_fails p s
  -- It leaves the store alone.
  refuses :
      (result : Result PaymentError (Unit {0}))
      → settle_callback catalog fresh now write_fails p s ≡ (result, s)
      → Does catalog fresh now write_fails p s

module _ (catalog : Catalog) (fresh now : ℕ) (write_fails : Bool) (p : CallbackPayment)
    (s : Store) where
  abbrev IsSo : Type 0
  IsSo = Does catalog fresh now write_fails p s

  -- A pending order of the right provider.
  does_pending :
      (id : String) (order : Order)
      → (str_eq p.merchant_order_no "" && str_eq p.provider_order_id "") ≡ false
      → find_order p s.orders ≡ some (id, order)
      → provider_matches p.provider order.provider ≡ true
      → order.status ≡ OrderStatus.pending
      → settle_callback catalog fresh now write_fails p s
        ≡ settle_pending catalog fresh now write_fails p id order s
      → IsSo
  unfolding settle_pending
  does_pending id order named found provider pending run =
      elim (Bool-cases (not (str_eq p.currency "") && not (equal_fold order.currency p.currency))) [
        | inl differs ↦
            Does.refuses (err PaymentError.currency_mismatch)
              (rw (run, settle_pending, differs) refl)
        | inr currency ↦
            elim (Bool-cases (same_amount (printed order.amount) p.amount order.currency)) [
              | inr differs ↦
                  Does.refuses (err PaymentError.amount_mismatch)
                    (rw (run, settle_pending, currency, differs) refl)
              | inl amount ↦ elim (Bool-cases (ltb order.expires_at now)) [
                | inl late ↦
                    Does.expires id order found pending late
                      (rw (run, settle_pending, currency, amount, late) refl)
                | inr in_time ↦ Does.credits id order (record {
                  named = named;
                  found = found;
                  provider = provider;
                  pending = pending;
                  currency = currency;
                  amount = amount;
                  in_time = in_time;
                })
              ]
            ]
      ]

  does_order :
      (id : String) (order : Order)
      → (str_eq p.merchant_order_no "" && str_eq p.provider_order_id "") ≡ false
      → find_order p s.orders ≡ some (id, order)
      → IsSo
  unfolding settle_callback settle_order
  does_order id order named found = elim (Bool-cases (provider_matches p.provider order.provider)) [
    | inr other ↦
        Does.refuses (err PaymentError.callback_invalid)
          (rw (named, settle_callback, found, settle_order, other) refl)
    | inl provider ↦
        let opened = settle_pending catalog fresh now write_fails p id order s in
        let run : settle_callback catalog fresh now write_fails p s
            ≡ on_status order.status (ok tt, s) opened (err PaymentError.order_closed, s) =
          rw (named, settle_callback, found, settle_order, provider) refl in
        elim (status_cases order.status (ok tt, s) opened (err PaymentError.order_closed, s)) [
          | inl (e, it) ↦ does_pending id order named found provider e (run ∙ it)
          | inr (inl it) ↦ Does.refuses (ok tt) (run ∙ it)
          | inr (inr it) ↦ Does.refuses (err PaymentError.order_closed) (run ∙ it)
        ]
  ]

  pub settle_callback-Does : Does catalog fresh now write_fails p s
  unfolding settle_callback
  settle_callback-Does =
      elim (Bool-cases (str_eq p.merchant_order_no "" && str_eq p.provider_order_id "")) [
        | inl nameless ↦ Does.refuses (err PaymentError.callback_invalid) (rw nameless refl)
        | inr named ↦ elim (Option-cases (find_order p s.orders)) [
          | inl absent ↦
              Does.refuses (err PaymentError.order_not_found)
                (rw (named, settle_callback, absent) refl)
          | inr (row, found) ↦ does_order row.0 row.1 named found
        ]
      ]
