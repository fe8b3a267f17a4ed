-- ===== src/Payments/Tests.antt =====
-- An order of five dollars at a rate of two, and the properties of payments at it.
use Prim.Native.String.{String}
use model_bridge.Base.{
  ℕ, ◌*◌, ◌≡◌, ◌⊎◌, ◌↔◌, refl, List, [], ◌∷◌, none, some, true, false, arith, ltb, if◌then◌else◌,
}
use model_bridge.Base.Int.{ℤ, pos, ◌+ℤ◌, ◌-ℤ◌}
use model_bridge.Base.Texts.{lookup, trim_space, trim_left, trim_right, keep_unless_blank, is_space}
use model_bridge.Base.Results.{ok, err}
use model_bridge.Metering.Defs.{valid_metered_decimal, one}
use model_bridge.Metering.Select.{to_lower}
use model_bridge.Ledger.State.{Database, TransactionKey, Owner, Direction}
use model_bridge.Ledger.Posting.{add_to_system}
use model_bridge.Ledger.Reserve.{prepaid_account}
use model_bridge.Ledger.Credit.{
  parse_direction, positive_amount, moved, open_account, write_credit, apply_credit,
}
use model_bridge.Ledger.Scenario
use model_bridge.Ledger.Scenario.{catalog, credited}
use model_bridge.Payments.Amounts.{
  AmountText, PaymentError, Provider, unit, printed, equal_fold, minor_per_one, float_string_12,
  normalize_ratio, normalize_amount, same_amount, normalize_recharge_rate, normalized_recharge_rate,
  apply_recharge_rate, provider_supports_currency,
}
use model_bridge.Payments.Orders.{
  Order, OrderStatus, Store, parse_provider, find_by, update_pending, credit_request,
}
use model_bridge.Payments.Create.{
  Desk, CreateRequest, without_dashes, chosen_package, credit_basis, valid_until, order_terms,
  order_row, existing_order, violates_unique, update_provider_order, open_checkout, insert_order,
  create_order,
}
use model_bridge.Payments.Callback.{
  CallbackPayment, find_order, expired_row, mark_paid, credit_order, settle_pending, settle_order,
  settle_callback, on_status, handle_webhook,
}
use model_bridge.Payments.Exact.{IsPayable, same_amount-exact}
use model_bridge.Payments.Rates.{apply_recharge_rate-exact}
use model_bridge.Payments.Settled.{Matched}
use model_bridge.Payments.Guarded.{settle_callback-credits}
use model_bridge.Payments.Repeats.{settle_callback-retry}
use model_bridge.Payments.Runs.{Reach}
use model_bridge.Payments.Lives.{Later, answer_all-Lives}
use model_bridge.Payments.Backed.{Backed, answer_all-Backed}
use model_bridge.Payments.Calls.{Call, Moment, answer, answer_all, answer_all-Reach}

abbrev desk : Desk
desk = record {
  enabled = λ p. some true;
  configured = λ p. true;
  recharge_rate = λ p. AmountText.ratio (pos 2) 0;
  packages = ok [];
  valid_https_url = λ url. true;
  checkout = λ id order. ok (record {
    provider_order_id = "pi_1";
    checkout_url = "https://pay.example.com";
    qr_code = "";
    checkout_client_secret = "";
  });
  new_id = "o-1";
  now = 1000;
}

abbrev request : CreateRequest
request = record {
  tenant_id = some 1;
  user_id = some 2;
  provider = "stripe";
  amount = AmountText.ratio (pos 5) 0;
  currency = "USD";
  idempotency_key = "k";
  return_url = "https://example.com";
  package_id = "";
}

abbrev order : Order
order = record {
  tenant_id = 1;
  user_id = 2;
  provider = Provider.stripe;
  merchant_order_no = "recharge_o1";
  provider_order_id = "pi_1";
  amount = 5 * unit;
  credited_amount = 10 * unit;
  recharge_rate = 2 * unit;
  currency = "USD";
  package_id = "";
  bonus_amount = 0;
  valid_until = none;
  status = OrderStatus.pending;
  checkout_url = "https://pay.example.com";
  checkout_client_secret = "";
  qr_code = "";
  failure_reason = "";
  paid_at = none;
  expires_at = 2800;
  idempotency_key = "k";
}

abbrev opened : Store
opened = record { orders = ("o-1", order) ∷ []; ledger = credited }

abbrev empty_store : Store
empty_store = record { orders = []; ledger = credited }

create_run : create_order desk "" request empty_store ≡ (ok order, opened)
unfolding create_order order_terms parse_provider to_lower trim_space trim_left trim_right
    keep_unless_blank is_space normalize_amount normalize_ratio float_string_12 minor_per_one
    equal_fold provider_supports_currency prepaid_account chosen_package credit_basis valid_until
    normalized_recharge_rate normalize_recharge_rate apply_recharge_rate existing_order find_by
    insert_order violates_unique order_row without_dashes open_checkout update_provider_order
create_run = refl

abbrev callback : CallbackPayment
callback = record {
  provider = some Provider.stripe;
  merchant_order_no = "recharge_o1";
  provider_order_id = "pi_1";
  currency = "usd";
  amount = AmountText.ratio (pos 10) 1;
  paid = true;
}

abbrev topped : Database
topped = record credited {
  accounts = (1, Scenario.account (110 * one)) ∷ [];
  transactions = TransactionKey.client_key "payment:credit:o-1" ∷ credited.transactions;
  lines =
      record {
        key = TransactionKey.client_key "payment:credit:o-1";
        owner = Owner.tenant_account 1;
        direction = Direction.credit;
        amount = 10 * one;
      }
      ∷ record {
        key = TransactionKey.client_key "payment:credit:o-1";
        owner = Owner.system_account "system:topup:USD";
        direction = Direction.debit;
        amount = 10 * one;
      }
      ∷ credited.lines;
  system_balances = ("system:topup:USD", pos (110 * one)) ∷ [];
}

credit_run :
    apply_credit catalog 9 (credit_request "o-1" order) credited ≡ ok (pos (110 * one), topped)
unfolding apply_credit parse_direction to_lower trim_space trim_left trim_right keep_unless_blank
    positive_amount valid_metered_decimal open_account prepaid_account write_credit moved ◌+ℤ◌ ◌-ℤ◌
    add_to_system credit_request
credit_run = refl

matched : Matched 1500 callback opened "o-1" order
unfolding find_order find_by equal_fold to_lower same_amount normalize_amount normalize_ratio
    float_string_12 minor_per_one
matched = record {
  named = refl;
  found = refl;
  provider = refl;
  pending = refl;
  currency = refl;
  amount = refl;
  in_time = refl;
}

same_amount-exact_example :
    (same_amount (printed (5 * unit)) (AmountText.ratio (pos 10) 1) "USD" ≡ true)
    ↔ (5 * unit * 2 ≡ 10 * unit)
unfolding minor_per_one equal_fold to_lower
same_amount-exact_example = same_amount-exact (5 * unit) 10 1 "USD" (omega arith, refl)

apply_run :
    apply_recharge_rate (AmountText.ratio (pos 5) 0) (AmountText.ratio (pos 2) 0) "USD"
    ≡ ok (10 * unit)
unfolding apply_recharge_rate normalize_amount normalize_ratio float_string_12 minor_per_one
    equal_fold to_lower normalized_recharge_rate normalize_recharge_rate
apply_run = refl

apply_recharge_rate-exact_example :
    (base : ℕ) × (normalize_amount (AmountText.ratio (pos 5) 0) "USD" ≡ ok base)
    × (10 * unit * unit ≡ base * normalized_recharge_rate (AmountText.ratio (pos 2) 0))
    × IsPayable "USD" (10 * unit)
apply_recharge_rate-exact_example =
    apply_recharge_rate-exact (AmountText.ratio (pos 5) 0) (AmountText.ratio (pos 2) 0) "USD"
      apply_run

settle_callback-credits_example :
    let after = (settle_callback catalog 9 1500 true callback opened).1 in
    (after.ledger ≡ credited)
    ⊎ ((id : String) × (o : Order) × (b : ℤ) × Matched 1500 callback opened id o
        × (apply_credit catalog 9 (credit_request id o) credited ≡ ok (b, after.ledger)))
settle_callback-credits_example = settle_callback-credits catalog 9 1500 true callback opened

settle_callback-retry_example :
    settle_callback catalog 11 1600 false callback
      (settle_callback catalog 9 1500 true callback opened).1
    ≡ (if ltb 2800 1600
        then (
          err PaymentError.order_closed,
          update_pending "o-1" expired_row (record opened { ledger = topped }),
        )
        else settle_callback catalog 9 1600 false callback opened)
settle_callback-retry_example =
    settle_callback-retry catalog 9 callback opened "o-1" order credit_run 11 1500 1600 matched

abbrev moment : Moment
moment = record { fresh = 9; now = 1500; write_fails = false }

-- An order, and its webhook.
abbrev calls : List Call
calls =
    Call.creates desk "" request
    ∷ Call.notifies moment "stripe" 2 (λ p. true) (λ p. ok callback)
    ∷ []

abbrev finished : Store
finished = record {
  orders = ("o-1", record order { status = OrderStatus.paid; paid_at = some 1500 }) ∷ [];
  ledger = topped;
}

calls_run : answer_all catalog calls empty_store ≡ finished
unfolding answer_all answer create_order order_terms parse_provider to_lower trim_space trim_left
    trim_right keep_unless_blank is_space normalize_amount normalize_ratio float_string_12
    minor_per_one equal_fold provider_supports_currency prepaid_account chosen_package credit_basis
    valid_until normalized_recharge_rate normalize_recharge_rate apply_recharge_rate existing_order
    find_by insert_order violates_unique order_row without_dashes open_checkout
    update_provider_order handle_webhook settle_callback find_order settle_order on_status
    settle_pending same_amount credit_order mark_paid update_pending apply_credit parse_direction
    positive_amount valid_metered_decimal open_account write_credit moved ◌+ℤ◌ ◌-ℤ◌ add_to_system
    credit_request
calls_run = refl

answer_all-Reach_example : Reach empty_store (answer_all catalog calls empty_store)
answer_all-Reach_example = answer_all-Reach catalog calls empty_store

abbrev delivery : List Call
delivery = Call.notifies moment "stripe" 2 (λ p. true) (λ p. ok callback) ∷ []

answer_all-Backed_example :
    let after = answer_all catalog calls empty_store in
    Backed after.ledger.transactions after.orders
answer_all-Backed_example = answer_all-Backed catalog calls empty_store tt

answer_all-Lives_example :
    (o' : Order) × (lookup "o-1" (answer_all catalog delivery opened).orders ≡ some o')
    × Later order o'
answer_all-Lives_example = answer_all-Lives catalog delivery opened "o-1" order refl
