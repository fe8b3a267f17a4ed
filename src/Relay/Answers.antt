-- ===== src/Relay/Answers.antt =====
-- The billing of an answer: `completeRelayBilling` and its neighbours in internal/relay/advanced.go.
use Prim.Native.String.{String}
use model_bridge.Base.{ℕ, List, [], ◌∷◌, Bool, false, ◌||◌, not, Option, none, some}
use model_bridge.Base.Texts.{str_eq, trim_space}
use model_bridge.Base.Results.{Result, ok, err}
use model_bridge.Ledger.State.{BillingError}
use model_bridge.Ledger.Reported.{Usage}
use model_bridge.Relay.Channels.{Channel}
use model_bridge.Relay.Reports.{ChatUsage, billing_breakdown, metered_usage}
use model_bridge.Relay.Biller.{Biller}

-- `chatBillingUsage`
unfoldable pub chat_billing_usage : ChatUsage → String → Usage
chat_billing_usage u source =
    let b = billing_breakdown u in
    record {
      input_tokens = b.input_tokens;
      output_tokens = b.output_tokens;
      cached_input_tokens = b.cached_input_tokens;
      reasoning_tokens = b.reasoning_tokens;
      metrics = metered_usage u;
      pricing_tier = u.pricing_tier;
      source = source;
    }

-- `ChatCompletionReply`: its text, and whether it has tool calls or a function call.
pub record Reply : Type 0 where
  pub content : String
  pub tool_calls : Bool
  pub function_call : Bool

-- `ChatCompletionResponse`
pub record ChatResponse : Type 0 where
  pub id : String
  pub object : String
  pub created : ℕ
  pub model : String
  pub choices : List Reply
  pub usage : ChatUsage

-- `chatResponseHasOutput`
unfoldable pub chat_response_has_output : List Reply → Bool
chat_response_has_output [] = false
chat_response_has_output (c ∷ cs) =
    not (str_eq (trim_space c.content) "")
    || c.tool_calls
    || c.function_call
    || chat_response_has_output cs

-- The reservation of a paid request, or the record of a free one.
pub record Booking : Type 0 where
  pub reservation : Option ℕ
  pub free : Option ℕ

-- A result, and the store that is left.
abbrev pub Billing : Type 0 → Type 0
Billing B = Result BillingError (Unit {0}) × B

-- A write that is tried, and what follows it in either case.
abbrev pub after {ℓ κ} :
    {B : Type ℓ} {A : Type κ}
    → Result BillingError (Unit {0} × B)
    → (B → A)
    → (BillingError → A)
    → A
after (ok done) next failed = next done.1
after (err e) next failed = failed e

module _ {B : Type 0} (biller : Biller B) where
  -- A call whose error is dropped.
  abbrev pub attempt : Result BillingError (Unit {0} × B) → B → B
  attempt (ok done) b = done.1
  attempt (err e) b = b

  -- `failRelayBilling`
  unfoldable pub fail_relay_billing : Booking → String → B → B
  fail_relay_billing booking reason b =
      let failed : B = elim booking.reservation [
        | none ↦ b
        | some id ↦ attempt (biller.fail id reason b) b
      ] in
      elim booking.free [
        | none ↦ failed
        | some id ↦ attempt (biller.fail_free id reason failed) failed
      ]

  -- The free half of the two marks below.
  unfoldable pub fail_free_request : Option ℕ → String → B → Billing B
  fail_free_request none reason b = (ok tt, b)
  fail_free_request (some id) reason b =
      after (biller.fail_free id reason b) (λ b'. (ok tt, b')) (λ e. (err e, b))

  -- `markRelayBillingPending`
  unfoldable pub mark_relay_billing_pending : Booking → String → B → Billing B
  mark_relay_billing_pending booking reason b = elim booking.reservation [
    | some id ↦ after (biller.mark_pending id reason b) (λ b'. (ok tt, b')) (λ e. (err e, b))
    | none ↦ fail_free_request booking.free reason b
  ]

  -- A mark with the usage, then one without, whose error is the first one's.
  unfoldable pub mark_reservation : ℕ → String → Usage → B → Billing B
  mark_reservation id reason usage b =
      after (biller.mark_pending_with_usage id reason usage b) (λ b'. (ok tt, b'))
        (λ e. after (biller.mark_pending id reason b) (λ b'. (ok tt, b')) (λ second. (err e, b)))

  -- `markRelayBillingPendingWithUsage`
  unfoldable pub mark_relay_billing_pending_with_usage : Booking → String → Usage → B → Billing B
  mark_relay_billing_pending_with_usage booking reason usage b = elim booking.reservation [
    | some id ↦ mark_reservation id reason usage b
    | none ↦ fail_free_request booking.free reason b
  ]

  -- A settlement that fails leaves the reservation pending, where that can be written.
  abbrev pub kept_pending : BillingError → Billing B → Billing B
  kept_pending e (ok done, b) = (ok tt, b)
  kept_pending e (err second, b) = (err e, b)

  unfoldable pub settle_reservation : ℕ → Channel → Usage → B → Billing B
  settle_reservation id c usage b =
      after (biller.rebind id c b)
        (λ bound.
          after (biller.settle id usage bound) (λ b'. (ok tt, b'))
            (λ e. kept_pending e (mark_reservation id "billing_settlement_failed" usage bound)))
        (λ e. kept_pending e (mark_reservation id "billing_rebind_failed" usage b))

  unfoldable pub complete_free_request : ℕ → Channel → Usage → B → Billing B
  complete_free_request id c usage b =
      after (biller.rebind_free id c b)
        (λ bound.
          after (biller.complete_free id usage bound) (λ b'. (ok tt, b'))
            (λ e. (err e, attempt (biller.fail_free id "billing_completion_failed" bound) bound)))
        (λ e. (err e, attempt (biller.fail_free id "billing_rebind_failed" b) b))

  -- `completeRelayBilling`
  unfoldable pub complete_relay_billing : Booking → ChatUsage → Channel → String → B → Billing B
  complete_relay_billing booking usage c source b =
      let billed = chat_billing_usage usage source in
      elim booking.reservation [
        | some id ↦ settle_reservation id c billed b
        | none ↦ elim booking.free [
          | some id ↦ complete_free_request id c billed b
          | none ↦ (ok tt, b)
        ]
      ]
