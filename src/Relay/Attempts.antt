-- ===== src/Relay/Attempts.antt =====
-- One attempt of `ChatCompletions` in internal/relay/types.go: a channel that was picked.
--
-- `Line` is what an attempt asks of others: the providers, the store of credentials, the context,
-- and what is known of the request.
use Prim.Native.String.{String}
use model_bridge.Base.{
  ℕ, List, [], ◌∷◌, Bool, true, false, ◌&&◌, ◌||◌, not, ◌==◌, if◌then◌else◌, Option, none, some,
  is_some,
}
use model_bridge.Base.Int.{pos, is_positive}
use model_bridge.Base.Int64.{◌+64◌}
use model_bridge.Base.Texts.{str_eq, trim_space}
use model_bridge.Base.Results.{Result, ok, err}
use model_bridge.Ledger.State.{BillingError}
use model_bridge.Relay.Channels.{Channel, channel_key}
use model_bridge.Relay.Health.{
  canonical_provider, HealthEvent, record_channel_failure, record_channel_success,
}
use model_bridge.Relay.Errors.{RelayError, retryable_upstream_error}
use model_bridge.Relay.Reports.{
  ChatUsage, billing_breakdown, chat_usage_has_values, chat_usage_is_complete,
}
use model_bridge.Relay.Biller.{Biller}
use model_bridge.Relay.Answers.{
  ChatResponse, Booking, Billing, chat_billing_usage, chat_response_has_output, fail_relay_billing,
  mark_relay_billing_pending, mark_relay_billing_pending_with_usage, complete_relay_billing,
}

pub record Line : Type 0 where
  pub provider : String → Option (Channel → String → Result RelayError ChatResponse)
  pub resolve : String → Result RelayError String
  -- `ctx.Err() != nil` after the call of a channel.
  pub cancelled : Channel → Bool
  pub billing_enabled : Bool
  -- Whether there is a billing service that records free requests.
  pub records_free : Bool
  -- `canEstimateChatUsage`, and the estimates of input and output.
  pub can_estimate : Bool
  pub estimated_input : ℕ
  pub estimate_response : ChatResponse → ℕ
  pub model : String
  pub service_tier : String
  pub new_id : String
  pub unix : ℕ

-- The variables of the loop.
pub record Progress (B : Type 0) : Type 0 where
  pub attempted : List String
  pub booking : Booking
  pub last_error : Option RelayError
  pub health : List HealthEvent
  pub store : B

-- `continue`, `break` and `return`.
pub data Next : Type 0 where
  continues stops : Next
  returns : Result RelayError ChatResponse → Next

abbrev pub is_unpriced : BillingError → Bool
is_unpriced BillingError.price_not_configured = true
is_unpriced e = false

-- The fields that an upstream left empty.
unfoldable pub with_defaults : Line → ChatResponse → ChatResponse
with_defaults line r = record {
  id = if str_eq r.id "" then line.new_id else r.id;
  object = if str_eq r.object "" then "chat.completion" else r.object;
  created = if r.created == 0 then line.unix else r.created;
  model = line.model;
  choices = r.choices;
  usage =
      if str_eq (trim_space r.usage.pricing_tier) ""
      then record r.usage { pricing_tier = line.service_tier }
      else r.usage;
}

-- `TotalTokens` of the usage that is billed.
unfoldable pub with_total : ChatUsage → ChatUsage
with_total u = record u { total_tokens = u.prompt_tokens +64 u.completion_tokens }

-- The counts that an incomplete report lacks.
unfoldable pub completed_usage : Line → ChatResponse → ChatUsage
completed_usage line r =
    let b = billing_breakdown r.usage in
    if not (is_positive b.input_tokens)
    then record r.usage { prompt_tokens = pos line.estimated_input }
    else if not (is_positive b.output_tokens) && chat_response_has_output r.choices
    then record r.usage { completion_tokens = pos (line.estimate_response r) }
    else r.usage

unfoldable pub estimated_usage : Line → ChatResponse → ChatUsage
estimated_usage line r = record r.usage {
  prompt_tokens = pos line.estimated_input;
  completion_tokens = pos (line.estimate_response r);
}

abbrev pub no_usage : ChatUsage
no_usage = record {
  prompt_tokens = pos 0;
  completion_tokens = pos 0;
  total_tokens = pos 0;
  prompt_details = none;
  completion_details = none;
  cache_creation_input_tokens = pos 0;
  cache_creation_1h_input_tokens = pos 0;
  cache_read_input_tokens = pos 0;
  pricing_tier = "";
  metrics = [];
}

module _ {B : Type 0} (biller : Biller B) (line : Line) where
  -- The answer, where its billing succeeded.
  unfoldable pub billed_answer :
      Progress B → List HealthEvent → ChatResponse → Billing B → Progress B × Next
  billed_answer a health r (ok done, b) =
      (record a { health = health; store = b }, Next.returns (ok r))
  billed_answer a health r (err e, b) =
      (record a { store = b }, Next.returns (err (RelayError.billing e)))

  -- The last part: the usage is billed, unless nothing is.
  unfoldable pub complete :
      Progress B → Channel → ChatResponse → ChatUsage → String → Progress B × Next
  complete a c r usage source =
      let answer = record r { usage = with_total usage } in
      if line.billing_enabled || is_some a.booking.free
      then billed_answer a a.health answer
          (complete_relay_billing biller a.booking (with_total usage) c source a.store)
      else (a, Next.returns (ok answer))

  -- An answer that may not be billed by an estimate.
  unfoldable pub refuse : Progress B → String → Progress B × Next
  refuse a reason = (
    record a { store = fail_relay_billing biller a.booking reason a.store },
    Next.returns (err RelayError.usage_unavailable),
  )

  -- `canSettleWithoutUsage`; without a reservation nothing is asked.
  unfoldable pub may_settle : Progress B → Result BillingError Bool
  may_settle a = elim a.booking.reservation [
    | none ↦ ok false
    | some id ↦ biller.can_settle id a.store
  ]

  -- A paid answer without usage. An error of the policy returns at once.
  unfoldable pub settle_unreported : Progress B → Channel → ChatResponse → Progress B × Next
  settle_unreported a c r = elim (may_settle a) [
    | err e ↦ (a, Next.returns (err (RelayError.billing e)))
    | ok may ↦
        if may
        then billed_answer a (record_channel_success c a.health) r
            (complete_relay_billing biller a.booking no_usage c "upstream" a.store)
        else billed_answer a a.health r
            (mark_relay_billing_pending biller a.booking "upstream_usage_unavailable" a.store)
  ]

  -- From the answer on.
  unfoldable pub bill_answer : Progress B → Channel → ChatResponse → Progress B × Next
  bill_answer a c r =
      if not (chat_usage_has_values r.usage)
      then if line.billing_enabled
        then settle_unreported a c r
        else if not line.can_estimate
        then refuse a "upstream_usage_unavailable"
        else complete a c r (estimated_usage line r) "local_estimate"
      else if not (chat_usage_is_complete r.usage (chat_response_has_output r.choices))
      then if line.billing_enabled
        then billed_answer a a.health r (
            mark_relay_billing_pending_with_usage biller a.booking "upstream_usage_incomplete"
              (chat_billing_usage r.usage "upstream") a.store)
        else if not line.can_estimate
        then refuse a "upstream_usage_incomplete"
        else complete a c r (completed_usage line r) "local_estimate"
      else complete a c r r.usage "upstream"

  -- The call of the provider.
  unfoldable pub call_upstream :
      Progress B → Channel → Result RelayError ChatResponse → Progress B × Next
  call_upstream a c (err e) =
      let failed = record a { last_error = some e; health = record_channel_failure c e a.health } in
      if line.cancelled c || not (retryable_upstream_error e)
      then (failed, Next.stops)
      else (failed, Next.continues)
  call_upstream a c (ok r) =
      bill_answer (record a { health = record_channel_success c a.health }) c (with_defaults line r)

  -- `bindReservationToCandidate`, then the call.
  unfoldable pub bind : Progress B → Channel → Result RelayError ChatResponse → Progress B × Next
  bind a c answer = elim a.booking.reservation [
    | none ↦ call_upstream a c answer
    | some id ↦ elim (biller.rebind id c a.store) [
      | ok done ↦ call_upstream (record a { store = done.1 }) c answer
      | err e ↦
          let failed = record a { last_error = some (RelayError.billing e) } in
          if is_unpriced e then (failed, Next.continues) else (
            record failed {
              store = fail_relay_billing biller a.booking "billing_channel_bind_failed" a.store;
            },
            Next.returns (err (RelayError.billing e)),
          )
    ]
  ]

  -- The reservation, which is made once; a channel without a price is passed over.
  unfoldable pub reserve_first :
      Progress B → Channel → Result RelayError ChatResponse → Progress B × Next
  reserve_first a c answer = elim (biller.reserve c a.store) [
    | err e ↦
        if is_unpriced e
        then (record a { last_error = some (RelayError.billing e) }, Next.continues)
        else (a, Next.returns (err (RelayError.billing e)))
    | ok held ↦
        bind (record a { booking = record a.booking { reservation = some held.0 }; store = held.1 })
          c answer
  ]

  unfoldable pub start_free_first :
      Progress B → Channel → Result RelayError ChatResponse → Progress B × Next
  start_free_first a c answer = elim (biller.start_free c a.store) [
    | err e ↦ (a, Next.returns (err (RelayError.billing e)))
    | ok started ↦
        bind (record a { booking = record a.booking { free = some started.0 }; store = started.1 })
          c answer
  ]

  unfoldable pub admit : Progress B → Channel → Result RelayError ChatResponse → Progress B × Next
  admit a c answer =
      if line.billing_enabled
      then if is_some a.booking.reservation then bind a c answer else reserve_first a c answer
      else if not line.records_free || is_some a.booking.free
      then bind a c answer
      else start_free_first a c answer

  -- The body of the loop, for the channel that was picked.
  unfoldable pub try_channel : Progress B → Channel → Progress B × Next
  try_channel a0 c =
      let a = record a0 { attempted = channel_key c ∷ a0.attempted } in
      elim (line.provider (canonical_provider c.provider)) [
        | none ↦ (record a { last_error = some RelayError.provider_unsupported }, Next.continues)
        | some call ↦ elim (line.resolve c.credential_ref) [
          | err e ↦ (
            record a { last_error = some e; health = record_channel_failure c e a.health },
            Next.continues,
          )
          | ok key ↦ admit a c (call c key)
        ]
      ]
