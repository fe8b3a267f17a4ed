-- ===== src/Relay/Stream/Ends.antt =====
-- The end of a stream in `StreamChatCompletions` of internal/relay/advanced.go: what is billed of it,
-- and what follows its failure.
use Prim.Native.String.{String, count}
use model_bridge.Base.{ℕ, ◌+◌, List, Bool, ◌&&◌, ◌||◌, not, ltb, if◌then◌else◌, Option, none, some}
use model_bridge.Base.Int.{pos, is_positive}
use model_bridge.Base.Int64.{◌+64◌}
use model_bridge.Base.Texts.{str_eq, trim_space}
use model_bridge.Base.Results.{Result, ok, err}
use model_bridge.Relay.Channels.{Channel}
use model_bridge.Relay.Errors.{RelayError, retryable_upstream_error, retryable_stream_error}
use model_bridge.Relay.Health.{HealthEvent, record_channel_success}
use model_bridge.Relay.Reports.{ChatUsage, billing_breakdown}
use model_bridge.Relay.Biller.{Biller}
use model_bridge.Relay.Answers.{
  Billing, chat_billing_usage, fail_relay_billing, mark_relay_billing_pending,
  mark_relay_billing_pending_with_usage, complete_relay_billing,
}
use model_bridge.Relay.Attempts.{Line, Progress, no_usage, may_settle}
use model_bridge.Relay.Stream.Events.{StreamEvent, StreamBody, StreamedChatAttempt}

-- What a stream asks of others: a provider that streams, by its name, opens a stream for a channel
-- with a credential and the number of the attempt; the sink; `ctx.Err()` after an attempt; and the
-- wait between two attempts.
pub record StreamLine : Type 0 where
  pub line : Line
  pub new_stream : String → Option (Channel → String → ℕ → Result RelayError StreamBody)
  pub emit : List StreamEvent → Option RelayError
  pub context_error : Channel → ℕ → Option RelayError
  pub wait_for_stream_retry : Channel → ℕ → Option RelayError

-- The variables of the loop, with what was handed to the sink.
pub record Streaming (B : Type 0) : Type 0 where
  pub progress : Progress B
  pub sent : List StreamEvent

-- `continue` of the outer loop and `return`, with the error that is returned.
pub data StreamNext : Type 0 where
  continues : StreamNext
  returns : Option RelayError → StreamNext

-- `maxStreamAttemptsPerChannel`
abbrev pub max_stream_attempts_per_channel : ℕ
max_stream_attempts_per_channel = 2

unfoldable pub estimated_stream_usage : Line → String → ChatUsage
estimated_stream_usage line output = record no_usage {
  prompt_tokens = pos line.estimated_input;
  completion_tokens = pos (count output);
  total_tokens = pos line.estimated_input +64 pos (count output);
}

unfoldable pub completed_stream_usage : Line → ChatUsage → String → ChatUsage
completed_stream_usage line u output =
    let b = billing_breakdown u in
    record u {
      prompt_tokens =
          if is_positive b.input_tokens then u.prompt_tokens else pos line.estimated_input;
      completion_tokens =
          if not (is_positive b.output_tokens) && not (str_eq output "")
          then pos (count output)
          else u.completion_tokens;
    }

unfoldable pub stream_usage_is_incomplete : ChatUsage → String → Bool
stream_usage_is_incomplete u output =
    let b = billing_breakdown u in
    not (is_positive b.input_tokens)
    || (not (is_positive b.output_tokens) && not (str_eq output ""))

unfoldable pub with_service_tier : Line → ChatUsage → ChatUsage
with_service_tier line u =
    if str_eq (trim_space u.pricing_tier) ""
    then record u { pricing_tier = line.service_tier }
    else u

-- An error of the context stops what follows.
abbrev pub unless {ℓ} : {A : Type ℓ} → Option RelayError → (RelayError → A) → A → A
unless none stop next = next
unless (some e) stop next = stop e

module _ {B : Type 0} (biller : Biller B) (st : StreamLine) where
  -- The end of a call whose billing is written: no error where it succeeded.
  unfoldable pub billed_stream :
      Streaming B → List HealthEvent → Billing B → Streaming B × StreamNext
  billed_stream s health (ok done, b) = (
    record s { progress = record s.progress { health = health; store = b } },
    StreamNext.returns none,
  )
  billed_stream s health (err e, b) = (
    record s { progress = record s.progress { store = b } },
    StreamNext.returns (some (RelayError.billing e)),
  )

  unfoldable pub complete_stream :
      Streaming B → Channel → ChatUsage → String → Streaming B × StreamNext
  complete_stream s c usage source =
      let a = s.progress in
      billed_stream s (record_channel_success c a.health)
        (complete_relay_billing biller a.booking (with_service_tier st.line usage) c source a.store)

  -- The reservation, or the free request, is given up.
  unfoldable pub refuse_stream : Streaming B → String → RelayError → Streaming B × StreamNext
  refuse_stream s reason e =
      let a = s.progress in
      (
        record s {
          progress = record a { store = fail_relay_billing biller a.booking reason a.store };
        },
        StreamNext.returns (some e),
      )

  unfoldable pub settle_unreported_stream : Streaming B → Channel → Streaming B × StreamNext
  settle_unreported_stream s c =
      let a = s.progress in
      elim (may_settle biller st.line a) [
        | err e ↦ (s, StreamNext.returns (some (RelayError.billing e)))
        | ok may ↦
            if may
            then billed_stream s (record_channel_success c a.health)
                (complete_relay_billing biller a.booking no_usage c "upstream" a.store)
            else billed_stream s a.health (
                mark_relay_billing_pending biller a.booking "upstream_stream_usage_unavailable"
                  a.store)
      ]

  -- A stream that has ended.
  unfoldable pub bill_stream :
      Streaming B → Channel → StreamedChatAttempt → Streaming B × StreamNext
  bill_stream s c r =
      let a = s.progress in
      if not r.got_usage
      then if st.line.billing_enabled
        then settle_unreported_stream s c
        else if not st.line.can_estimate
        then refuse_stream s "upstream_usage_unavailable" RelayError.usage_unavailable
        else complete_stream s c (estimated_stream_usage st.line r.output) "local_estimate"
      else if stream_usage_is_incomplete r.usage r.output
      then if st.line.billing_enabled
        then billed_stream s a.health (
            mark_relay_billing_pending_with_usage biller a.booking
              "upstream_stream_usage_incomplete" (chat_billing_usage r.usage "upstream") a.store)
        else if not st.line.can_estimate
        then refuse_stream s "upstream_usage_unavailable" RelayError.usage_unavailable
        else complete_stream s c (completed_stream_usage st.line r.usage r.output) "local_estimate"
      else complete_stream s c r.usage "upstream"

  -- A stream that fails after a part of it was delivered; the errors of the marks are only logged.
  unfoldable pub interrupt_stream :
      Streaming B → StreamedChatAttempt → RelayError → Streaming B × StreamNext
  interrupt_stream s r e =
      let a = s.progress in
      let marked =
        if r.got_usage
        then mark_relay_billing_pending_with_usage biller a.booking "upstream_stream_interrupted"
            (chat_billing_usage r.usage "upstream") a.store
        else mark_relay_billing_pending biller a.booking "upstream_stream_usage_unavailable"
            a.store in
      if st.line.billing_enabled
      then (record s { progress = record a { store = marked.1 } }, StreamNext.returns (some e))
      else refuse_stream s "upstream_stream_interrupted" e

  -- A stream that fails before: another attempt, another channel, or the end.
  unfoldable pub fail_stream :
      Streaming B
      → Channel
      → ℕ
      → RelayError
      → (Streaming B → Streaming B × StreamNext)
      → Streaming B × StreamNext
  fail_stream s c attempt e again =
      unless (st.context_error c attempt) (refuse_stream s "upstream_stream_open_failed") (
        if not (retryable_upstream_error e)
        then refuse_stream s "upstream_stream_open_failed" e
        else if not (retryable_stream_error e && ltb (attempt + 1) max_stream_attempts_per_channel)
        then (s, StreamNext.continues)
        else unless (st.wait_for_stream_retry c attempt)
            (refuse_stream s "upstream_stream_open_failed") (again s))
