-- ===== src/Relay/Stream/Loop.antt =====
-- `StreamChatCompletions` of internal/relay/advanced.go.
use Prim.Native.String.{String}
use model_bridge.Base.{
  ℕ, zero, suc, ◌+◌, List, [], ◌∷◌, Bool, ◌&&◌, ◌||◌, not, ltb, if◌then◌else◌, Option, none, some,
  is_some, or_else, length,
}
use model_bridge.Base.Texts.{str_eq, trim_space}
use model_bridge.Base.Results.{Result, ok, err, ◌>>=◌, ◌>>◌, guard, or_error}
use model_bridge.Relay.Channels.{Channel, channel_key, pick_weighted_channel}
use model_bridge.Relay.Errors.{RelayError}
use model_bridge.Relay.Health.{canonical_provider, record_channel_failure}
use model_bridge.Relay.Biller.{Biller}
use model_bridge.Relay.Answers.{fail_relay_billing}
use model_bridge.Relay.Attempts.{is_unpriced}
use model_bridge.Relay.Chat.{
  Gate, Principal, model_allowed, resolve_group_policy, within_rpm, nothing_tried,
}
use model_bridge.Relay.Stream.Events.{
  StreamBody, StreamedChatAttempt, open_and_read_chat_stream, stream_failure_reason,
}
use model_bridge.Relay.Stream.Ends.{
  StreamLine, Streaming, StreamNext, max_stream_attempts_per_channel, bill_stream, interrupt_stream,
  fail_stream,
}

pub data StreamStop : Type 0 where
  out_of_fuel leaves : StreamStop
  returned : Option RelayError → StreamStop

module _ {B : Type 0} (biller : Biller B) (st : StreamLine) where
  -- What follows one attempt of a channel.
  unfoldable pub after_stream :
      Streaming B
      → Channel
      → ℕ
      → StreamedChatAttempt × Option RelayError
      → (Streaming B → Streaming B × StreamNext)
      → Streaming B × StreamNext
  after_stream s c attempt (r, none) again = bill_stream biller st (record s { sent = r.sent }) c r
  after_stream s c attempt (r, some e) again =
      let a = s.progress in
      let failed : Streaming B = record {
        progress = record a { last_error = some e; health = record_channel_failure c e a.health };
        sent = r.sent;
      } in
      if r.delivered
      then interrupt_stream biller st failed r e
      else fail_stream biller st failed c attempt e again

  -- The attempts of a channel that are left.
  unfoldable pub stream_attempts :
      ℕ
      → (Channel → String → ℕ → Result RelayError StreamBody)
      → Channel
      → String
      → ℕ
      → Streaming B
      → Streaming B × StreamNext
  stream_attempts zero new_stream c key attempt s = (s, StreamNext.continues)
  stream_attempts (suc left) new_stream c key attempt s =
      after_stream s c attempt (open_and_read_chat_stream st.emit (new_stream c key attempt) s.sent)
        (λ again. stream_attempts left new_stream c key (attempt + 1) again)

  -- `bindReservationToCandidate`, then the attempts.
  unfoldable pub bind_stream :
      (Streaming B → Streaming B × StreamNext) → Channel → Streaming B → Streaming B × StreamNext
  bind_stream attempts c s =
      let a = s.progress in
      elim a.booking.reservation [
        | none ↦ attempts s
        | some id ↦ elim (biller.rebind id c a.store) [
          | ok done ↦ attempts (record s { progress = record a { store = done.1 } })
          | err e ↦
              let failed = record a { last_error = some (RelayError.billing e) } in
              if is_unpriced e then (record s { progress = failed }, StreamNext.continues) else (
                record s {
                  progress = record failed {
                    store =
                        fail_relay_billing biller a.booking "billing_channel_bind_failed" a.store;
                  };
                },
                StreamNext.returns (some (RelayError.billing e)),
              )
        ]
      ]

  -- `startRelayBilling` of a paid request, and of a free one.
  unfoldable pub reserve_stream :
      (Streaming B → Streaming B × StreamNext) → Channel → Streaming B → Streaming B × StreamNext
  reserve_stream attempts c s =
      let a = s.progress in
      elim (biller.reserve c a.store) [
        | err e ↦
            if is_unpriced e
            then (
              record s { progress = record a { last_error = some (RelayError.billing e) } },
              StreamNext.continues,
            )
            else (s, StreamNext.returns (some (RelayError.billing e)))
        | ok held ↦ bind_stream attempts c (record s {
          progress = record a {
            booking = record { reservation = some held.0; free = none };
            store = held.1;
          };
        })
      ]

  unfoldable pub start_free_stream :
      (Streaming B → Streaming B × StreamNext) → Channel → Streaming B → Streaming B × StreamNext
  start_free_stream attempts c s =
      let a = s.progress in
      elim (biller.start_free c a.store) [
        | err e ↦ (s, StreamNext.returns (some (RelayError.billing e)))
        | ok started ↦ bind_stream attempts c (record s {
          progress = record a {
            booking = record { reservation = none; free = some started.0 };
            store = started.1;
          };
        })
      ]

  unfoldable pub admit_stream :
      (Streaming B → Streaming B × StreamNext) → Channel → Streaming B → Streaming B × StreamNext
  admit_stream attempts c s =
      if is_some s.progress.booking.reservation || is_some s.progress.booking.free
      then bind_stream attempts c s
      else if st.line.billing_enabled
      then reserve_stream attempts c s
      else if st.line.records_free
      then start_free_stream attempts c s
      else bind_stream attempts c s

  -- The body of the outer loop, for the channel that was picked.
  unfoldable pub try_stream : Streaming B → Channel → Streaming B × StreamNext
  try_stream s0 c =
      let a = record s0.progress { attempted = channel_key c ∷ s0.progress.attempted } in
      elim (st.new_stream (canonical_provider c.provider)) [
        | none ↦ (
          record s0 { progress = record a { last_error = some RelayError.streaming_unsupported } },
          StreamNext.continues,
        )
        | some new_stream ↦ elim (st.line.resolve c.credential_ref) [
          | err e ↦ (
            record s0 {
              progress = record a {
                last_error = some e;
                health = record_channel_failure c e a.health;
              };
            },
            StreamNext.continues,
          )
          | ok key ↦
              admit_stream
                (λ s. stream_attempts max_stream_attempts_per_channel new_stream c key 0 s) c
                (record s0 { progress = a })
        ]
      ]

  abbrev pub follow_stream :
      Streaming B × StreamNext → (Streaming B → Streaming B × StreamStop) → Streaming B × StreamStop
  follow_stream (s, StreamNext.continues) again = again s
  follow_stream (s, StreamNext.returns e) again = (s, StreamStop.returned e)

  module _ (intn : ℕ → ℕ) where
    unfoldable pub stream_loop : ℕ → List Channel → Streaming B → Streaming B × StreamStop
    stream_loop zero candidates s = (s, StreamStop.out_of_fuel)
    stream_loop (suc fuel) candidates s =
        if not (ltb (length s.progress.attempted) (length candidates))
        then (s, StreamStop.leaves)
        else elim (pick_weighted_channel intn candidates s.progress.attempted) [
          | none ↦ (s, StreamStop.leaves)
          | some c ↦ follow_stream (try_stream s c) (λ tried. stream_loop fuel candidates tried)
        ]

    -- What follows the loop.
    unfoldable pub give_up_stream : Streaming B → Streaming B × Option RelayError
    give_up_stream s =
        let a = s.progress in
        let last = or_else a.last_error RelayError.streaming_unsupported in
        (
          record s {
            progress = record a {
              last_error = some last;
              store = fail_relay_billing biller a.booking (stream_failure_reason last) a.store;
            };
          },
          some last,
        )

    unfoldable pub end_stream_loop : Streaming B × StreamStop → Streaming B × Option RelayError
    end_stream_loop (s, StreamStop.returned e) = (s, e)
    end_stream_loop (s, StreamStop.leaves) = give_up_stream s
    end_stream_loop (s, StreamStop.out_of_fuel) = give_up_stream s

    -- `StreamChatCompletions` once it is admitted.
    unfoldable pub relay_stream : List Channel → B → Streaming B × Option RelayError
    relay_stream candidates b = end_stream_loop (
        stream_loop (suc (length candidates)) candidates
          (record { progress = nothing_tried biller st.line intn b; sent = [] }))

-- The checks of `StreamChatCompletions` before the loop.
unfoldable pub admitted_stream :
    Gate → Option Principal → String → Result RelayError (List Channel × Bool)
admitted_stream gate principal model = do
  valid ← gate.validate
  guard (model_allowed principal model) RelayError.model_not_allowed
  p ← or_error principal RelayError.model_not_allowed
  limited ← (if str_eq p.token_id "" then ok tt else gate.acquire_token p.token_id)
  policy ← resolve_group_policy gate p
  guard
      (str_eq policy.billing_type "free" || str_eq (trim_space p.tenant_id) "" || gate.has_billing)
      RelayError.billing_unavailable
  consumed ← within_rpm gate policy
  candidates ← gate.candidates
  guard (ltb 0 (length candidates)) RelayError.model_not_found
  ok (candidates, gate.has_billing && not (str_eq policy.billing_type "free"))

-- `StreamChatCompletions`
unfoldable pub stream_chat_completions :
    {B : Type 0}
    → Biller B
    → StreamLine
    → (ℕ → ℕ)
    → Gate
    → Option Principal
    → B
    → Streaming B × Option RelayError
stream_chat_completions biller st intn gate principal b =
    elim (admitted_stream gate principal st.line.model) [
      | err e ↦ (record { progress = nothing_tried biller st.line intn b; sent = [] }, some e)
      | ok entry ↦
          relay_stream biller (record st { line = record st.line { billing_enabled = entry.1 } })
            intn entry.0 b
    ]
