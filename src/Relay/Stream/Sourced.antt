-- ===== src/Relay/Stream/Sourced.antt =====
-- The attempts of one channel in internal/relay/advanced.go send one stream.
use Prim.Native.String.{String}
use model_bridge.Base.{
  ℕ, zero, suc, ◌+◌, ◌≡◌, refl, List, [], Bool, true, false, ◌&&◌, not, ltb, if◌then◌else◌, Option,
  none, some, inl, inr, Bool-cases,
}
use model_bridge.Base.Results.{Result, ok, err, Result-cases}
use model_bridge.Relay.Channels.{Channel}
use model_bridge.Relay.Errors.{RelayError, retryable_upstream_error, retryable_stream_error}
use model_bridge.Relay.Health.{HealthEvent, record_channel_failure}
use model_bridge.Relay.Reports.{ChatUsage}
use model_bridge.Relay.Biller.{Biller}
use model_bridge.Relay.Answers.{Billing}
use model_bridge.Relay.Attempts.{may_settle}
use model_bridge.Relay.Stream.Events.{
  StreamBody, StreamedChatAttempt, nothing_read, open_and_read_chat_stream,
}
use model_bridge.Relay.Stream.Ends.{
  StreamLine, Streaming, StreamNext, max_stream_attempts_per_channel, billed_stream,
  complete_stream, refuse_stream, settle_unreported_stream, bill_stream, interrupt_stream,
  fail_stream, unless, stream_usage_is_incomplete,
}
use model_bridge.Relay.Stream.Loop.{after_stream, stream_attempts}
use model_bridge.Relay.Stream.Read.{FromOne, read_events-onto, read_events-silent}

-- What is kept of one call: nothing was sent before the next attempt, and one source at the end.
module _ {B : Type 0} (biller : Biller B) (st : StreamLine) where
  abbrev pub Sourced : Streaming B × StreamNext → Type 0
  Sourced (s, StreamNext.continues) = s.sent ≡ []
  Sourced (s, StreamNext.returns e) = FromOne st s.sent

  pub either-Sourced :
      (test : Bool) (x y : Streaming B × StreamNext)
      → Sourced x
      → Sourced y
      → Sourced (if test then x else y)
  either-Sourced true x y h k = h
  either-Sourced false x y h k = k

  if-Sourced :
      (test : Bool) (x y : Streaming B × StreamNext)
      → (test ≡ true → Sourced x)
      → (test ≡ false → Sourced y)
      → Sourced (if test then x else y)
  if-Sourced true x y h k = h refl
  if-Sourced false x y h k = k refl

  unless-Sourced :
      (cancelled : Option RelayError) (stop : RelayError → Streaming B × StreamNext)
      (next : Streaming B × StreamNext)
      → ((e : RelayError) → Sourced (stop e))
      → Sourced next
      → Sourced (unless cancelled stop next)
  unless-Sourced none stop next h k = k
  unless-Sourced (some e) stop next h k = h e

  billed_stream-Sourced :
      (s : Streaming B) (health : List HealthEvent) (done : Billing B)
      → FromOne st s.sent
      → Sourced (billed_stream biller st s health done)
  unfolding billed_stream
  billed_stream-Sourced s health (ok u, b) h = h
  billed_stream-Sourced s health (err e, b) h = h

  complete_stream-Sourced :
      (s : Streaming B) (c : Channel) (usage : ChatUsage) (source : String)
      → FromOne st s.sent
      → Sourced (complete_stream biller st s c usage source)
  unfolding complete_stream
  complete_stream-Sourced s c usage source h = billed_stream-Sourced s _ _ h

  refuse_stream-Sourced :
      (s : Streaming B) (reason : String) (e : RelayError)
      → FromOne st s.sent
      → Sourced (refuse_stream biller st s reason e)
  unfolding refuse_stream
  refuse_stream-Sourced s reason e h = h

  settle_unreported_stream-Sourced :
      (s : Streaming B) (c : Channel)
      → FromOne st s.sent
      → Sourced (settle_unreported_stream biller st s c)
  unfolding settle_unreported_stream
  settle_unreported_stream-Sourced s c h =
      elim (Result-cases (may_settle biller st.line s.progress)) [
        | inr (e, f) ↦ rw (f, settle_unreported_stream) h
        | inl (may, f) ↦
            rw (f, settle_unreported_stream)
              (either-Sourced may _ _ (billed_stream-Sourced s _ _ h)
                (billed_stream-Sourced s _ _ h))
      ]

  estimated-Sourced :
      (s : Streaming B) (c : Channel) (usage : ChatUsage)
      → FromOne st s.sent
      → Sourced (
          if not st.line.can_estimate
          then refuse_stream biller st s "upstream_usage_unavailable" RelayError.usage_unavailable
          else complete_stream biller st s c usage "local_estimate")
  estimated-Sourced s c usage h =
      either-Sourced (not st.line.can_estimate) _ _ (refuse_stream-Sourced s _ _ h)
        (complete_stream-Sourced s c usage "local_estimate" h)

  bill_stream-Sourced :
      (s : Streaming B) (c : Channel) (r : StreamedChatAttempt)
      → FromOne st s.sent
      → Sourced (bill_stream biller st s c r)
  unfolding bill_stream
  bill_stream-Sourced s c r h = elim (Bool-cases r.got_usage) [
    | inr absent ↦
        rw (absent, bill_stream)
          (either-Sourced st.line.billing_enabled _ _ (settle_unreported_stream-Sourced s c h)
            (estimated-Sourced s c _ h))
    | inl reported ↦
        rw (reported, bill_stream)
          (either-Sourced (stream_usage_is_incomplete r.usage r.output) _ _
            (either-Sourced st.line.billing_enabled _ _ (billed_stream-Sourced s _ _ h)
              (estimated-Sourced s c _ h))
            (complete_stream-Sourced s c r.usage "upstream" h))
  ]

  interrupt_stream-Sourced :
      (s : Streaming B) (r : StreamedChatAttempt) (e : RelayError)
      → FromOne st s.sent
      → Sourced (interrupt_stream biller st s r e)
  unfolding interrupt_stream
  interrupt_stream-Sourced s r e h =
      either-Sourced st.line.billing_enabled _ _ h (refuse_stream-Sourced s _ e h)

  fail_stream-Sourced :
      (s : Streaming B) (c : Channel) (attempt : ℕ) (e : RelayError)
      (again : Streaming B → Streaming B × StreamNext)
      → s.sent ≡ []
      → Sourced (again s)
      → Sourced (fail_stream biller st s c attempt e again)
  unfolding fail_stream
  fail_stream-Sourced s c attempt e again h later =
      unless-Sourced (st.context_error c attempt) _ _ (λ x. refuse_stream-Sourced s _ x (inl h))
        (either-Sourced (not (retryable_upstream_error e)) _ _ (refuse_stream-Sourced s _ e (inl h))
          (either-Sourced
            (not (retryable_stream_error e && ltb (attempt + 1) max_stream_attempts_per_channel)) _
            _ h
            (unless-Sourced (st.wait_for_stream_retry c attempt) _ _
              (λ x. refuse_stream-Sourced s _ x (inl h)) later)))

  after_stream-Sourced :
      (s : Streaming B) (c : Channel) (attempt : ℕ) (read : StreamedChatAttempt × Option RelayError)
      (again : Streaming B → Streaming B × StreamNext)
      → FromOne st read.0.sent
      → (read.0.delivered ≡ false → read.0.sent ≡ [])
      → ((tried : Streaming B) → tried.sent ≡ [] → Sourced (again tried))
      → Sourced (after_stream biller st s c attempt read again)
  unfolding after_stream
  after_stream-Sourced s c attempt (r, none) again one silent later =
      bill_stream-Sourced (record s { sent = r.sent }) c r one
  after_stream-Sourced s c attempt (r, some e) again one silent later =
      let failed : Streaming B = record {
        progress = record s.progress {
          last_error = some e;
          health = record_channel_failure c e s.progress.health;
        };
        sent = r.sent;
      } in
      if-Sourced r.delivered _ _ (λ some_sent. interrupt_stream-Sourced failed r e one)
        (λ none_sent.
          fail_stream-Sourced failed c attempt e again (silent none_sent)
            (later failed (silent none_sent)))

  module _ (provider : String) (new_stream : Channel → String → ℕ → Result RelayError StreamBody)
      (streams : st.new_stream provider ≡ some new_stream) (c : Channel) (key : String) where
    read_stream-FromOne :
        (attempt : ℕ)
        → FromOne st (open_and_read_chat_stream st.emit (new_stream c key attempt) []).0.sent
    unfolding open_and_read_chat_stream
    read_stream-FromOne attempt = elim (Result-cases (new_stream c key attempt)) [
      | inr (e, f) ↦ inl (rw (f, open_and_read_chat_stream) refl)
      | inl (body, f) ↦
          let (rest, h) = read_events-onto st.emit body.events body.ending (nothing_read []) in
          inr (record {
            provider = provider;
            new_stream = new_stream;
            provider_streams = streams;
            channel = c;
            key = key;
            attempt = attempt;
            body = body;
            opened = f;
            rest = rest;
            beginning = rw (f, open_and_read_chat_stream) h;
          })
    ]

    read_stream-silent :
        (opened : Result RelayError StreamBody)
        → (open_and_read_chat_stream st.emit opened []).0.delivered ≡ false
        → (open_and_read_chat_stream st.emit opened []).0.sent ≡ []
    unfolding open_and_read_chat_stream
    read_stream-silent (err e) h = refl
    read_stream-silent (ok body) h =
        read_events-silent st.emit body.events body.ending (nothing_read []) h

    pub stream_attempts-Sourced :
        (left attempt : ℕ) (s : Streaming B)
        → s.sent ≡ []
        → Sourced (stream_attempts biller st left new_stream c key attempt s)
    unfolding stream_attempts
    stream_attempts-Sourced zero attempt s h = h
    stream_attempts-Sourced (suc left) attempt s h =
        rw (h, stream_attempts)
          (after_stream-Sourced (record s { sent = [] }) c attempt
            (open_and_read_chat_stream st.emit (new_stream c key attempt) [])
            (λ again. stream_attempts biller st left new_stream c key (attempt + 1) again)
            (read_stream-FromOne attempt) (read_stream-silent (new_stream c key attempt))
            (λ tried k. stream_attempts-Sourced left (attempt + 1) tried k))
