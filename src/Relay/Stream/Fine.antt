-- ===== src/Relay/Stream/Fine.antt =====
-- The attempts of one channel in internal/relay/advanced.go bill a paid stream that they end.
use Prim.Native.String.{String}
use model_bridge.Base.{
  ℕ, zero, suc, ◌+◌, ◌≡◌, refl, List, Bool, true, false, ◌&&◌, not, ltb, if◌then◌else◌, Option,
  none, some, inl, inr,
}
use model_bridge.Base.Results.{Result, ok, err, Result-cases}
use model_bridge.Relay.Channels.{Channel}
use model_bridge.Relay.Errors.{RelayError, retryable_upstream_error, retryable_stream_error}
use model_bridge.Relay.Health.{HealthEvent, record_channel_failure, record_channel_success}
use model_bridge.Relay.Reports.{ChatUsage}
use model_bridge.Relay.Biller.{Biller, IsLawful}
use model_bridge.Relay.Answers.{
  Billing, chat_billing_usage, mark_relay_billing_pending, mark_relay_billing_pending_with_usage,
  complete_relay_billing,
}
use model_bridge.Relay.Attempts.{may_settle, is_unpriced, no_usage}
use model_bridge.Relay.Kept.{
  Kept, complete_relay_billing-Kept, mark_relay_billing_pending-Kept,
  mark_relay_billing_pending_with_usage-Kept,
}
use model_bridge.Relay.Paid.{IsBilled}
use model_bridge.Relay.Stream.Events.{StreamBody, StreamedChatAttempt, open_and_read_chat_stream}
use model_bridge.Relay.Stream.Ends.{
  StreamLine, Streaming, StreamNext, max_stream_attempts_per_channel, billed_stream,
  complete_stream, refuse_stream, settle_unreported_stream, bill_stream, interrupt_stream,
  fail_stream, unless, stream_usage_is_incomplete, with_service_tier,
}
use model_bridge.Relay.Stream.Loop.{after_stream, stream_attempts, bind_stream}

module _ {B : Type 0} (biller : Biller B) (billed : ℕ → B → Type 0)
    (lawful : IsLawful biller billed) (st : StreamLine)
    (paid : st.line.billing_enabled ≡ true) where
  -- A call that returns no error has billed its stream; one that goes on is still a paid one.
  abbrev pub StreamFine : Streaming B × StreamNext → Type 0
  StreamFine (s, StreamNext.continues) = s.progress.booking.free ≡ none
  StreamFine (s, StreamNext.returns none) = IsBilled biller billed lawful st.line s.progress
  StreamFine (s, StreamNext.returns (some e)) = Unit

  pub fine_if :
      (test : Bool) (x y : Streaming B × StreamNext)
      → (test ≡ true → StreamFine x)
      → (test ≡ false → StreamFine y)
      → StreamFine (if test then x else y)
  fine_if true x y h k = h refl
  fine_if false x y h k = k refl

  fine_unless :
      (cancelled : Option RelayError) (stop : RelayError → Streaming B × StreamNext)
      (next : Streaming B × StreamNext)
      → ((e : RelayError) → StreamFine (stop e))
      → StreamFine next
      → StreamFine (unless cancelled stop next)
  fine_unless none stop next h k = k
  fine_unless (some e) stop next h k = h e

  pub if_paid :
      (x y : Streaming B × StreamNext)
      → StreamFine x
      → StreamFine (if st.line.billing_enabled then x else y)
  if_paid x y h = fine_if st.line.billing_enabled x y (λ holds. h) (λ free. cc (paid, free))

  refuse_stream-StreamFine :
      (s : Streaming B) (reason : String) (e : RelayError)
      → StreamFine (refuse_stream biller st s reason e)
  unfolding refuse_stream
  refuse_stream-StreamFine s reason e = tt

  module _ (id : ℕ) where
    -- The reservation of the call.
    abbrev pub Holds : Streaming B → Type 0
    Holds s = (s.progress.booking.reservation ≡ some id) × (s.progress.booking.free ≡ none)

    billed_stream-StreamFine :
        (s : Streaming B) (health : List HealthEvent) (done : Billing B)
        → Holds s
        → Kept biller billed lawful id done
        → StreamFine (billed_stream biller st s health done)
    unfolding billed_stream
    billed_stream-StreamFine s health (ok u, b) held k = (id, held.0, k)
    billed_stream-StreamFine s health (err e, b) held k = tt

    complete_stream-StreamFine :
        (s : Streaming B) (c : Channel) (usage : ChatUsage) (source : String)
        → Holds s
        → StreamFine (complete_stream biller st s c usage source)
    unfolding complete_stream
    complete_stream-StreamFine s c usage source held =
        let a = s.progress in
        billed_stream-StreamFine s (record_channel_success c a.health)
          (complete_relay_billing biller a.booking (with_service_tier st.line usage) c source
            a.store)
          held
          (complete_relay_billing-Kept biller billed lawful id a.booking
            (with_service_tier st.line usage) c source a.store held.0)

    settle_unreported_stream-StreamFine :
        (s : Streaming B) (c : Channel)
        → Holds s
        → StreamFine (settle_unreported_stream biller st s c)
    unfolding settle_unreported_stream
    settle_unreported_stream-StreamFine s c held =
        let a = s.progress in
        elim (Result-cases (may_settle biller st.line a)) [
          | inr (e, f) ↦ rw (f, settle_unreported_stream) tt
          | inl (may, f) ↦
              rw (f, settle_unreported_stream)
                (fine_if may _ _
                  (λ holds.
                    billed_stream-StreamFine s (record_channel_success c a.health)
                      (complete_relay_billing biller a.booking no_usage c "upstream" a.store) held
                      (complete_relay_billing-Kept biller billed lawful id a.booking no_usage c
                        "upstream" a.store held.0))
                  (λ later.
                    billed_stream-StreamFine s a.health
                      (mark_relay_billing_pending biller a.booking
                        "upstream_stream_usage_unavailable" a.store)
                      held
                      (mark_relay_billing_pending-Kept biller billed lawful id a.booking
                        "upstream_stream_usage_unavailable" a.store held.0)))
        ]

    bill_stream-StreamFine :
        (s : Streaming B) (c : Channel) (r : StreamedChatAttempt)
        → Holds s
        → StreamFine (bill_stream biller st s c r)
    unfolding bill_stream
    bill_stream-StreamFine s c r held =
        let a = s.progress in
        fine_if (not r.got_usage) _ _
          (λ absent. if_paid _ _ (settle_unreported_stream-StreamFine s c held))
          (λ reported.
            fine_if (stream_usage_is_incomplete r.usage r.output) _ _
              (λ partial. if_paid _ _ (
                billed_stream-StreamFine s a.health
                  (mark_relay_billing_pending_with_usage biller a.booking
                    "upstream_stream_usage_incomplete" (chat_billing_usage r.usage "upstream")
                    a.store)
                  held
                  (mark_relay_billing_pending_with_usage-Kept biller billed lawful id a.booking
                    "upstream_stream_usage_incomplete" (chat_billing_usage r.usage "upstream")
                    a.store held.0)))
              (λ whole. complete_stream-StreamFine s c r.usage "upstream" held))

    interrupt_stream-StreamFine :
        (s : Streaming B) (r : StreamedChatAttempt) (e : RelayError)
        → StreamFine (interrupt_stream biller st s r e)
    unfolding interrupt_stream
    interrupt_stream-StreamFine s r e = if_paid _ _ tt

    fail_stream-StreamFine :
        (s : Streaming B) (c : Channel) (attempt : ℕ) (e : RelayError)
        (again : Streaming B → Streaming B × StreamNext)
        → Holds s
        → StreamFine (again s)
        → StreamFine (fail_stream biller st s c attempt e again)
    unfolding fail_stream
    fail_stream-StreamFine s c attempt e again held later =
        fine_unless (st.context_error c attempt) _ _ (λ x. refuse_stream-StreamFine s _ x)
          (fine_if (not (retryable_upstream_error e)) _ _ (λ final. refuse_stream-StreamFine s _ e)
            (λ retried.
              fine_if
                (not
                  (retryable_stream_error e && ltb (attempt + 1) max_stream_attempts_per_channel))
                _ _ (λ spent. held.1)
                (λ left.
                  fine_unless (st.wait_for_stream_retry c attempt) _ _
                    (λ x. refuse_stream-StreamFine s _ x) later)))

    after_stream-StreamFine :
        (s : Streaming B) (c : Channel) (attempt : ℕ)
        (read : StreamedChatAttempt × Option RelayError)
        (again : Streaming B → Streaming B × StreamNext)
        → Holds s
        → ((tried : Streaming B) → Holds tried → StreamFine (again tried))
        → StreamFine (after_stream biller st s c attempt read again)
    unfolding after_stream
    after_stream-StreamFine s c attempt (r, none) again held later =
        bill_stream-StreamFine (record s { sent = r.sent }) c r held
    after_stream-StreamFine s c attempt (r, some e) again held later =
        let failed : Streaming B = record {
          progress = record s.progress {
            last_error = some e;
            health = record_channel_failure c e s.progress.health;
          };
          sent = r.sent;
        } in
        fine_if r.delivered _ _ (λ some_sent. interrupt_stream-StreamFine failed r e)
          (λ none_sent. fail_stream-StreamFine failed c attempt e again held (later failed held))

    pub stream_attempts-StreamFine :
        (left : ℕ) (new_stream : Channel → String → ℕ → Result RelayError StreamBody) (c : Channel)
        (key : String) (attempt : ℕ) (s : Streaming B)
        → Holds s
        → StreamFine (stream_attempts biller st left new_stream c key attempt s)
    unfolding stream_attempts
    stream_attempts-StreamFine zero new_stream c key attempt s held = held.1
    stream_attempts-StreamFine (suc left) new_stream c key attempt s held =
        after_stream-StreamFine s c attempt
          (open_and_read_chat_stream st.emit (new_stream c key attempt) s.sent)
          (λ again. stream_attempts biller st left new_stream c key (attempt + 1) again) held
          (stream_attempts-StreamFine left new_stream c key (attempt + 1))

    pub bind_stream-StreamFine :
        (attempts : Streaming B → Streaming B × StreamNext) (c : Channel) (s : Streaming B)
        → Holds s
        → ((tried : Streaming B) → Holds tried → StreamFine (attempts tried))
        → StreamFine (bind_stream biller st attempts c s)
    unfolding bind_stream
    bind_stream-StreamFine attempts c s held later =
        elim (Result-cases (biller.rebind id c s.progress.store)) [
          | inl ((done, bound), e) ↦
              rw (held.0, e, bind_stream)
                (later (record s { progress = record s.progress { store = bound } }) held)
          | inr (e, f) ↦
              rw (held.0, f, bind_stream)
                (fine_if (is_unpriced e) _ _ (λ unpriced. held.1) (λ priced. tt))
        ]
