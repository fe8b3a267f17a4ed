-- ===== src/Relay/Stream/Source.antt =====
-- A stream of internal/relay/advanced.go comes from one upstream: failover stops with the first
-- event that is delivered.
use model_bridge.Base.{
  ℕ, zero, suc, ◌≡◌, refl, List, [], ◌∷◌, ltb, none, some, inl, inr, Bool-cases, Option-cases,
  length,
}
use model_bridge.Base.Results.{Result-cases}
use model_bridge.Relay.Channels.{Channel, channel_key, pick_weighted_channel}
use model_bridge.Relay.Health.{canonical_provider}
use model_bridge.Relay.Biller.{Biller}
use model_bridge.Relay.Attempts.{is_unpriced}
use model_bridge.Relay.Chat.{nothing_tried}
use model_bridge.Relay.Stream.Ends.{
  StreamLine, Streaming, StreamNext, max_stream_attempts_per_channel,
}
use model_bridge.Relay.Stream.Loop.{
  StreamStop, stream_attempts, bind_stream, reserve_stream, start_free_stream, admit_stream,
  try_stream, follow_stream, stream_loop, give_up_stream, end_stream_loop, relay_stream,
}
use model_bridge.Relay.Stream.Read.{FromOne}
use model_bridge.Relay.Stream.Sourced.{Sourced, either-Sourced, stream_attempts-Sourced}

module _ {B : Type 0} (biller : Biller B) (st : StreamLine) where
  bind_stream-Sourced :
      (attempts : Streaming B → Streaming B × StreamNext) (c : Channel) (s : Streaming B)
      → s.sent ≡ []
      → ((tried : Streaming B) → tried.sent ≡ [] → Sourced biller st (attempts tried))
      → Sourced biller st (bind_stream biller st attempts c s)
  unfolding bind_stream
  bind_stream-Sourced attempts c s h later = elim (Option-cases s.progress.booking.reservation) [
    | inl nothing ↦ rw (nothing, bind_stream) (later s h)
    | inr (id, held) ↦ elim (Result-cases (biller.rebind id c s.progress.store)) [
      | inl ((done, bound), e) ↦
          rw (held, e, bind_stream)
            (later (record s { progress = record s.progress { store = bound } }) h)
      | inr (e, f) ↦
          rw (held, f, bind_stream) (either-Sourced biller st (is_unpriced e) _ _ h (inl h))
    ]
  ]

  reserve_stream-Sourced :
      (attempts : Streaming B → Streaming B × StreamNext) (c : Channel) (s : Streaming B)
      → s.sent ≡ []
      → ((tried : Streaming B) → tried.sent ≡ [] → Sourced biller st (attempts tried))
      → Sourced biller st (reserve_stream biller st attempts c s)
  unfolding reserve_stream
  reserve_stream-Sourced attempts c s h later =
      elim (Result-cases (biller.reserve c s.progress.store)) [
        | inl ((id, held), e) ↦
            rw (e, reserve_stream)
              (bind_stream-Sourced attempts c
                (record s {
                  progress = record s.progress {
                    booking = record { reservation = some id; free = none };
                    store = held;
                  };
                })
                h later)
        | inr (e, f) ↦
            rw (f, reserve_stream) (either-Sourced biller st (is_unpriced e) _ _ h (inl h))
      ]

  start_free_stream-Sourced :
      (attempts : Streaming B → Streaming B × StreamNext) (c : Channel) (s : Streaming B)
      → s.sent ≡ []
      → ((tried : Streaming B) → tried.sent ≡ [] → Sourced biller st (attempts tried))
      → Sourced biller st (start_free_stream biller st attempts c s)
  unfolding start_free_stream
  start_free_stream-Sourced attempts c s h later =
      elim (Result-cases (biller.start_free c s.progress.store)) [
        | inl ((id, started), e) ↦
            rw (e, start_free_stream)
              (bind_stream-Sourced attempts c
                (record s {
                  progress = record s.progress {
                    booking = record { reservation = none; free = some id };
                    store = started;
                  };
                })
                h later)
        | inr (e, f) ↦ rw (f, start_free_stream) (inl h)
      ]

  admit_stream-Sourced :
      (attempts : Streaming B → Streaming B × StreamNext) (c : Channel) (s : Streaming B)
      → s.sent ≡ []
      → ((tried : Streaming B) → tried.sent ≡ [] → Sourced biller st (attempts tried))
      → Sourced biller st (admit_stream biller st attempts c s)
  unfolding admit_stream
  admit_stream-Sourced attempts c s h later =
      either-Sourced biller st _ _ _ (bind_stream-Sourced attempts c s h later) (
        either-Sourced biller st st.line.billing_enabled _ _
          (reserve_stream-Sourced attempts c s h later)
          (either-Sourced biller st st.line.records_free _ _
            (start_free_stream-Sourced attempts c s h later)
            (bind_stream-Sourced attempts c s h later)))

  try_stream-Sourced :
      (s : Streaming B) (c : Channel) → s.sent ≡ [] → Sourced biller st (try_stream biller st s c)
  unfolding try_stream
  try_stream-Sourced s c h = elim (Option-cases (st.new_stream (canonical_provider c.provider))) [
    | inl unsupported ↦ rw (unsupported, try_stream) h
    | inr (new_stream, f) ↦ elim (Result-cases (st.line.resolve c.credential_ref)) [
      | inr (e, g) ↦ rw (f, g, try_stream) h
      | inl (key, g) ↦
          rw (f, g, try_stream)
            (admit_stream-Sourced
              (λ tried.
                stream_attempts biller st max_stream_attempts_per_channel new_stream c key 0 tried)
              c
              (record s {
                progress = record s.progress { attempted = channel_key c ∷ s.progress.attempted };
              })
              h
              (λ tried k.
                stream_attempts-Sourced biller st (canonical_provider c.provider) new_stream f c key
                  max_stream_attempts_per_channel 0 tried k))
    ]
  ]

  module _ (intn : ℕ → ℕ) where
    follow_stream-FromOne :
        (tried : Streaming B × StreamNext) (again : Streaming B → Streaming B × StreamStop)
        → Sourced biller st tried
        → ((s : Streaming B) → s.sent ≡ [] → FromOne st (again s).0.sent)
        → FromOne st (follow_stream biller st tried again).0.sent
    follow_stream-FromOne (s, StreamNext.continues) again h later = later s h
    follow_stream-FromOne (s, StreamNext.returns e) again h later = h

    stream_loop-FromOne :
        (fuel : ℕ) (candidates : List Channel) (s : Streaming B)
        → s.sent ≡ []
        → FromOne st (stream_loop biller st intn fuel candidates s).0.sent
    unfolding stream_loop
    stream_loop-FromOne zero candidates s h = inl h
    stream_loop-FromOne (suc fuel) candidates s h =
        elim (Bool-cases (ltb (length s.progress.attempted) (length candidates))) [
          | inr full ↦ inl (rw full h)
          | inl room ↦
              elim (Option-cases (pick_weighted_channel intn candidates s.progress.attempted)) [
                | inl nothing ↦ inl (rw (room, nothing) h)
                | inr (c, picked) ↦
                    rw (room, picked)
                      (follow_stream-FromOne (try_stream biller st s c)
                        (λ tried. stream_loop biller st intn fuel candidates tried)
                        (try_stream-Sourced s c h) (stream_loop-FromOne fuel candidates))
              ]
        ]

    end_stream_loop-sent :
        (ended : Streaming B × StreamStop)
        → (end_stream_loop biller st intn ended).0.sent ≡ ended.0.sent
    unfolding end_stream_loop give_up_stream
    end_stream_loop-sent (s, StreamStop.returned e) = refl
    end_stream_loop-sent (s, StreamStop.leaves) = refl
    end_stream_loop-sent (s, StreamStop.out_of_fuel) = refl

    -- Whatever `StreamChatCompletions` hands to its sink is nothing, or a beginning of the events of
    -- one stream that one provider opened in one attempt: after the first event of a stream no other
    -- attempt and no other channel adds to it, whatever the providers, the sink and the billing
    -- service answer.
    pub relay_stream-FromOne :
        (candidates : List Channel) (b : B)
        → FromOne st (relay_stream biller st intn candidates b).0.sent
    unfolding relay_stream
    relay_stream-FromOne candidates b =
        let start : Streaming B = record {
          progress = nothing_tried biller st.line intn b;
          sent = [];
        } in
        let ended = stream_loop biller st intn (suc (length candidates)) candidates start in
        rw (end_stream_loop-sent ended)
          (stream_loop-FromOne (suc (length candidates)) candidates start refl)
