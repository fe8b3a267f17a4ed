-- ===== src/Relay/Stream/Billed.antt =====
-- A paid stream of internal/relay/advanced.go that ends without an error is billed.
use model_bridge.Base.{
  ℕ, zero, suc, ◌≡◌, refl, List, [], ◌∷◌, true, ◌||◌, ltb, none, some, is_some, inl, inr,
  Bool-cases, Option-cases, length,
}
use model_bridge.Base.Results.{Result-cases}
use model_bridge.Relay.Channels.{Channel, channel_key, pick_weighted_channel}
use model_bridge.Relay.Health.{canonical_provider}
use model_bridge.Relay.Biller.{Biller, IsLawful}
use model_bridge.Relay.Attempts.{is_unpriced}
use model_bridge.Relay.Chat.{nothing_tried}
use model_bridge.Relay.Paid.{IsBilled}
use model_bridge.Relay.Stream.Ends.{
  StreamLine, Streaming, StreamNext, max_stream_attempts_per_channel,
}
use model_bridge.Relay.Stream.Loop.{
  StreamStop, stream_attempts, reserve_stream, admit_stream, try_stream, follow_stream, stream_loop,
  give_up_stream, end_stream_loop, relay_stream,
}
use model_bridge.Relay.Stream.Fine.{
  StreamFine, fine_if, if_paid, Holds, stream_attempts-StreamFine, bind_stream-StreamFine,
}

module _ {B : Type 0} (biller : Biller B) (billed : ℕ → B → Type 0)
    (lawful : IsLawful biller billed) (st : StreamLine)
    (paid : st.line.billing_enabled ≡ true) where
  -- What is left of a call that may be paid: no free request.
  abbrev MayPay : Streaming B → Type 0
  MayPay s = s.progress.booking.free ≡ none

  -- The attempts of a channel, once there is a reservation.
  abbrev AttemptsFine : (Streaming B → Streaming B × StreamNext) → Type 0
  AttemptsFine attempts =
      (id : ℕ) (s : Streaming B)
      → Holds biller billed lawful st paid id s
      → StreamFine biller billed lawful st paid (attempts s)

  neither :
      (s : Streaming B)
      → s.progress.booking.reservation ≡ none
      → MayPay s
      → (is_some s.progress.booking.reservation || is_some s.progress.booking.free) ≡ true
      → ⊥
  neither s nothing none_free holds = cc (rw (nothing, none_free) at holds)

  reserve_stream-StreamFine :
      (attempts : Streaming B → Streaming B × StreamNext) (c : Channel) (s : Streaming B)
      → MayPay s
      → AttemptsFine attempts
      → StreamFine biller billed lawful st paid (reserve_stream biller st attempts c s)
  unfolding reserve_stream
  reserve_stream-StreamFine attempts c s none_free later =
      elim (Result-cases (biller.reserve c s.progress.store)) [
        | inl ((id, held), e) ↦
            rw (e, reserve_stream)
              (bind_stream-StreamFine biller billed lawful st paid id attempts c
                (record s {
                  progress = record s.progress {
                    booking = record { reservation = some id; free = none };
                    store = held;
                  };
                })
                (refl, refl) (later id))
        | inr (e, f) ↦
            rw (f, reserve_stream)
              (fine_if biller billed lawful st paid (is_unpriced e) _ _ (λ unpriced. none_free)
                (λ priced. tt))
      ]

  admit_stream-StreamFine :
      (attempts : Streaming B → Streaming B × StreamNext) (c : Channel) (s : Streaming B)
      → MayPay s
      → AttemptsFine attempts
      → StreamFine biller billed lawful st paid (admit_stream biller st attempts c s)
  unfolding admit_stream
  admit_stream-StreamFine attempts c s none_free later =
      elim (Option-cases s.progress.booking.reservation) [
        | inr (id, held) ↦
            fine_if biller billed lawful st paid
              (is_some s.progress.booking.reservation || is_some s.progress.booking.free) _ _
              (λ holds.
                bind_stream-StreamFine biller billed lawful st paid id attempts c s
                  (held, none_free) (later id))
              (λ fails.
                if_paid biller billed lawful st paid _ _
                  (reserve_stream-StreamFine attempts c s none_free later))
        | inl nothing ↦
            fine_if biller billed lawful st paid
              (is_some s.progress.booking.reservation || is_some s.progress.booking.free) _ _
              (λ holds. absurd (neither s nothing none_free holds))
              (λ fails.
                if_paid biller billed lawful st paid _ _
                  (reserve_stream-StreamFine attempts c s none_free later))
      ]

  try_stream-StreamFine :
      (s : Streaming B) (c : Channel)
      → MayPay s
      → StreamFine biller billed lawful st paid (try_stream biller st s c)
  unfolding try_stream
  try_stream-StreamFine s c none_free =
      elim (Option-cases (st.new_stream (canonical_provider c.provider))) [
        | inl unsupported ↦ rw (unsupported, try_stream) none_free
        | inr (new_stream, f) ↦ elim (Result-cases (st.line.resolve c.credential_ref)) [
          | inr (e, g) ↦ rw (f, g, try_stream) none_free
          | inl (key, g) ↦
              rw (f, g, try_stream)
                (admit_stream-StreamFine
                  (λ tried.
                    stream_attempts biller st max_stream_attempts_per_channel new_stream c key 0
                      tried)
                  c
                  (record s {
                    progress = record s.progress {
                      attempted = channel_key c ∷ s.progress.attempted;
                    };
                  })
                  none_free
                  (λ id tried held.
                    stream_attempts-StreamFine biller billed lawful st paid id
                      max_stream_attempts_per_channel new_stream c key 0 tried held))
        ]
      ]

  -- How the loop ends.
  abbrev StreamEndsFine : Streaming B × StreamStop → Type 0
  StreamEndsFine (s, StreamStop.returned none) = IsBilled biller billed lawful st.line s.progress
  StreamEndsFine (s, StreamStop.returned (some e)) = Unit
  StreamEndsFine (s, StreamStop.leaves) = Unit
  StreamEndsFine (s, StreamStop.out_of_fuel) = Unit

  module _ (intn : ℕ → ℕ) where
    follow_stream-EndsFine :
        (tried : Streaming B × StreamNext) (again : Streaming B → Streaming B × StreamStop)
        → StreamFine biller billed lawful st paid tried
        → ((s : Streaming B) → MayPay s → StreamEndsFine (again s))
        → StreamEndsFine (follow_stream biller st tried again)
    follow_stream-EndsFine (s, StreamNext.continues) again fine later = later s fine
    follow_stream-EndsFine (s, StreamNext.returns none) again fine later = fine
    follow_stream-EndsFine (s, StreamNext.returns (some e)) again fine later = tt

    stream_loop-EndsFine :
        (fuel : ℕ) (candidates : List Channel) (s : Streaming B)
        → MayPay s
        → StreamEndsFine (stream_loop biller st intn fuel candidates s)
    unfolding stream_loop
    stream_loop-EndsFine zero candidates s none_free = tt
    stream_loop-EndsFine (suc fuel) candidates s none_free =
        elim (Bool-cases (ltb (length s.progress.attempted) (length candidates))) [
          | inr full ↦ rw full tt
          | inl room ↦
              elim (Option-cases (pick_weighted_channel intn candidates s.progress.attempted)) [
                | inl nothing ↦ rw (room, nothing) tt
                | inr (c, picked) ↦
                    rw (room, picked)
                      (follow_stream-EndsFine (try_stream biller st s c)
                        (λ tried. stream_loop biller st intn fuel candidates tried)
                        (try_stream-StreamFine s c none_free)
                        (stream_loop-EndsFine fuel candidates))
              ]
        ]

    end_stream_loop-IsBilled :
        (ended : Streaming B × StreamStop)
        → StreamEndsFine ended
        → (end_stream_loop biller st intn ended).1 ≡ none
        → IsBilled biller billed lawful st.line (end_stream_loop biller st intn ended).0.progress
    unfolding end_stream_loop give_up_stream
    end_stream_loop-IsBilled (s, StreamStop.returned none) fine h = fine
    end_stream_loop-IsBilled (s, StreamStop.returned (some e)) fine h = cc
    end_stream_loop-IsBilled (s, StreamStop.leaves) fine h = cc
    end_stream_loop-IsBilled (s, StreamStop.out_of_fuel) fine h = cc

    -- Let the billing service be lawful, which says that after a settlement or a mark that succeeds
    -- the reservation is settled or awaits its settlement. Where a paid request of
    -- `StreamChatCompletions` returns without an error, its reservation was made and is settled or
    -- awaits its settlement in the store that is left: whichever attempts and channels failed before
    -- and whatever usage the events of the stream reported.
    pub relay_stream-IsBilled :
        (candidates : List Channel) (b : B)
        → (relay_stream biller st intn candidates b).1 ≡ none
        → IsBilled biller billed lawful st.line
            (relay_stream biller st intn candidates b).0.progress
    unfolding relay_stream
    relay_stream-IsBilled candidates b h =
        let start : Streaming B = record {
          progress = nothing_tried biller st.line intn b;
          sent = [];
        } in
        end_stream_loop-IsBilled
          (stream_loop biller st intn (suc (length candidates)) candidates start)
          (stream_loop-EndsFine (suc (length candidates)) candidates start refl) h
