-- ===== src/Relay/Untracked.antt =====
-- No paid call of `ChatCompletions` in internal/relay/types.go returns an answer that is not billed.
use model_bridge.Base.{
  ℕ, zero, suc, ◌≡◌, refl, true, none, some, inl, inr, List, ◌∷◌, Bool-cases, Option-cases, ◌||◌,
  not, ltb, length,
}
use model_bridge.Base.Results.{Result, ok, err, Result-cases}
use model_bridge.Relay.Channels.{Channel, channel_key, pick_weighted_channel}
use model_bridge.Relay.Errors.{RelayError, retryable_upstream_error}
use model_bridge.Relay.Biller.{Biller, IsLawful}
use model_bridge.Relay.Answers.{ChatResponse}
use model_bridge.Relay.Health.{canonical_provider, record_channel_success}
use model_bridge.Relay.Attempts.{
  Line, Progress, Next, is_unpriced, call_upstream, bind, reserve_first, admit, try_channel,
  with_defaults,
}
use model_bridge.Relay.Chat.{
  Stop, follow, chat_loop, give_up_free, give_up, end_loop, relay_chat, nothing_tried,
}
use model_bridge.Relay.Paid.{IsBilled, Fine, then-Fine, bill_answer-Fine}

module _ {B : Type 0} (biller : Biller B) (billed : ℕ → B → Type 0)
    (lawful : IsLawful biller billed) (line : Line) (paid : line.billing_enabled ≡ true) where
  call_upstream-Fine :
      (id : ℕ) (a : Progress B) (c : Channel) (answer : Result RelayError ChatResponse)
      → a.booking.reservation ≡ some id
      → Fine biller billed lawful line (call_upstream biller line a c answer)
  unfolding call_upstream
  call_upstream-Fine id a c (err e) held =
      elim (Bool-cases (line.cancelled c || not (retryable_upstream_error e))) [
        | inl over ↦ rw over tt
        | inr more ↦ rw more tt
      ]
  call_upstream-Fine id a c (ok r) held =
      bill_answer-Fine biller billed lawful line id
        (record a { health = record_channel_success c a.health }) held c (with_defaults line r) paid

  bind-Fine :
      (id : ℕ) (a : Progress B) (c : Channel) (answer : Result RelayError ChatResponse)
      → a.booking.reservation ≡ some id
      → Fine biller billed lawful line (bind biller line a c answer)
  unfolding bind
  bind-Fine id a c answer held = elim (Result-cases (biller.rebind id c a.store)) [
    | inl ((done, bound), e) ↦
        rw (held, e, bind) (call_upstream-Fine id (record a { store = bound }) c answer held)
    | inr (e, f) ↦ elim (Bool-cases (is_unpriced e)) [
      | inl unpriced ↦ rw (held, f, unpriced, bind) tt
      | inr priced ↦ rw (held, f, priced, bind) tt
    ]
  ]

  reserve_first-Fine :
      (a : Progress B) (c : Channel) (answer : Result RelayError ChatResponse)
      → Fine biller billed lawful line (reserve_first biller line a c answer)
  unfolding reserve_first
  reserve_first-Fine a c answer = elim (Result-cases (biller.reserve c a.store)) [
    | inl ((id, held), e) ↦
        rw (e, reserve_first)
          (bind-Fine id
            (record a { booking = record a.booking { reservation = some id }; store = held }) c
            answer refl)
    | inr (e, f) ↦ elim (Bool-cases (is_unpriced e)) [
      | inl unpriced ↦ rw (f, unpriced, reserve_first) tt
      | inr priced ↦ rw (f, priced, reserve_first) tt
    ]
  ]

  admit-Fine :
      (a : Progress B) (c : Channel) (answer : Result RelayError ChatResponse)
      → Fine biller billed lawful line (admit biller line a c answer)
  unfolding admit
  admit-Fine a c answer =
      then-Fine biller billed lawful line _ _ _ paid (elim (Option-cases a.booking.reservation) [
        | inl none_held ↦ rw none_held (
            reserve_first-Fine (record a { booking = record a.booking { reservation = none } }) c
              answer)
        | inr (id, held) ↦ rw held (
            bind-Fine id (record a { booking = record a.booking { reservation = some id } }) c
              answer refl)
      ])

  try_channel-Fine :
      (a : Progress B) (c : Channel) → Fine biller billed lawful line (try_channel biller line a c)
  unfolding try_channel
  try_channel-Fine a c = elim (Option-cases (line.provider (canonical_provider c.provider))) [
    | inl unsupported ↦ rw (unsupported, try_channel) tt
    | inr (call, f) ↦ elim (Result-cases (line.resolve c.credential_ref)) [
      | inl (key, g) ↦
          rw (f, g, try_channel)
            (admit-Fine (record a { attempted = channel_key c ∷ a.attempted }) c (call c key))
      | inr (e, g) ↦ rw (f, g, try_channel) tt
    ]
  ]

  -- What the loop returns is billed.
  abbrev EndsFine : Progress B × Stop → Type 0
  EndsFine (a, Stop.returned r) = Fine biller billed lawful line (a, Next.returns r)
  EndsFine (a, Stop.leaves) = Unit
  EndsFine (a, Stop.out_of_fuel) = Unit

  module _ (intn : ℕ → ℕ) where
    follow-EndsFine :
        (tried : Progress B × Next) (again : Progress B → Progress B × Stop)
        → Fine biller billed lawful line tried
        → ((a : Progress B) → EndsFine (again a))
        → EndsFine (follow biller line intn tried again)
    follow-EndsFine (a, Next.continues) again fine later = later a
    follow-EndsFine (a, Next.stops) again fine later = tt
    follow-EndsFine (a, Next.returns (ok r)) again fine later = fine
    follow-EndsFine (a, Next.returns (err e)) again fine later = tt

    chat_loop-EndsFine :
        (fuel : ℕ) (candidates : List Channel) (a : Progress B)
        → EndsFine (chat_loop biller line intn fuel candidates a)
    unfolding chat_loop
    chat_loop-EndsFine zero candidates a = tt
    chat_loop-EndsFine (suc fuel) candidates a =
        elim (Bool-cases (ltb (length a.attempted) (length candidates))) [
          | inr full ↦ rw full tt
          | inl room ↦ elim (Option-cases (pick_weighted_channel intn candidates a.attempted)) [
            | inl nothing ↦ rw (room, nothing) tt
            | inr (c, picked) ↦
                rw (room, picked)
                  (follow-EndsFine (try_channel biller line a c)
                    (λ tried. chat_loop biller line intn fuel candidates tried)
                    (try_channel-Fine a c) (chat_loop-EndsFine fuel candidates))
          ]
        ]

    give_up_free-refuses :
        (a : Progress B) (r : ChatResponse) → (give_up_free biller line intn a).1 ≡ ok r → ⊥
    unfolding give_up_free
    give_up_free-refuses a r h = elim (Option-cases a.booking.free) [
      | inl no_record ↦ cc (rw no_record at h)
      | inr (id, kept) ↦
          elim (Result-cases (biller.fail_free id "upstream_request_failed" a.store)) [
            | inl (done, e) ↦ cc (rw (kept, e, give_up_free) at h)
            | inr (e, f) ↦ cc (rw (kept, f, give_up_free) at h)
          ]
    ]

    give_up-refuses :
        (a : Progress B) (r : ChatResponse) → (give_up biller line intn a).1 ≡ ok r → ⊥
    unfolding give_up
    give_up-refuses a r h = elim (Option-cases a.booking.reservation) [
      | inl nothing ↦ give_up_free-refuses a r (rw (nothing, give_up) at h)
      | inr (id, held) ↦ elim (Result-cases (biller.fail id "upstream_request_failed" a.store)) [
        | inl ((done, b'), e) ↦ give_up_free-refuses _ r (rw (held, e, give_up) at h)
        | inr (e, f) ↦ cc (rw (held, f, give_up) at h)
      ]
    ]

    end_loop-IsBilled :
        (ended : Progress B × Stop) (r : ChatResponse)
        → EndsFine ended
        → (end_loop biller line intn ended).1 ≡ ok r
        → IsBilled biller billed lawful line (end_loop biller line intn ended).0
    unfolding end_loop
    end_loop-IsBilled (a, Stop.returned (ok answer)) r fine h = fine
    end_loop-IsBilled (a, Stop.returned (err e)) r fine h = cc
    end_loop-IsBilled (a, Stop.leaves) r fine h = absurd (give_up-refuses a r h)
    end_loop-IsBilled (a, Stop.out_of_fuel) r fine h = absurd (give_up-refuses a r h)

    -- Let the billing service be lawful, which says that after a settlement or a mark that succeeds
    -- the reservation is settled or awaits its settlement. Where a paid request of `ChatCompletions`
    -- returns an answer, then a reservation was made and it is settled or awaits its settlement in the
    -- store that is left: whichever channels failed before, whatever usage the upstream reported, and
    -- whichever writes of the billing service failed.
    pub relay_chat-IsBilled :
        (candidates : List Channel) (b : B) (r : ChatResponse)
        → (relay_chat biller line intn candidates b).1 ≡ ok r
        → IsBilled biller billed lawful line (relay_chat biller line intn candidates b).0
    unfolding relay_chat
    relay_chat-IsBilled candidates b r h =
        end_loop-IsBilled
          (chat_loop biller line intn (suc (length candidates)) candidates
            (nothing_tried biller line intn b))
          r
          (chat_loop-EndsFine (suc (length candidates)) candidates
            (nothing_tried biller line intn b))
          h
