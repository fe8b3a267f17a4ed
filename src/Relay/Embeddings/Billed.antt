-- ===== src/Relay/Embeddings/Billed.antt =====
-- No paid call of `CreateEmbeddings` in internal/relay/advanced.go returns an answer that is not
-- billed.
use Prim.Native.String.{String}
use model_bridge.Base.{
  ℕ, zero, suc, ◌≡◌, refl, List, ◌∷◌, Bool, true, false, ◌||◌, not, ltb, if◌then◌else◌, none, some,
  is_some, inl, inr, Bool-cases, Option-cases, length,
}
use model_bridge.Base.Int.{is_positive}
use model_bridge.Base.Results.{Result, ok, err, Result-cases}
use model_bridge.Relay.Channels.{Channel, channel_key, pick_weighted_channel}
use model_bridge.Relay.Errors.{RelayError, retryable_upstream_error}
use model_bridge.Relay.Health.{HealthEvent, canonical_provider, record_channel_success}
use model_bridge.Relay.Biller.{Biller, IsLawful}
use model_bridge.Relay.Answers.{Billing, mark_relay_billing_pending, complete_relay_billing}
use model_bridge.Relay.Attempts.{Progress, may_settle, is_unpriced, no_usage}
use model_bridge.Relay.Chat.{nothing_tried}
use model_bridge.Relay.Kept.{Kept, complete_relay_billing-Kept, mark_relay_billing_pending-Kept}
use model_bridge.Relay.Paid.{IsBilled}
use model_bridge.Relay.Embeddings.Defs.{
  EmbeddingResponse, EmbeddingLine, EmbeddingNext, EmbeddingStop, with_embedding_defaults,
  with_embedding_total, embedding_usage, billed_embedding, complete_embedding,
  settle_unreported_embedding, bill_embedding, call_embedder, bind_embedding, reserve_embedding,
  admit_embedding, try_embedding, follow_embedding, embedding_loop, give_up_embedding,
  end_embedding_loop, relay_embeddings,
}

module _ {B : Type 0} (biller : Biller B) (billed : ℕ → B → Type 0)
    (lawful : IsLawful biller billed) (el : EmbeddingLine)
    (paid : el.line.billing_enabled ≡ true) where
  -- An answer that is returned is billed, and a call that goes on is still a paid one.
  abbrev EmbeddingFine : Progress B × EmbeddingNext → Type 0
  EmbeddingFine (a, EmbeddingNext.continues) = a.booking.free ≡ none
  EmbeddingFine (a, EmbeddingNext.stops) = Unit
  EmbeddingFine (a, EmbeddingNext.returns (ok r)) = IsBilled biller billed lawful el.line a
  EmbeddingFine (a, EmbeddingNext.returns (err e)) = Unit

  fine_if :
      (test : Bool) (x y : Progress B × EmbeddingNext)
      → (test ≡ true → EmbeddingFine x)
      → (test ≡ false → EmbeddingFine y)
      → EmbeddingFine (if test then x else y)
  fine_if true x y h k = h refl
  fine_if false x y h k = k refl

  if_paid :
      (x y : Progress B × EmbeddingNext)
      → EmbeddingFine x
      → EmbeddingFine (if el.line.billing_enabled then x else y)
  if_paid x y h = fine_if el.line.billing_enabled x y (λ holds. h) (λ fails. cc (paid, fails))

  -- The reservation of the call.
  abbrev Holds : ℕ → Progress B → Type 0
  Holds id a = (a.booking.reservation ≡ some id) × (a.booking.free ≡ none)

  module _ (id : ℕ) where
    either-Kept :
        (test : Bool) (x y : Billing B)
        → Kept biller billed lawful id x
        → Kept biller billed lawful id y
        → Kept biller billed lawful id (if test then x else y)
    either-Kept true x y h k = h
    either-Kept false x y h k = k

    billed_embedding-EmbeddingFine :
        (a : Progress B) (health : List HealthEvent) (r : EmbeddingResponse) (done : Billing B)
        → Holds id a
        → Kept biller billed lawful id done
        → EmbeddingFine (billed_embedding biller el a health r done)
    unfolding billed_embedding
    billed_embedding-EmbeddingFine a health r (ok u, b) held k = (id, held.0, k)
    billed_embedding-EmbeddingFine a health r (err e, b) held k = tt

    complete_embedding-EmbeddingFine :
        (a : Progress B) (c : Channel) (r : EmbeddingResponse) (source : String)
        → Holds id a
        → EmbeddingFine (complete_embedding biller el a c r source)
    unfolding complete_embedding
    complete_embedding-EmbeddingFine a c r source held =
        let answer = with_embedding_total r in
        billed_embedding-EmbeddingFine a (record_channel_success c a.health) answer
          (complete_relay_billing biller a.booking (embedding_usage answer) c source a.store) held
          (complete_relay_billing-Kept biller billed lawful id a.booking (embedding_usage answer) c
            source a.store held.0)

    settle_unreported_embedding-EmbeddingFine :
        (a : Progress B) (c : Channel) (r : EmbeddingResponse)
        → Holds id a
        → EmbeddingFine (settle_unreported_embedding biller el a c r)
    unfolding settle_unreported_embedding
    settle_unreported_embedding-EmbeddingFine a c r held =
        let settled = complete_relay_billing biller a.booking no_usage c "upstream" a.store in
        let marked =
          mark_relay_billing_pending biller a.booking "upstream_embedding_usage_unavailable"
            a.store in
        elim (Result-cases (may_settle biller el.line a)) [
          | inr (e, f) ↦ rw (f, settle_unreported_embedding) tt
          | inl (may, f) ↦
              rw (f, settle_unreported_embedding)
                (billed_embedding-EmbeddingFine a (record_channel_success c a.health) r
                  (if may then settled else marked) held
                  (either-Kept may settled marked
                    (complete_relay_billing-Kept biller billed lawful id a.booking no_usage c
                      "upstream" a.store held.0)
                    (mark_relay_billing_pending-Kept biller billed lawful id a.booking
                      "upstream_embedding_usage_unavailable" a.store held.0)))
        ]

    bill_embedding-EmbeddingFine :
        (a : Progress B) (c : Channel) (r : EmbeddingResponse)
        → Holds id a
        → EmbeddingFine (bill_embedding biller el a c r)
    unfolding bill_embedding
    bill_embedding-EmbeddingFine a c r held =
        fine_if (is_positive r.prompt_tokens) _ _
          (λ reported. complete_embedding-EmbeddingFine a c r "upstream" held)
          (λ absent. if_paid _ _ (settle_unreported_embedding-EmbeddingFine a c r held))

    call_embedder-EmbeddingFine :
        (a : Progress B) (c : Channel) (answer : Result RelayError EmbeddingResponse)
        → Holds id a
        → EmbeddingFine (call_embedder biller el a c answer)
    unfolding call_embedder
    call_embedder-EmbeddingFine a c (err e) held =
        fine_if (el.line.cancelled c || not (retryable_upstream_error e)) _ _ (λ over. tt)
          (λ more. held.1)
    call_embedder-EmbeddingFine a c (ok r) held =
        bill_embedding-EmbeddingFine a c (with_embedding_defaults el.line r) held

    bind_embedding-EmbeddingFine :
        (a : Progress B) (c : Channel) (answer : Result RelayError EmbeddingResponse)
        → Holds id a
        → EmbeddingFine (bind_embedding biller el a c answer)
    unfolding bind_embedding
    bind_embedding-EmbeddingFine a c answer held =
        elim (Result-cases (biller.rebind id c a.store)) [
          | inl ((done, bound), e) ↦
              rw (held.0, e, bind_embedding)
                (call_embedder-EmbeddingFine (record a { store = bound }) c answer held)
          | inr (e, f) ↦
              rw (held.0, f, bind_embedding)
                (fine_if (is_unpriced e) _ _ (λ unpriced. held.1) (λ priced. tt))
        ]

  reserve_embedding-EmbeddingFine :
      (a : Progress B) (c : Channel) (answer : Result RelayError EmbeddingResponse)
      → a.booking.free ≡ none
      → EmbeddingFine (reserve_embedding biller el a c answer)
  unfolding reserve_embedding
  reserve_embedding-EmbeddingFine a c answer none_free =
      elim (Result-cases (biller.reserve c a.store)) [
        | inl ((id, held), e) ↦
            rw (e, reserve_embedding)
              (bind_embedding-EmbeddingFine id
                (record a { booking = record a.booking { reservation = some id }; store = held }) c
                answer (refl, none_free))
        | inr (e, f) ↦
            rw (f, reserve_embedding)
              (fine_if (is_unpriced e) _ _ (λ unpriced. none_free) (λ priced. tt))
      ]

  neither :
      (a : Progress B)
      → a.booking.reservation ≡ none
      → a.booking.free ≡ none
      → (is_some a.booking.reservation || is_some a.booking.free) ≡ true
      → ⊥
  neither a nothing none_free holds = cc (rw (nothing, none_free) at holds)

  admit_embedding-EmbeddingFine :
      (a : Progress B) (c : Channel) (answer : Result RelayError EmbeddingResponse)
      → a.booking.free ≡ none
      → EmbeddingFine (admit_embedding biller el a c answer)
  unfolding admit_embedding
  admit_embedding-EmbeddingFine a c answer none_free =
      fine_if (is_some a.booking.reservation || is_some a.booking.free) _ _
        (λ holds. elim (Option-cases a.booking.reservation) [
          | inr (id, held) ↦ bind_embedding-EmbeddingFine id a c answer (held, none_free)
          | inl nothing ↦ absurd (neither a nothing none_free holds)
        ])
        (λ fails. if_paid _ _ (reserve_embedding-EmbeddingFine a c answer none_free))

  try_embedding-EmbeddingFine :
      (a : Progress B) (c : Channel)
      → a.booking.free ≡ none
      → EmbeddingFine (try_embedding biller el a c)
  unfolding try_embedding
  try_embedding-EmbeddingFine a c none_free =
      elim (Option-cases (el.embedder (canonical_provider c.provider))) [
        | inl unsupported ↦ rw (unsupported, try_embedding) none_free
        | inr (call, f) ↦ elim (Result-cases (el.line.resolve c.credential_ref)) [
          | inr (e, g) ↦ rw (f, g, try_embedding) none_free
          | inl (key, g) ↦
              rw (f, g, try_embedding)
                (admit_embedding-EmbeddingFine
                  (record a { attempted = channel_key c ∷ a.attempted }) c (call c key) none_free)
        ]
      ]

  abbrev EmbeddingEndsFine : Progress B × EmbeddingStop → Type 0
  EmbeddingEndsFine (a, EmbeddingStop.returned (ok r)) = IsBilled biller billed lawful el.line a
  EmbeddingEndsFine (a, EmbeddingStop.returned (err e)) = Unit
  EmbeddingEndsFine (a, EmbeddingStop.leaves) = Unit
  EmbeddingEndsFine (a, EmbeddingStop.out_of_fuel) = Unit

  module _ (intn : ℕ → ℕ) where
    follow_embedding-EndsFine :
        (tried : Progress B × EmbeddingNext) (again : Progress B → Progress B × EmbeddingStop)
        → EmbeddingFine tried
        → ((a : Progress B) → a.booking.free ≡ none → EmbeddingEndsFine (again a))
        → EmbeddingEndsFine (follow_embedding biller el tried again)
    follow_embedding-EndsFine (a, EmbeddingNext.continues) again fine later = later a fine
    follow_embedding-EndsFine (a, EmbeddingNext.stops) again fine later = tt
    follow_embedding-EndsFine (a, EmbeddingNext.returns (ok r)) again fine later = fine
    follow_embedding-EndsFine (a, EmbeddingNext.returns (err e)) again fine later = tt

    embedding_loop-EndsFine :
        (fuel : ℕ) (candidates : List Channel) (a : Progress B)
        → a.booking.free ≡ none
        → EmbeddingEndsFine (embedding_loop biller el intn fuel candidates a)
    unfolding embedding_loop
    embedding_loop-EndsFine zero candidates a none_free = tt
    embedding_loop-EndsFine (suc fuel) candidates a none_free =
        elim (Bool-cases (ltb (length a.attempted) (length candidates))) [
          | inr full ↦ rw full tt
          | inl room ↦ elim (Option-cases (pick_weighted_channel intn candidates a.attempted)) [
            | inl nothing ↦ rw (room, nothing) tt
            | inr (c, picked) ↦
                rw (room, picked)
                  (follow_embedding-EndsFine (try_embedding biller el a c)
                    (λ tried. embedding_loop biller el intn fuel candidates tried)
                    (try_embedding-EmbeddingFine a c none_free)
                    (embedding_loop-EndsFine fuel candidates))
          ]
        ]

    end_embedding_loop-IsBilled :
        (ended : Progress B × EmbeddingStop) (r : EmbeddingResponse)
        → EmbeddingEndsFine ended
        → (end_embedding_loop biller el intn ended).1 ≡ ok r
        → IsBilled biller billed lawful el.line (end_embedding_loop biller el intn ended).0
    unfolding end_embedding_loop give_up_embedding
    end_embedding_loop-IsBilled (a, EmbeddingStop.returned (ok answer)) r fine h = fine
    end_embedding_loop-IsBilled (a, EmbeddingStop.returned (err e)) r fine h = cc
    end_embedding_loop-IsBilled (a, EmbeddingStop.leaves) r fine h = cc
    end_embedding_loop-IsBilled (a, EmbeddingStop.out_of_fuel) r fine h = cc

    -- Let the billing service be lawful, which says that after a settlement or a mark that succeeds
    -- the reservation is settled or awaits its settlement. Where a paid request of
    -- `CreateEmbeddings` returns an answer, its reservation was made and is settled or awaits its
    -- settlement in the store that is left.
    pub relay_embeddings-IsBilled :
        (candidates : List Channel) (b : B) (r : EmbeddingResponse)
        → (relay_embeddings biller el intn candidates b).1 ≡ ok r
        → IsBilled biller billed lawful el.line (relay_embeddings biller el intn candidates b).0
    unfolding relay_embeddings
    relay_embeddings-IsBilled candidates b r h =
        end_embedding_loop-IsBilled
          (embedding_loop biller el intn (suc (length candidates)) candidates
            (nothing_tried biller el.line intn b))
          r
          (embedding_loop-EndsFine (suc (length candidates)) candidates
            (nothing_tried biller el.line intn b) refl)
          h
