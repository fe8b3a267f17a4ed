-- ===== src/Relay/Embeddings/Defs.antt =====
-- `CreateEmbeddings` of internal/relay/advanced.go.
use Prim.Native.String.{String}
use model_bridge.Base.{
  ℕ, zero, suc, List, ◌∷◌, Bool, ◌&&◌, ◌||◌, not, ltb, if◌then◌else◌, Option, none, some, is_some,
  or_else, length,
}
use model_bridge.Base.Int.{ℤ, pos, is_positive}
use model_bridge.Base.Texts.{str_eq, trim_space}
use model_bridge.Base.Results.{Result, ok, err, ◌>>=◌, ◌>>◌, guard, or_error}
use model_bridge.Relay.Channels.{Channel, channel_key, pick_weighted_channel}
use model_bridge.Relay.Errors.{RelayError, retryable_upstream_error}
use model_bridge.Relay.Health.{
  HealthEvent, canonical_provider, record_channel_failure, record_channel_success,
}
use model_bridge.Relay.Reports.{ChatUsage}
use model_bridge.Relay.Biller.{Biller}
use model_bridge.Relay.Answers.{
  Billing, fail_relay_billing, mark_relay_billing_pending, complete_relay_billing,
}
use model_bridge.Relay.Attempts.{Line, Progress, is_unpriced, no_usage, may_settle}
use model_bridge.Relay.Chat.{
  Gate, Principal, model_allowed, resolve_group_policy, within_rpm, nothing_tried,
}

-- `EmbeddingResponse`, without the embeddings themselves.
pub record EmbeddingResponse : Type 0 where
  pub object : String
  pub model : String
  pub prompt_tokens : ℤ
  pub total_tokens : ℤ

-- A line with the providers that embed. Its estimate of the input is `estimateEmbeddingTokens`.
pub record EmbeddingLine : Type 0 where
  pub line : Line
  pub embedder : String → Option (Channel → String → Result RelayError EmbeddingResponse)

pub data EmbeddingNext : Type 0 where
  continues stops : EmbeddingNext
  returns : Result RelayError EmbeddingResponse → EmbeddingNext

pub data EmbeddingStop : Type 0 where
  out_of_fuel leaves : EmbeddingStop
  returned : Result RelayError EmbeddingResponse → EmbeddingStop

unfoldable pub with_embedding_defaults : Line → EmbeddingResponse → EmbeddingResponse
with_embedding_defaults line r = record r {
  model = if str_eq r.model "" then line.model else r.model;
  object = if str_eq r.object "" then "list" else r.object;
}

unfoldable pub with_embedding_total : EmbeddingResponse → EmbeddingResponse
with_embedding_total r = record r {
  total_tokens = if is_positive r.total_tokens then r.total_tokens else r.prompt_tokens;
}

unfoldable pub embedding_usage : EmbeddingResponse → ChatUsage
embedding_usage r = record no_usage {
  prompt_tokens = r.prompt_tokens;
  total_tokens = r.total_tokens;
}

module _ {B : Type 0} (biller : Biller B) (el : EmbeddingLine) where
  unfoldable pub billed_embedding :
      Progress B → List HealthEvent → EmbeddingResponse → Billing B → Progress B × EmbeddingNext
  billed_embedding a health r (ok done, b) =
      (record a { health = health; store = b }, EmbeddingNext.returns (ok r))
  billed_embedding a health r (err e, b) =
      (record a { store = b }, EmbeddingNext.returns (err (RelayError.billing e)))

  unfoldable pub complete_embedding :
      Progress B → Channel → EmbeddingResponse → String → Progress B × EmbeddingNext
  complete_embedding a c r source =
      let answer = with_embedding_total r in
      billed_embedding a (record_channel_success c a.health) answer
        (complete_relay_billing biller a.booking (embedding_usage answer) c source a.store)

  -- A paid answer without usage.
  unfoldable pub settle_unreported_embedding :
      Progress B → Channel → EmbeddingResponse → Progress B × EmbeddingNext
  settle_unreported_embedding a c r = elim (may_settle biller el.line a) [
    | err e ↦ (a, EmbeddingNext.returns (err (RelayError.billing e)))
    | ok may ↦ billed_embedding a (record_channel_success c a.health) r (
        if may
        then complete_relay_billing biller a.booking no_usage c "upstream" a.store
        else mark_relay_billing_pending biller a.booking "upstream_embedding_usage_unavailable"
            a.store)
  ]

  unfoldable pub bill_embedding :
      Progress B → Channel → EmbeddingResponse → Progress B × EmbeddingNext
  bill_embedding a c r =
      if is_positive r.prompt_tokens
      then complete_embedding a c r "upstream"
      else if el.line.billing_enabled
      then settle_unreported_embedding a c r
      else complete_embedding a c (record r { prompt_tokens = pos el.line.estimated_input })
          "local_estimate"

  unfoldable pub call_embedder :
      Progress B → Channel → Result RelayError EmbeddingResponse → Progress B × EmbeddingNext
  call_embedder a c (err e) =
      let failed = record a { last_error = some e; health = record_channel_failure c e a.health } in
      if el.line.cancelled c || not (retryable_upstream_error e)
      then (failed, EmbeddingNext.stops)
      else (failed, EmbeddingNext.continues)
  call_embedder a c (ok r) = bill_embedding a c (with_embedding_defaults el.line r)

  unfoldable pub bind_embedding :
      Progress B → Channel → Result RelayError EmbeddingResponse → Progress B × EmbeddingNext
  bind_embedding a c answer = elim a.booking.reservation [
    | none ↦ call_embedder a c answer
    | some id ↦ elim (biller.rebind id c a.store) [
      | ok done ↦ call_embedder (record a { store = done.1 }) c answer
      | err e ↦
          let failed = record a { last_error = some (RelayError.billing e) } in
          if is_unpriced e then (failed, EmbeddingNext.continues) else (
            record failed {
              store = fail_relay_billing biller a.booking "billing_channel_bind_failed" a.store;
            },
            EmbeddingNext.returns (err (RelayError.billing e)),
          )
    ]
  ]

  unfoldable pub reserve_embedding :
      Progress B → Channel → Result RelayError EmbeddingResponse → Progress B × EmbeddingNext
  reserve_embedding a c answer = elim (biller.reserve c a.store) [
    | err e ↦
        if is_unpriced e
        then (record a { last_error = some (RelayError.billing e) }, EmbeddingNext.continues)
        else (a, EmbeddingNext.returns (err (RelayError.billing e)))
    | ok held ↦
        bind_embedding
          (record a { booking = record a.booking { reservation = some held.0 }; store = held.1 }) c
          answer
  ]

  unfoldable pub start_free_embedding :
      Progress B → Channel → Result RelayError EmbeddingResponse → Progress B × EmbeddingNext
  start_free_embedding a c answer = elim (biller.start_free c a.store) [
    | err e ↦ (a, EmbeddingNext.returns (err (RelayError.billing e)))
    | ok started ↦
        bind_embedding
          (record a { booking = record a.booking { free = some started.0 }; store = started.1 }) c
          answer
  ]

  unfoldable pub admit_embedding :
      Progress B → Channel → Result RelayError EmbeddingResponse → Progress B × EmbeddingNext
  admit_embedding a c answer =
      if is_some a.booking.reservation || is_some a.booking.free
      then bind_embedding a c answer
      else if el.line.billing_enabled
      then reserve_embedding a c answer
      else if el.line.records_free
      then start_free_embedding a c answer
      else bind_embedding a c answer

  -- The body of the loop, for the channel that was picked.
  unfoldable pub try_embedding : Progress B → Channel → Progress B × EmbeddingNext
  try_embedding a0 c =
      let a = record a0 { attempted = channel_key c ∷ a0.attempted } in
      elim (el.embedder (canonical_provider c.provider)) [
        | none ↦ (
          record a { last_error = some RelayError.provider_unsupported },
          EmbeddingNext.continues,
        )
        | some call ↦ elim (el.line.resolve c.credential_ref) [
          | err e ↦ (
            record a { last_error = some e; health = record_channel_failure c e a.health },
            EmbeddingNext.continues,
          )
          | ok key ↦ admit_embedding a c (call c key)
        ]
      ]

  abbrev pub follow_embedding :
      Progress B × EmbeddingNext
      → (Progress B → Progress B × EmbeddingStop)
      → Progress B × EmbeddingStop
  follow_embedding (a, EmbeddingNext.continues) again = again a
  follow_embedding (a, EmbeddingNext.stops) again = (a, EmbeddingStop.leaves)
  follow_embedding (a, EmbeddingNext.returns r) again = (a, EmbeddingStop.returned r)

  module _ (intn : ℕ → ℕ) where
    unfoldable pub embedding_loop : ℕ → List Channel → Progress B → Progress B × EmbeddingStop
    embedding_loop zero candidates a = (a, EmbeddingStop.out_of_fuel)
    embedding_loop (suc fuel) candidates a =
        if not (ltb (length a.attempted) (length candidates))
        then (a, EmbeddingStop.leaves)
        else elim (pick_weighted_channel intn candidates a.attempted) [
          | none ↦ (a, EmbeddingStop.leaves)
          | some c ↦
              follow_embedding (try_embedding a c) (λ tried. embedding_loop fuel candidates tried)
        ]

    -- What follows the loop; an error of the release is dropped.
    unfoldable pub give_up_embedding : Progress B → Progress B × Result RelayError EmbeddingResponse
    give_up_embedding a = (
      record a { store = fail_relay_billing biller a.booking "upstream_embedding_failed" a.store },
      err (or_else a.last_error RelayError.provider_unsupported),
    )

    unfoldable pub end_embedding_loop :
        Progress B × EmbeddingStop → Progress B × Result RelayError EmbeddingResponse
    end_embedding_loop (a, EmbeddingStop.returned r) = (a, r)
    end_embedding_loop (a, EmbeddingStop.leaves) = give_up_embedding a
    end_embedding_loop (a, EmbeddingStop.out_of_fuel) = give_up_embedding a

    -- `CreateEmbeddings` once it is admitted.
    unfoldable pub relay_embeddings :
        List Channel → B → Progress B × Result RelayError EmbeddingResponse
    relay_embeddings candidates b =
        end_embedding_loop (
          embedding_loop (suc (length candidates)) candidates (nothing_tried biller el.line intn b))

-- The checks of `CreateEmbeddings` before the loop.
unfoldable pub admitted_embeddings :
    Gate → Option Principal → String → Result RelayError (List Channel × Bool)
admitted_embeddings gate principal model = do
  valid ← gate.validate
  guard (model_allowed principal model) RelayError.model_not_allowed
  p ← or_error principal RelayError.model_not_allowed
  limited ← (if str_eq p.token_id "" then ok tt else gate.acquire_token p.token_id)
  policy ← resolve_group_policy gate p
  guard (str_eq (trim_space p.tenant_id) "" || gate.has_billing) RelayError.billing_unavailable
  consumed ← within_rpm gate policy
  candidates ← gate.candidates
  guard (ltb 0 (length candidates)) RelayError.model_not_found
  ok (candidates, gate.has_billing && not (str_eq policy.billing_type "free"))

-- `CreateEmbeddings`
unfoldable pub create_embeddings :
    {B : Type 0}
    → Biller B
    → EmbeddingLine
    → (ℕ → ℕ)
    → Gate
    → Option Principal
    → B
    → Progress B × Result RelayError EmbeddingResponse
create_embeddings biller el intn gate principal b =
    elim (admitted_embeddings gate principal el.line.model) [
      | err e ↦ (nothing_tried biller el.line intn b, err e)
      | ok entry ↦
          relay_embeddings biller
            (record el { line = record el.line { billing_enabled = entry.1 } }) intn entry.0 b
    ]
