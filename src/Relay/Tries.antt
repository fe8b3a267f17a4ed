-- ===== src/Relay/Tries.antt =====
-- An attempt of internal/relay/types.go is noted once, whatever comes of it.
use Prim.Native.String.{String}
use model_bridge.Base.{
  ◌≡◌, refl, Bool, true, false, some, inl, inr, List, ◌∷◌, Bool-cases, Option-cases, not,
  if◌then◌else◌,
}
use model_bridge.Base.Results.{Result, ok, err, Result-cases}
use model_bridge.Relay.Channels.{Channel, channel_key}
use model_bridge.Relay.Errors.{RelayError}
use model_bridge.Relay.Reports.{ChatUsage, chat_usage_has_values, chat_usage_is_complete}
use model_bridge.Relay.Biller.{Biller}
use model_bridge.Relay.Answers.{ChatResponse, Billing, chat_response_has_output}
use model_bridge.Relay.Health.{HealthEvent, canonical_provider, record_channel_success}
use model_bridge.Relay.Attempts.{
  Line, Progress, Next, is_unpriced, billed_answer, complete, refuse, may_settle, settle_unreported,
  bill_answer, call_upstream, bind, reserve_first, start_free_first, admit, try_channel,
  with_defaults, estimated_usage, completed_usage,
}

module _ {B : Type 0} (biller : Biller B) (line : Line) where
  Notes : List String → Progress B × Next → Type 0
  Notes keys tried = tried.0.attempted ≡ keys

  noted :
      (keys : List String) (tried : Progress B × Next) → tried.0.attempted ≡ keys → Notes keys tried
  unfolding Notes
  noted keys tried h = h

  either_way :
      (keys : List String) (test : Bool) (x y : Progress B × Next)
      → Notes keys x
      → Notes keys y
      → Notes keys (if test then x else y)
  either_way keys true x y h k = h
  either_way keys false x y h k = k

  billed_answer-Notes :
      (a : Progress B) (health : List HealthEvent) (r : ChatResponse) (done : Billing B)
      → Notes a.attempted (billed_answer biller line a health r done)
  unfolding billed_answer
  billed_answer-Notes a health r (ok u, b) = noted a.attempted _ refl
  billed_answer-Notes a health r (err e, b) = noted a.attempted _ refl

  complete-Notes :
      (a : Progress B) (c : Channel) (r : ChatResponse) (usage : ChatUsage) (source : String)
      → Notes a.attempted (complete biller line a c r usage source)
  unfolding complete
  complete-Notes a c r usage source =
      either_way a.attempted _ _ _ (billed_answer-Notes a _ _ _) (noted a.attempted _ refl)

  refuse-Notes :
      (a : Progress B) (reason : String) → Notes a.attempted (refuse biller line a reason)
  unfolding refuse
  refuse-Notes a reason = (noted a.attempted _ refl)

  settle_unreported-Notes :
      (a : Progress B) (c : Channel) (r : ChatResponse)
      → Notes a.attempted (settle_unreported biller line a c r)
  unfolding settle_unreported
  settle_unreported-Notes a c r = elim (Result-cases (may_settle biller line a)) [
    | inr (e, f) ↦ rw (f, settle_unreported) (noted a.attempted _ refl)
    | inl (may, f) ↦
        rw (f, settle_unreported)
          (either_way a.attempted may _ _ (billed_answer-Notes a _ r _)
            (billed_answer-Notes a _ r _))
  ]

  unestimated :
      (a : Progress B) (c : Channel) (r : ChatResponse) (usage : ChatUsage) (reason : String)
      → Notes a.attempted (
          if not line.can_estimate
          then refuse biller line a reason
          else complete biller line a c r usage "local_estimate")
  unestimated a c r usage reason =
      either_way a.attempted (not line.can_estimate) _ _ (refuse-Notes a reason)
        (complete-Notes a c r usage "local_estimate")

  bill_answer-Notes :
      (a : Progress B) (c : Channel) (r : ChatResponse)
      → Notes a.attempted (bill_answer biller line a c r)
  unfolding bill_answer
  bill_answer-Notes a c r = elim (Bool-cases (chat_usage_has_values r.usage)) [
    | inr absent ↦
        rw (absent, bill_answer)
          (either_way a.attempted line.billing_enabled _ _ (settle_unreported-Notes a c r)
            (unestimated a c r (estimated_usage line r) "upstream_usage_unavailable"))
    | inl reported ↦
        elim (Bool-cases (chat_usage_is_complete r.usage (chat_response_has_output r.choices))) [
          | inr partial ↦
              rw (reported, partial, bill_answer)
                (either_way a.attempted line.billing_enabled _ _
                  (billed_answer-Notes a a.health r _)
                  (unestimated a c r (completed_usage line r) "upstream_usage_incomplete"))
          | inl whole ↦ rw (reported, whole, bill_answer) (complete-Notes a c r r.usage "upstream")
        ]
  ]

  call_upstream-Notes :
      (a : Progress B) (c : Channel) (answer : Result RelayError ChatResponse)
      → Notes a.attempted (call_upstream biller line a c answer)
  unfolding call_upstream
  call_upstream-Notes a c (err e) =
      either_way a.attempted _ _ _ (noted a.attempted _ refl) (noted a.attempted _ refl)
  call_upstream-Notes a c (ok r) =
      bill_answer-Notes (record a { health = record_channel_success c a.health }) c
        (with_defaults line r)

  bind-Notes :
      (a : Progress B) (c : Channel) (answer : Result RelayError ChatResponse)
      → Notes a.attempted (bind biller line a c answer)
  unfolding bind
  bind-Notes a c answer = elim (Option-cases a.booking.reservation) [
    | inl nothing ↦ rw (nothing, bind) (call_upstream-Notes a c answer)
    | inr (id, held) ↦ elim (Result-cases (biller.rebind id c a.store)) [
      | inl ((done, bound), e) ↦
          rw (held, e, bind) (call_upstream-Notes (record a { store = bound }) c answer)
      | inr (e, f) ↦
          rw (held, f, bind)
            (either_way a.attempted (is_unpriced e) _ _ (noted a.attempted _ refl)
              (noted a.attempted _ refl))
    ]
  ]

  reserve_first-Notes :
      (a : Progress B) (c : Channel) (answer : Result RelayError ChatResponse)
      → Notes a.attempted (reserve_first biller line a c answer)
  unfolding reserve_first
  reserve_first-Notes a c answer = elim (Result-cases (biller.reserve c a.store)) [
    | inl ((id, held), e) ↦
        rw (e, reserve_first)
          (bind-Notes
            (record a { booking = record a.booking { reservation = some id }; store = held }) c
            answer)
    | inr (e, f) ↦
        rw (f, reserve_first)
          (either_way a.attempted (is_unpriced e) _ _ (noted a.attempted _ refl)
            (noted a.attempted _ refl))
  ]

  start_free_first-Notes :
      (a : Progress B) (c : Channel) (answer : Result RelayError ChatResponse)
      → Notes a.attempted (start_free_first biller line a c answer)
  unfolding start_free_first
  start_free_first-Notes a c answer = elim (Result-cases (biller.start_free c a.store)) [
    | inl ((id, started), e) ↦
        rw (e, start_free_first)
          (bind-Notes (record a { booking = record a.booking { free = some id }; store = started })
            c answer)
    | inr (e, f) ↦ rw (f, start_free_first) (noted a.attempted _ refl)
  ]

  admit-Notes :
      (a : Progress B) (c : Channel) (answer : Result RelayError ChatResponse)
      → Notes a.attempted (admit biller line a c answer)
  unfolding admit
  admit-Notes a c answer =
      either_way a.attempted _ _ _
        (either_way a.attempted _ _ _ (bind-Notes a c answer) (reserve_first-Notes a c answer))
        (either_way a.attempted _ _ _ (bind-Notes a c answer) (start_free_first-Notes a c answer))

  seen :
      (keys : List String) (tried : Progress B × Next) → Notes keys tried → tried.0.attempted ≡ keys
  unfolding Notes
  seen keys tried h = h

  pub try_channel-attempted :
      (a : Progress B) (c : Channel)
      → (try_channel biller line a c).0.attempted ≡ channel_key c ∷ a.attempted
  unfolding try_channel
  try_channel-attempted a c = elim (Option-cases (line.provider (canonical_provider c.provider))) [
    | inl unsupported ↦ rw (unsupported, try_channel) refl
    | inr (call, f) ↦ elim (Result-cases (line.resolve c.credential_ref)) [
      | inl (key, g) ↦
          rw (f, g, try_channel)
            (seen _ _
              (admit-Notes (record a { attempted = channel_key c ∷ a.attempted }) c (call c key)))
      | inr (e, g) ↦ rw (f, g, try_channel) refl
    ]
  ]
