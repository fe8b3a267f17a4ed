-- ===== src/Relay/Paid.antt =====
-- No attempt of internal/relay/types.go returns a paid answer that is not billed.
use Prim.Native.String.{String}
use model_bridge.Base.{
  ℕ, ◌≡◌, refl, Bool, true, false, some, is_some, inl, inr, List, Bool-cases, ◌||◌, if◌then◌else◌,
}
use model_bridge.Base.Results.{ok, err, Result-cases}
use model_bridge.Relay.Channels.{Channel}
use model_bridge.Relay.Reports.{ChatUsage, chat_usage_has_values, chat_usage_is_complete}
use model_bridge.Relay.Biller.{Biller, IsLawful}
use model_bridge.Relay.Answers.{
  ChatResponse, Billing, chat_response_has_output, complete_relay_billing,
  mark_relay_billing_pending, mark_relay_billing_pending_with_usage, chat_billing_usage,
}
use model_bridge.Relay.Health.{HealthEvent, record_channel_success}
use model_bridge.Relay.Attempts.{
  Line, Progress, Next, with_total, no_usage, billed_answer, complete, may_settle,
  settle_unreported, bill_answer,
}
use model_bridge.Relay.Kept.{
  Kept, complete_relay_billing-Kept, mark_relay_billing_pending-Kept,
  mark_relay_billing_pending_with_usage-Kept,
}

module _ {B : Type 0} (biller : Biller B) (billed : ℕ → B → Type 0)
    (lawful : IsLawful biller billed) (line : Line) where
  -- The reservation of the call, settled or awaiting its settlement.
  abbrev pub IsBilled : Progress B → Type 0
  IsBilled a = (id : ℕ) × (a.booking.reservation ≡ some id) × billed id a.store

  -- An answer that is returned is billed.
  abbrev pub Fine : Progress B × Next → Type 0
  Fine (a, Next.continues) = Unit
  Fine (a, Next.stops) = Unit
  Fine (a, Next.returns (ok r)) = IsBilled a
  Fine (a, Next.returns (err e)) = Unit

  -- The branch of a test that holds.
  pub then-Fine :
      (test : Bool) (x y : Progress B × Next) → test ≡ true → Fine x → Fine (if test then x else y)
  then-Fine true x y h fine = fine
  then-Fine false x y h fine = cc

  or_left : (p q : Bool) → p ≡ true → (p || q) ≡ true
  or_left p q h = rw h refl

  billed_answer-Fine :
      (id : ℕ) (a : Progress B) (health : List HealthEvent) (r : ChatResponse) (done : Billing B)
      → a.booking.reservation ≡ some id
      → Kept biller billed lawful id done
      → Fine (billed_answer biller line a health r done)
  unfolding billed_answer
  billed_answer-Fine id a health r (ok u, b) held k = (id, held, k)
  billed_answer-Fine id a health r (err e, b) held k = tt

  module _ (id : ℕ) (a : Progress B) (held : a.booking.reservation ≡ some id) where
    complete-Fine :
        (c : Channel) (r : ChatResponse) (usage : ChatUsage) (source : String)
        → line.billing_enabled ≡ true
        → Fine (complete biller line a c r usage source)
    unfolding complete
    complete-Fine c r usage source paid =
        then-Fine _ _ _ (or_left line.billing_enabled (is_some a.booking.free) paid) (
          billed_answer-Fine id a a.health (record r { usage = with_total usage })
            (complete_relay_billing biller a.booking (with_total usage) c source a.store) held
            (complete_relay_billing-Kept biller billed lawful id a.booking (with_total usage) c
              source a.store held))

    settle_unreported-Fine :
        (c : Channel) (r : ChatResponse) → Fine (settle_unreported biller line a c r)
    unfolding settle_unreported
    settle_unreported-Fine c r = elim (Result-cases (may_settle biller line a)) [
      | inr (e, f) ↦ rw (f, settle_unreported) tt
      | inl (may, f) ↦ elim (Bool-cases may) [
        | inl yes_may ↦
            rw (f, yes_may, settle_unreported)
              (billed_answer-Fine id a (record_channel_success c a.health) r
                (complete_relay_billing biller a.booking no_usage c "upstream" a.store) held
                (complete_relay_billing-Kept biller billed lawful id a.booking no_usage c "upstream"
                  a.store held))
        | inr no_may ↦
            rw (f, no_may, settle_unreported)
              (billed_answer-Fine id a a.health r
                (mark_relay_billing_pending biller a.booking "upstream_usage_unavailable" a.store)
                held
                (mark_relay_billing_pending-Kept biller billed lawful id a.booking
                  "upstream_usage_unavailable" a.store held))
      ]
    ]

    pub bill_answer-Fine :
        (c : Channel) (r : ChatResponse)
        → line.billing_enabled ≡ true
        → Fine (bill_answer biller line a c r)
    unfolding bill_answer
    bill_answer-Fine c r paid = elim (Bool-cases (chat_usage_has_values r.usage)) [
      | inr absent ↦ rw absent (then-Fine _ _ _ paid (settle_unreported-Fine c r))
      | inl reported ↦
          elim (Bool-cases (chat_usage_is_complete r.usage (chat_response_has_output r.choices))) [
            | inr partial ↦
                rw (reported, partial)
                  (then-Fine _ _ _ paid (
                    billed_answer-Fine id a a.health r
                      (mark_relay_billing_pending_with_usage biller a.booking
                        "upstream_usage_incomplete" (chat_billing_usage r.usage "upstream") a.store)
                      held
                      (mark_relay_billing_pending_with_usage-Kept biller billed lawful id a.booking
                        "upstream_usage_incomplete" (chat_billing_usage r.usage "upstream") a.store
                        held)))
            | inl whole ↦ rw (reported, whole) (complete-Fine c r r.usage "upstream" paid)
          ]
    ]
