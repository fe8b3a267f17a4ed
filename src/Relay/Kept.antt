-- ===== src/Relay/Kept.antt =====
-- A paid answer of internal/relay is settled or kept pending: the writes of advanced.go.
use Prim.Native.String.{String}
use model_bridge.Base.{ℕ, ◌≡◌, some, inl, inr}
use model_bridge.Base.Results.{ok, err, Result-cases}
use model_bridge.Ledger.State.{BillingError}
use model_bridge.Ledger.Reported.{Usage}
use model_bridge.Relay.Channels.{Channel}
use model_bridge.Relay.Reports.{ChatUsage}
use model_bridge.Relay.Biller.{Biller, IsLawful}
use model_bridge.Relay.Answers.{
  Booking, Billing, chat_billing_usage, kept_pending, mark_reservation, settle_reservation,
  mark_relay_billing_pending, mark_relay_billing_pending_with_usage, complete_relay_billing,
}

module _ {B : Type 0} (biller : Biller B) (billed : ℕ → B → Type 0)
    (lawful : IsLawful biller billed) (id : ℕ) where
  -- A write that succeeds leaves the reservation billed.
  abbrev pub Kept : Billing B → Type 0
  Kept (ok done, b) = billed id b
  Kept (err e, b) = Unit

  mark_reservation-Kept :
      (reason : String) (usage : Usage) (b : B) → Kept (mark_reservation biller id reason usage b)
  unfolding mark_reservation
  mark_reservation-Kept reason usage b =
      elim (Result-cases (biller.mark_pending_with_usage id reason usage b)) [
        | inl ((done, b'), e) ↦ rw e (lawful.marked_with_usage id reason usage b b' e)
        | inr (first, e) ↦ elim (Result-cases (biller.mark_pending id reason b)) [
          | inl ((done, b'), f) ↦ rw (e, f) (lawful.marked id reason b b' f)
          | inr (second, f) ↦ rw (e, f) tt
        ]
      ]

  kept_pending-Kept : (e : BillingError) (r : Billing B) → Kept r → Kept (kept_pending biller e r)
  kept_pending-Kept e (ok done, b) h = h
  kept_pending-Kept e (err second, b) h = tt

  settle_reservation-Kept :
      (c : Channel) (usage : Usage) (b : B) → Kept (settle_reservation biller id c usage b)
  unfolding settle_reservation
  settle_reservation-Kept c usage b = elim (Result-cases (biller.rebind id c b)) [
    | inr (failure, e) ↦
        rw e (kept_pending-Kept failure _ (mark_reservation-Kept "billing_rebind_failed" usage b))
    | inl ((done, bound), e) ↦ elim (Result-cases (biller.settle id usage bound)) [
      | inl ((paid, b'), f) ↦ rw (e, f) (lawful.settled id usage bound b' f)
      | inr (failure, f) ↦
          rw (e, f)
            (kept_pending-Kept failure _
              (mark_reservation-Kept "billing_settlement_failed" usage bound))
    ]
  ]

  pub complete_relay_billing-Kept :
      (booking : Booking) (usage : ChatUsage) (c : Channel) (source : String) (b : B)
      → booking.reservation ≡ some id
      → Kept (complete_relay_billing biller booking usage c source b)
  unfolding complete_relay_billing
  complete_relay_billing-Kept booking usage c source b h =
      rw h (settle_reservation-Kept c (chat_billing_usage usage source) b)

  pub mark_relay_billing_pending-Kept :
      (booking : Booking) (reason : String) (b : B)
      → booking.reservation ≡ some id
      → Kept (mark_relay_billing_pending biller booking reason b)
  unfolding mark_relay_billing_pending
  mark_relay_billing_pending-Kept booking reason b h =
      elim (Result-cases (biller.mark_pending id reason b)) [
        | inl ((done, b'), e) ↦ rw (h, e) (lawful.marked id reason b b' e)
        | inr (failure, e) ↦ rw (h, e) tt
      ]

  pub mark_relay_billing_pending_with_usage-Kept :
      (booking : Booking) (reason : String) (usage : Usage) (b : B)
      → booking.reservation ≡ some id
      → Kept (mark_relay_billing_pending_with_usage biller booking reason usage b)
  unfolding mark_relay_billing_pending_with_usage
  mark_relay_billing_pending_with_usage-Kept booking reason usage b h =
      rw h (mark_reservation-Kept reason usage b)
