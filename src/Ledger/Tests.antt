-- ===== src/Ledger/Tests.antt =====
-- The properties of the billing service at concrete rows.
use Prim.Native.String.{len}
use model_bridge.Base.{◌+◌, ◌*◌, ◌≡◌, ◌≤◌, ◌⊎◌, refl, some, none, true, arith, leb}
use model_bridge.Base.Int.{◌+ℤ◌, pos, ◌≤ℤ◌}
use model_bridge.Base.Results.{ok, err}
use model_bridge.Base.Tables.{find}
use model_bridge.Base.Texts.{trim_left, keep_unless_blank, trim_right, trim_space}
use model_bridge.Ledger.Effects.{Charged, settle-Charged}
use model_bridge.Ledger.Moves.{Transferred, apply_credit-moves}
use model_bridge.Ledger.Expiry.{expire_reservations-keeps_live}
use model_bridge.Ledger.Expired.{expired_row, expire_reservations-closes_due}
use model_bridge.Ledger.Lifecycle.{status_of}
use model_bridge.Ledger.Limits.{reserve-within_limit, reserve-covered}
use model_bridge.Ledger.Links.{Even}
use model_bridge.Ledger.Rebinding.{elsewhere, rebound, rebind_run}
use model_bridge.Ledger.Reconcile.Books.{balance_in, Reconciled}
use model_bridge.Ledger.Reconcile.Runs.{Reach-Reconciled}
use model_bridge.Ledger.Release.{
  release_reservation, expire_reservations, Target, due, expire_each, on_held, release_held,
}
use model_bridge.Ledger.Reserve.{pending_amount, reserve}
use model_bridge.Ledger.Retries.{settle-then-release, reserve-once, settle-retry, mark-then-release}
use model_bridge.Ledger.Runs.{rebinds, Step, Reach, Reach-Even, Reach-closed_kept, Life, Reach-Life}
use model_bridge.Ledger.Scenario.{
  catalog, request, fresh, again, token, usage, top_up, take_back, start, credited, held_row,
  reserved, settled_reservation, settled, released, pended, credit_run, reserve_run, settle_run,
  mark_run, debited, debit_run,
}
use model_bridge.Ledger.Settle.{settle}
use model_bridge.Ledger.State.{BillingError, Reservation, ReservationStatus}
use model_bridge.Metering.Defs.{one}

start-Reconciled : Reconciled 0 1 start
unfolding ◌+ℤ◌
start-Reconciled = record { lower = omega arith; upper = omega arith }

run : Reach start settled
run =
    Reach.next catalog
      (Reach.next catalog
        (Reach.next catalog Reach.here (Step.credited 1 top_up (pos (100 * one)) credit_run))
        (Step.reserved fresh request 7 reserve_run))
      (Step.settled 7 usage settle_run)

rebinding : Reach start rebound
rebinding =
    Reach.next elsewhere
      (Reach.next catalog
        (Reach.next catalog Reach.here (Step.credited 1 top_up (pos (100 * one)) credit_run))
        (Step.reserved fresh request 7 reserve_run))
      (Step.rebound 7 5 rebind_run)

Reach-Reconciled_example : Reconciled (rebinds rebinding + 0) 1 rebound
Reach-Reconciled_example = Reach-Reconciled 0 1 tt start-Reconciled rebinding

Reach-Even_example : Even settled.lines
Reach-Even_example = Reach-Even run refl

short : leb (len (trim_space "timeout")) 1024 ≡ true
unfolding trim_space trim_left trim_right keep_unless_blank
short = refl

later : Reach settled settled
later = Reach.next catalog Reach.here (
    Step.released 7 "timeout" Target.to_released
      (settle-then-release 7 usage "timeout" Target.to_released reserved short settle_run))

Reach-closed_kept_example : find 7 settled.reservations ≡ some settled_reservation
Reach-closed_kept_example = Reach-closed_kept 7 settled_reservation later refl refl

reserve-within_limit_example : token.spent_amount + pending_amount reserved 3 ≤ token.spend_limit
reserve-within_limit_example =
    reserve-within_limit catalog fresh request credited 3 token tt refl refl (λ e. cc e) reserve_run

reserve-covered_example :
    (row : Reservation) × (find 7 reserved.reservations ≡ some row)
    × (row.status ≡ ReservationStatus.held)
    × (pos 0 ≤ℤ balance_in row.account_id reserved.accounts)
    × (balance_in row.account_id credited.accounts
        ≤ℤ balance_in row.account_id reserved.accounts +ℤ pos row.reserved_amount)
    × (balance_in row.account_id reserved.accounts +ℤ pos row.reserved_amount
        ≤ℤ balance_in row.account_id credited.accounts +ℤ pos 1)
reserve-covered_example = reserve-covered catalog fresh request credited (refl, tt) reserve_run

reserve-once_example : reserve catalog again request settled ≡ err BillingError.duplicate_request
reserve-once_example =
    reserve-once catalog catalog fresh again request credited reserve_run
      (Reach.next catalog Reach.here (Step.settled 7 usage settle_run))

settle-Charged_example : Charged usage held_row 7 reserved settled
settle-Charged_example = settle-Charged 7 usage held_row reserved refl refl settle_run

settle-retry_example : settle 7 usage settled ≡ ok (tt, settled)
settle-retry_example = settle-retry 7 usage reserved settle_run

mark-then-release_example :
    release_reservation 7 "timeout" Target.to_expired pended ≡ err BillingError.reservation_closed
mark-then-release_example =
    mark-then-release 7 "usage_missing" "timeout" none Target.to_expired held_row reserved refl refl
      short mark_run

-- The debit adds to the top-up account what its own line in the ledger takes off.
apply_credit-moves_example : Transferred catalog take_back credited (pos (99 * one)) debited
apply_credit-moves_example = apply_credit-moves catalog 1 take_back credited (refl, tt) debit_run

round_fine : (expire_reservations 1600 reserved).1 ≡ none
unfolding expire_reservations due expire_each release_reservation on_held release_held trim_space
    trim_left trim_right keep_unless_blank
round_fine = refl

expire_reservations-closes_due_example :
    (find 7 (expire_reservations 1600 reserved).2.reservations ≡ some (expired_row held_row))
    ⊎ ((expire_reservations 1600 reserved).0 ≡ 100)
expire_reservations-closes_due_example =
    expire_reservations-closes_due 1600 7 held_row reserved (refl, tt) round_fine refl refl

expire_reservations-keeps_live_example :
    find 7 (expire_reservations 1599 reserved).2.reservations ≡ some held_row
expire_reservations-keeps_live_example =
    expire_reservations-keeps_live 1599 7 held_row reserved (refl, tt) refl refl

-- Made held and then settled.
Reach-Life_example :
    Life (status_of (find 7 start.reservations)) (status_of (find 7 settled.reservations))
Reach-Life_example = Reach-Life 7 run
