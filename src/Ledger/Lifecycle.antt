-- ===== src/Ledger/Lifecycle.antt =====
-- The life of a reservation in internal/billing/service.go, as a graph of its statuses.
use model_bridge.Base.{ℕ, ◌≡◌, Option, none, some, true, ◌==◌, eqb→eq, Bool-cases, inl, inr}
use model_bridge.Base.Tables.{Table, find, put, find-put}
use model_bridge.Ledger.State.{Reservation, ReservationStatus, is_open}
use model_bridge.Ledger.Release.{Target, target_status}

-- A commit leaves a reservation in its status, makes one that is held, or moves one along.
pub data Move : Option ReservationStatus → Option ReservationStatus → Type 0 where
  stay : (s : Option ReservationStatus) → Move s s
  hold : Move none (some ReservationStatus.held)
  pend : Move (some ReservationStatus.held) (some ReservationStatus.pending)
  settle_held : Move (some ReservationStatus.held) (some ReservationStatus.settled)
  settle_pending : Move (some ReservationStatus.pending) (some ReservationStatus.settled)
  release : Move (some ReservationStatus.held) (some ReservationStatus.released)
  expire : Move (some ReservationStatus.held) (some ReservationStatus.expired)

abbrev pub status_of : Option Reservation → Option ReservationStatus
status_of none = none
status_of (some r) = some r.status

-- What becomes of each reservation.
abbrev pub MovesIn : Table Reservation → Table Reservation → Type 0
MovesIn t t' = (id : ℕ) → Move (status_of (find id t)) (status_of (find id t'))

pub put-MovesIn :
    (id : ℕ) (row : Reservation) (t : Table Reservation)
    → Move (status_of (find id t)) (some row.status)
    → MovesIn t (put id row t)
put-MovesIn id row t m j = elim (Bool-cases (j == id)) [
  | inl same ↦ rw (find-put id j row t, same, eqb→eq j id same) m
  | inr other ↦ rw (find-put id j row t, other) (Move.stay (status_of (find j t)))
]

pub closes_open :
    (s : ReservationStatus) → is_open s ≡ true → Move (some s) (some ReservationStatus.settled)
closes_open ReservationStatus.held h = Move.settle_held
closes_open ReservationStatus.pending h = Move.settle_pending
closes_open ReservationStatus.settled h = cc
closes_open ReservationStatus.released h = cc
closes_open ReservationStatus.expired h = cc

pub pends_open :
    (s : ReservationStatus) → is_open s ≡ true → Move (some s) (some ReservationStatus.pending)
pends_open ReservationStatus.held h = Move.pend
pends_open ReservationStatus.pending h = Move.stay (some ReservationStatus.pending)
pends_open ReservationStatus.settled h = cc
pends_open ReservationStatus.released h = cc
pends_open ReservationStatus.expired h = cc

pub gives_back :
    (target : Target) → Move (some ReservationStatus.held) (some (target_status target))
gives_back Target.to_released = Move.release
gives_back Target.to_expired = Move.expire

-- A write to the row of a reservation.
pub put_row-MovesIn :
    (id : ℕ) (r row : Reservation) (t : Table Reservation)
    → find id t ≡ some r
    → Move (some r.status) (some row.status)
    → MovesIn t (put id row t)
put_row-MovesIn id r row t e m = put-MovesIn id row t (rw e m)
