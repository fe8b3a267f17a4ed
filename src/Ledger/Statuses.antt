-- ===== src/Ledger/Statuses.antt =====
-- What the status of a reservation lets an operation do: inversion of the two dispatches of
-- internal/billing/service.go.
use model_bridge.Base.{◌≡◌, ◌⊎◌, inl, inr, refl, true}
use model_bridge.Base.Results.{ok}
use model_bridge.Ledger.State.{ReservationStatus, Committed, Database, is_open}
use model_bridge.Ledger.Settle.{by_status}
use model_bridge.Ledger.Release.{on_held}

-- A release that commits had a held reservation, or did nothing.
pub on_held-eq-ok :
    {A : Type 0} (s : ReservationStatus) (done work : Committed A) {r : A × Database}
    → on_held s done work ≡ ok r
    → (s ≡ ReservationStatus.held) × (work ≡ ok r) ⊎ (done ≡ ok r)
unfolding on_held
on_held-eq-ok ReservationStatus.held done work h = inl (refl, h)
on_held-eq-ok ReservationStatus.pending done work h = cc
on_held-eq-ok ReservationStatus.settled done work h = inr h
on_held-eq-ok ReservationStatus.released done work h = inr h
on_held-eq-ok ReservationStatus.expired done work h = inr h

-- A settlement or a mark that commits had an open reservation, or did nothing.
pub by_status-eq-ok :
    {A : Type 0} (s : ReservationStatus) (done work : Committed A) {r : A × Database}
    → by_status s done work ≡ ok r
    → (is_open s ≡ true) × (work ≡ ok r) ⊎ ((s ≡ ReservationStatus.settled) × (done ≡ ok r))
unfolding by_status
by_status-eq-ok ReservationStatus.held done work h = inl (refl, h)
by_status-eq-ok ReservationStatus.pending done work h = inl (refl, h)
by_status-eq-ok ReservationStatus.settled done work h = inr (refl, h)
by_status-eq-ok ReservationStatus.released done work h = cc
by_status-eq-ok ReservationStatus.expired done work h = cc
