-- ===== src/Ledger/Reconcile/Settlements.antt =====
-- Every commit of `Settle` and of `SettleByModelRequestID` keeps the books.
use model_bridge.Base.{ℕ, ◌≡◌, inl, inr}
use model_bridge.Base.Results.{ok}
use model_bridge.Ledger.State.{Database}
use model_bridge.Ledger.Reported.{Usage}
use model_bridge.Ledger.Settle.{settle, settle_by_model_request_id}
use model_bridge.Ledger.Settlement.{settle-Settled, settle_by_model_request_id-settles}
use model_bridge.Ledger.Reconcile.Books.{Reconciled}
use model_bridge.Ledger.Reconcile.Closes.{unchanged-Reconciled}
use model_bridge.Ledger.Reconcile.Charges.{write_settlement-Reconciled}

pub settle-Reconciled :
    (extra a id : ℕ) (usage : Usage) (db : Database)
    → Reconciled extra a db
    → {u : Unit {0}} {db' : Database} → settle id usage db ≡ ok (u, db')
    → Reconciled extra a db'
settle-Reconciled extra a id usage db h c = elim (settle-Settled id usage db c) [
  | inl s ↦
      let w = s.settlement in
      write_settlement-Reconciled extra a id s.reservation w.request w.token w.actual w.cost
        s.metrics db s.reservation_row s.live h w.written
  | inr same ↦ unchanged-Reconciled extra a db h same.unchanged
]

pub settle_by_model_request_id-Reconciled :
    (extra a request : ℕ) (usage : Usage) (db : Database)
    → Reconciled extra a db
    → {u : Unit {0}} {db' : Database} → settle_by_model_request_id request usage db ≡ ok (u, db')
    → Reconciled extra a db'
settle_by_model_request_id-Reconciled extra a request usage db h c =
    elim (settle_by_model_request_id-settles request usage db c) [
      | inl (id, named, s) ↦ settle-Reconciled extra a id named db h s
      | inr same ↦ unchanged-Reconciled extra a db h same
    ]
