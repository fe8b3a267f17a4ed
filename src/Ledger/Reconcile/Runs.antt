-- ===== src/Ledger/Reconcile/Runs.antt =====
-- The books along any run of the billing service.
use model_bridge.Base.{ℕ, ◌+◌, arith}
use model_bridge.Base.Tables.{UniqueKeys}
use model_bridge.Ledger.State.{Database}
use model_bridge.Ledger.Quote.{Catalog}
use model_bridge.Ledger.Runs.{Step, Reach, Reach-unique, rebinds_of, rebinds}
use model_bridge.Ledger.Reconcile.Books.{Reconciled}
use model_bridge.Ledger.Reconcile.Holds.{reserve-Reconciled}
use model_bridge.Ledger.Reconcile.Closes.{
  release_reservation-Reconciled, mark_settlement_pending-Reconciled, extend_reservation-Reconciled,
}
use model_bridge.Ledger.Reconcile.Settlements.{
  settle-Reconciled, settle_by_model_request_id-Reconciled,
}
use model_bridge.Ledger.Reconcile.Credits.{apply_credit-Reconciled}
use model_bridge.Ledger.Reconcile.Rebinds.{
  rebind_reservation_channel-Reconciled, ensure_prepaid_account-Reconciled,
}
use model_bridge.Base.{◌≡◌, subst}

no_more : (extra a : ℕ) (db : Database) → Reconciled extra a db → Reconciled (0 + extra) a db
no_more extra a db h =
    let same : extra ≡ 0 + extra = omega arith in subst (λ n. Reconciled n a db) same h

Step-Reconciled :
    (extra a : ℕ) {catalog : Catalog} {db db' : Database}
    → (step : Step catalog db db') → UniqueKeys db.accounts
    → Reconciled extra a db
    → Reconciled (rebinds_of step + extra) a db'
Step-Reconciled extra a {catalog} {db} {db'} (Step.reserved fresh r id c) u h =
    no_more extra a db' (reserve-Reconciled catalog extra a fresh r db u h c)
Step-Reconciled extra a {db = db} {db' = db'} (Step.settled id usage c) u h =
    no_more extra a db' (settle-Reconciled extra a id usage db h c)
Step-Reconciled extra a {db = db} {db' = db'} (Step.reconciled request usage c) u h =
    no_more extra a db' (settle_by_model_request_id-Reconciled extra a request usage db h c)
Step-Reconciled extra a {db = db} {db' = db'} (Step.released id reason target c) u h =
    no_more extra a db' (release_reservation-Reconciled extra a id reason target db h c)
Step-Reconciled extra a {db = db} {db' = db'} (Step.extended id extension now c) u h =
    no_more extra a db' (extend_reservation-Reconciled extra a id extension now db h c)
Step-Reconciled extra a {db = db} {db' = db'} (Step.marked id reason usage c) u h =
    no_more extra a db' (mark_settlement_pending-Reconciled extra a id reason usage db h c)
Step-Reconciled extra a {catalog} {db} {db'} (Step.credited fresh r balance c) u h =
    no_more extra a db' (apply_credit-Reconciled catalog extra a fresh r db u h c)
Step-Reconciled extra a {db = db} {db' = db'} (Step.opened fresh id tenant_id currency c) u h =
    no_more extra a db'
      (ensure_prepaid_account-Reconciled extra a fresh tenant_id currency db u h c)
Step-Reconciled extra a {catalog} {db} {db'} (Step.rebound id channel c) u h =
    rebind_reservation_channel-Reconciled catalog extra a id channel db h c

units_add :
    (step run extra a : ℕ) (db : Database)
    → Reconciled (step + (run + extra)) a db
    → Reconciled (step + run + extra) a db
units_add step run extra a db h =
    let same : step + (run + extra) ≡ step + run + extra = omega arith in
    subst (λ n. Reconciled n a db) same h

-- In every state that the commits of the billing service reach, in any order and number, from a
-- state with unique account identifiers in which it holds, the books of each account balance: its
-- balance, what its open reservations set aside and its debits together are at least its credits,
-- and exceed them by at most one unit of 10^-30 for each reservation in the table, one for each
-- rebinding in the run, and what is allowed for earlier rebindings at the start.
pub Reach-Reconciled :
    (extra a : ℕ) {start db : Database}
    → UniqueKeys start.accounts
    → Reconciled extra a start
    → (run : Reach start db) → Reconciled (rebinds run + extra) a db
Reach-Reconciled extra a {start} u h Reach.here = no_more extra a start h
Reach-Reconciled extra a {db = db} u h (Reach.next catalog run step) =
    units_add (rebinds_of step) (rebinds run) extra a db (
      Step-Reconciled (rebinds run + extra) a step (Reach-unique run u)
        (Reach-Reconciled extra a u h run))
