-- ===== src/Ledger/Runs.antt =====
-- Runs of internal/billing/service.go: its commits, one after the other.
use Prim.Native.String.{String}
use model_bridge.Base.{ℕ, ◌+◌, ◌≡◌, some, true, false, Option}
use model_bridge.Base.Int.{ℤ}
use model_bridge.Base.Tables.{find, UniqueKeys}
use model_bridge.Base.Results.{ok}
use model_bridge.Metering.Defs.{Quantities}
use model_bridge.Ledger.State.{Reservation, ReservationStatus, TransactionKey, Database, is_open}
use model_bridge.Ledger.Quote.{Catalog, Request}
use model_bridge.Ledger.Reserve.{Fresh, reserve}
use model_bridge.Ledger.Reported.{Usage}
use model_bridge.Ledger.Settle.{settle, settle_by_model_request_id}
use model_bridge.Ledger.Release.{
  Target, release_reservation, extend_reservation, mark_settlement_pending,
}
use model_bridge.Ledger.Credit.{CreditRequest, apply_credit, ensure_prepaid_account}
use model_bridge.Ledger.Rebind.{rebind_reservation_channel}
use model_bridge.Ledger.Rebound.{rebind_reservation_channel-Touched, ensure_prepaid_account-Touched}
use model_bridge.Ledger.Posting.{has_transaction}
use model_bridge.Ledger.Keys.{NoRepeat, Grown-NoRepeat, Grown-has_transaction}
use model_bridge.Ledger.Known.{KeysKept}
use model_bridge.Ledger.Links.{Linked, Even}
use model_bridge.Ledger.Lifecycle.{Move, status_of}
use model_bridge.Ledger.Touched.{Touched}
use model_bridge.Ledger.Commits.{
  reserve-Touched, settle-Touched, settle_by_model_request_id-Touched, release_reservation-Touched,
  extend_reservation-Touched, mark_settlement_pending-Touched, apply_credit-Touched,
}

-- One committed transaction of the billing service, of the operations that write accounts,
-- reservations or the ledger. A call that returns an error commits nothing.
pub data Step (catalog : Catalog) (db db' : Database) : Type 0 where
  reserved :
      (fresh : Fresh) (r : Request) (id : ℕ)
      → reserve catalog fresh r db ≡ ok (id, db')
      → Step catalog db db'
  settled : (id : ℕ) (usage : Usage) → settle id usage db ≡ ok (tt, db') → Step catalog db db'
  reconciled :
      (request : ℕ) (usage : Usage)
      → settle_by_model_request_id request usage db ≡ ok (tt, db')
      → Step catalog db db'
  -- `Fail`, and each release of `ExpireReservations`.
  released :
      (id : ℕ) (reason : String) (target : Target)
      → release_reservation id reason target db ≡ ok (tt, db')
      → Step catalog db db'
  extended :
      (id extension now : ℕ)
      → extend_reservation id extension now db ≡ ok (tt, db')
      → Step catalog db db'
  marked :
      (id : ℕ) (reason : String) (usage : Option Quantities)
      → mark_settlement_pending id reason usage db ≡ ok (tt, db')
      → Step catalog db db'
  credited :
      (fresh : ℕ) (r : CreditRequest) (balance : ℤ)
      → apply_credit catalog fresh r db ≡ ok (balance, db')
      → Step catalog db db'
  -- `EnsurePrepaidAccount`. (The registration of a user inserts such a row too.)
  opened :
      (fresh id : ℕ) (tenant_id : Option ℕ) (currency : String)
      → ensure_prepaid_account fresh tenant_id currency db ≡ ok (id, db')
      → Step catalog db db'
  rebound :
      (id channel : ℕ)
      → rebind_reservation_channel catalog id channel db ≡ ok (tt, db')
      → Step catalog db db'

pub Step-Touched : {catalog : Catalog} {db db' : Database} → Step catalog db db' → Touched db db'
Step-Touched {catalog} {db} (Step.reserved fresh r id c) = reserve-Touched catalog fresh r db c
Step-Touched {db = db} (Step.settled id usage c) = settle-Touched id usage db c
Step-Touched {db = db} (Step.reconciled request usage c) =
    settle_by_model_request_id-Touched request usage db c
Step-Touched {db = db} (Step.released id reason target c) =
    release_reservation-Touched id reason target db c
Step-Touched {db = db} (Step.extended id extension now c) =
    extend_reservation-Touched id extension now db c
Step-Touched {db = db} (Step.marked id reason usage c) =
    mark_settlement_pending-Touched id reason usage db c
Step-Touched {catalog} {db} (Step.credited fresh r balance c) =
    apply_credit-Touched catalog fresh r db c
Step-Touched {db = db} (Step.opened fresh id tenant_id currency c) =
    ensure_prepaid_account-Touched fresh tenant_id currency db c
Step-Touched {catalog} {db} (Step.rebound id channel c) =
    rebind_reservation_channel-Touched catalog id channel db c

-- Whether a commit is a rebinding.
abbrev pub rebinds_of : {catalog : Catalog} {db db' : Database} → Step catalog db db' → ℕ
rebinds_of (Step.reserved fresh r id c) = 0
rebinds_of (Step.settled id usage c) = 0
rebinds_of (Step.reconciled request usage c) = 0
rebinds_of (Step.released id reason target c) = 0
rebinds_of (Step.extended id extension now c) = 0
rebinds_of (Step.marked id reason usage c) = 0
rebinds_of (Step.credited fresh r balance c) = 0
rebinds_of (Step.opened fresh id tenant_id currency c) = 0
rebinds_of (Step.rebound id channel c) = 1

-- The states that the service comes to from one it starts in. The tables of models and prices may
-- be others at each step.
pub data Reach (start : Database) : Database → Type 0 where
  here : Reach start start
  next :
      {db db' : Database} (catalog : Catalog)
      → Reach start db
      → Step catalog db db'
      → Reach start db'

-- The number of rebindings in a run.
abbrev pub rebinds : {start db : Database} → Reach start db → ℕ
rebinds Reach.here = 0
rebinds (Reach.next catalog run step) = rebinds_of step + rebinds run

pub Reach-unique :
    {start db : Database} → Reach start db → UniqueKeys start.accounts → UniqueKeys db.accounts
Reach-unique Reach.here u = u
Reach-unique (Reach.next catalog run step) u =
    (Step-Touched step).accounts_unique (Reach-unique run u)

pub Reach-Linked : {start db : Database} → Reach start db → Linked start → Linked db
Reach-Linked Reach.here h = h
Reach-Linked (Reach.next catalog run step) h = (Step-Touched step).linked (Reach-Linked run h)

-- Along any run of commits the ledger stays in balance: where the amounts of all its debit lines
-- add up to those of its credit lines at the start, they do so afterwards.
pub Reach-Even : {start db : Database} → Reach start db → Even start.lines → Even db.lines
Reach-Even Reach.here h = h
Reach-Even (Reach.next catalog run step) h = (Step-Touched step).even (Reach-Even run h)

-- A transaction stays in the ledger.
pub Reach-has_transaction :
    {start db : Database} (key : TransactionKey)
    → Reach start db
    → has_transaction key start.transactions ≡ true
    → has_transaction key db.transactions ≡ true
Reach-has_transaction key Reach.here h = h
Reach-has_transaction key (Reach.next catalog run step) h =
    Grown-has_transaction key (Step-Touched step).keys (Reach-has_transaction key run h)

-- The idempotency key of a request stays in its row.
pub Reach-KeysKept : {start db : Database} → Reach start db → KeysKept start.requests db.requests
Reach-KeysKept Reach.here id key at = at
Reach-KeysKept (Reach.next catalog run step) id key at =
    (Step-Touched step).keys_kept id key (Reach-KeysKept run id key at)

-- Along any run of commits no key is posted twice: no charge of a request and no credit under a
-- client's key, where none is in two transactions at the start.
pub Reach-NoRepeat :
    {start db : Database} → Reach start db → NoRepeat start.transactions → NoRepeat db.transactions
Reach-NoRepeat Reach.here h = h
Reach-NoRepeat (Reach.next catalog run step) h =
    Grown-NoRepeat (Step-Touched step).keys (Reach-NoRepeat run h)

-- A reservation that is settled, released or expired is never written again: whatever commits of
-- the billing service follow, rebindings included, in any order, its row stays as it is.
pub Reach-closed_kept :
    {start db : Database} (id : ℕ) (r : Reservation)
    → Reach start db
    → find id start.reservations ≡ some r
    → is_open r.status ≡ false
    → find id db.reservations ≡ some r
Reach-closed_kept id r Reach.here e closed = e
Reach-closed_kept id r (Reach.next catalog run step) e closed =
    (Step-Touched step).closed_kept id r (Reach-closed_kept id r run e closed) closed

-- The statuses that a reservation comes to, by moves from one to the next.
pub data Life (start : Option ReservationStatus) : Option ReservationStatus → Type 0 where
  born : Life start start
  moved : {s t : Option ReservationStatus} → Life start s → Move s t → Life start t

-- Along any run of commits each reservation follows the graph of its life: it is made held, a held
-- one may await its settlement, and it ends settled, released or expired; one that awaits its
-- settlement can only be settled.
pub Reach-Life :
    {start db : Database} (id : ℕ)
    → Reach start db
    → Life (status_of (find id start.reservations)) (status_of (find id db.reservations))
Reach-Life id Reach.here = Life.born
Reach-Life id (Reach.next catalog run step) =
    Life.moved (Reach-Life id run) ((Step-Touched step).moves id)
