-- ===== src/Ledger/Commits.antt =====
-- Each operation of internal/billing/service.go touches no more than `Touched` says.
use Prim.Native.String.{String, len}
use model_bridge.Base.{
  ℕ, ◌*◌, ◌≡◌, subst, some, none, true, List, Option, inl, inr, refl, arith, ap, leb, ltb, not,
  is_some, ◌&&◌, not-true, Bool-cases,
}
use model_bridge.Base.Int.{ℤ}
use model_bridge.Base.Texts.{str_eq, trim_space}
use model_bridge.Base.Tables.{Table, find, put, find-put, put-UniqueKeys}
use model_bridge.Base.Results.{ok, ok-injective, guard-then, or_error-then, >>=-eq-ok}
use model_bridge.Metering.Defs.{Quantities}
use model_bridge.Ledger.State.{
  ApiToken, Account, Reservation, ModelRequest, Database, is_open, TransactionKey, Direction,
  LedgerLine,
}
use model_bridge.Ledger.Quote.{Catalog, Request}
use model_bridge.Ledger.Reserve.{
  has_request_id, Fresh, Hold, reserve, place_hold, write_hold, prepaid_account, request_row,
  reservation_row, covers,
}
use model_bridge.Ledger.Posting.{double_entry, post_charge}
use model_bridge.Ledger.Reported.{Usage}
use model_bridge.Ledger.Settle.{settle, settle_by_model_request_id, settled_row, write_settlement}
use model_bridge.Ledger.Release.{
  second, Target, released_row, release_held, release_reservation, extend_reservation,
  mark_settlement_pending, pending_row, fail_request, pend_request, is_live,
}
use model_bridge.Ledger.Credit.{CreditRequest, apply_credit, topup_account, opposite, write_credit}
use model_bridge.Ledger.Keys.{Grown}
use model_bridge.Ledger.Links.{LinkedTo-put, put-LinkedTo, Even}
use model_bridge.Ledger.Lifecycle.{
  status_of, Move, put-MovesIn, put_row-MovesIn, closes_open, pends_open, gives_back,
}
use model_bridge.Ledger.Known.{put-KeysKept, put_new-KeysKept}
use model_bridge.Ledger.Admission.{reserve-Admitted}
use model_bridge.Ledger.Statuses.{on_held-eq-ok, by_status-eq-ok}
use model_bridge.Ledger.Settlement.{settle-Settled, settle_by_model_request_id-settles}
use model_bridge.Ledger.Credited.{apply_credit-Credited}
use model_bridge.Ledger.Reconcile.Charges.{post_charge-Posted}
use model_bridge.Ledger.Touched.{
  Touched, unchanged-Touched, put-closed_kept, update_request-Touched, open_only, kept_link,
}

pub release_reservation-Touched :
    (id : ℕ) (reason : String) (target : Target) (db : Database) {u : Unit {0}} {db' : Database}
    → release_reservation id reason target db ≡ ok (u, db')
    → Touched db db'
unfolding release_reservation release_held released_row
release_reservation-Touched id reason target db c =
    let (_, c1) = guard-then (leb (len (trim_space reason)) 1024) _ _ c in
    let (r, e, c2) = or_error-then (find id db.reservations) _ _ c1 in
    elim (on_held-eq-ok r.status _ _ c2) [
      | inr same ↦ unchanged-Touched db same
      | inl (held, c3) ↦
          let (account, _, c4) = or_error-then (find r.account_id db.accounts) _ _ c3 in
          subst (λ (x : Unit {0} × Database). Touched db x.1) (ok-injective c4)
            (update_request-Touched r.request_id (fail_request (trim_space reason)) db _ (λ q. refl)
              (record {
                accounts_unique = put-UniqueKeys r.account_id _ db.accounts;
                closed_kept =
                    put-closed_kept id _ db.reservations
                      (open_only id r db.reservations e (ap is_open held));
                linked = kept_link id r _ db e refl;
                even = λ h. h;
                keys = Grown.same;
                moves = put_row-MovesIn id r _ db.reservations e (rw held (gives_back target));
                keys_kept = λ j key at. at;
              }))
    ]

pend_request-key :
    (reason : String) (usage : Option Quantities) (q : ModelRequest)
    → (pend_request reason usage q).idempotency_key ≡ q.idempotency_key
pend_request-key reason none q = elim (Bool-cases (is_live q.status)) [
  | inl live ↦ rw live refl
  | inr closed ↦ rw closed refl
]
pend_request-key reason (some metrics) q = elim (Bool-cases (is_live q.status)) [
  | inl live ↦ rw live refl
  | inr closed ↦ rw closed refl
]

pub mark_settlement_pending-Touched :
    (id : ℕ) (reason : String) (usage : Option Quantities) (db : Database) {u : Unit {0}}
    {db' : Database}
    → mark_settlement_pending id reason usage db ≡ ok (u, db')
    → Touched db db'
unfolding mark_settlement_pending pending_row
mark_settlement_pending-Touched id reason usage db c =
    let (_, c1) =
      guard-then (not (str_eq (trim_space reason) "") && leb (len (trim_space reason)) 1024) _ _
        c in
    let (r, e, c2) = or_error-then (find id db.reservations) _ _ c1 in
    elim (by_status-eq-ok r.status _ _ c2) [
      | inr (_, same) ↦ unchanged-Touched db same
      | inl (live, c3) ↦
          subst (λ (x : Unit {0} × Database). Touched db x.1) (ok-injective c3)
            (update_request-Touched r.request_id (pend_request (trim_space reason) usage) db _
              (pend_request-key (trim_space reason) usage)
              (record {
                accounts_unique = λ u. u;
                closed_kept =
                    put-closed_kept id _ db.reservations (open_only id r db.reservations e live);
                linked = kept_link id r _ db e refl;
                even = λ h. h;
                keys = Grown.same;
                moves = put_row-MovesIn id r _ db.reservations e (pends_open r.status live);
                keys_kept = λ j key at. at;
              }))
    ]

pub extend_reservation-Touched :
    (id extension now : ℕ) (db : Database) {u : Unit {0}} {db' : Database}
    → extend_reservation id extension now db ≡ ok (u, db')
    → Touched db db'
unfolding extend_reservation
extend_reservation-Touched id extension now db c =
    let (_, c1) = guard-then (ltb 0 extension && leb extension (86400 * second)) _ _ c in
    let (r, e, c2) = or_error-then (find id db.reservations) _ _ c1 in
    let (live, c3) = guard-then (is_open r.status) _ _ c2 in
    subst (λ (x : Unit {0} × Database). Touched db x.1) (ok-injective c3)
      (record {
        accounts_unique = λ u. u;
        closed_kept = put-closed_kept id _ db.reservations (open_only id r db.reservations e live);
        linked = kept_link id r _ db e refl;
        even = λ h. h;
        keys = Grown.same;
        moves = put_row-MovesIn id r _ db.reservations e (Move.stay (some r.status));
        keys_kept = λ j key at. at;
      })

pub write_settlement-Touched :
    (id : ℕ) (r : Reservation) (q : ModelRequest) (token : ApiToken) (actual cost : ℕ)
    (metrics : Quantities) (db : Database) {u : Unit {0}} {db' : Database}
    → find id db.reservations ≡ some r
    → is_open r.status ≡ true
    → find r.request_id db.requests ≡ some q
    → write_settlement db id r q token actual cost metrics ≡ ok (u, db')
    → Touched db db'
unfolding write_settlement settled_row
write_settlement-Touched id r q token actual cost metrics db e live eq c =
    let (account, _, c1) = or_error-then (find r.account_id db.accounts) _ _ c in
    let (posted, p, c2) =
      >>=-eq-ok (post_charge r.request_id r.account_id r.currency actual _) _ c1 in
    let facts = post_charge-Posted r.request_id r.account_id r.currency actual _ p in
    subst (λ (x : Unit {0} × Database). Touched db x.1) (ok-injective c2)
      (record {
        accounts_unique = rw facts.accounts (put-UniqueKeys r.account_id _ db.accounts);
        closed_kept =
            rw facts.reservations
              (put-closed_kept id _ db.reservations (open_only id r db.reservations e live));
        linked = λ h.
            rw (facts.reservations, facts.requests)
              (put-LinkedTo r.request_id _ db.requests _ (kept_link id r _ db e refl h));
        even = facts.even;
        keys = facts.keys;
        moves =
            rw facts.reservations
              (put_row-MovesIn id r _ db.reservations e (closes_open r.status live));
        keys_kept = rw facts.requests (put-KeysKept r.request_id _ q db.requests eq refl);
      })

pub settle-Touched :
    (id : ℕ) (usage : Usage) (db : Database) {u : Unit {0}} {db' : Database}
    → settle id usage db ≡ ok (u, db')
    → Touched db db'
settle-Touched id usage db c = elim (settle-Settled id usage db c) [
  | inl s ↦
      let w = s.settlement in
      write_settlement-Touched id s.reservation w.request w.token w.actual w.cost s.metrics db
        s.reservation_row s.live w.request_row w.written
  | inr same ↦ unchanged-Touched db same.unchanged
]

pub settle_by_model_request_id-Touched :
    (request : ℕ) (usage : Usage) (db : Database) {u : Unit {0}} {db' : Database}
    → settle_by_model_request_id request usage db ≡ ok (u, db')
    → Touched db db'
settle_by_model_request_id-Touched request usage db c =
    elim (settle_by_model_request_id-settles request usage db c) [
      | inl (id, named, s) ↦ settle-Touched id named db s
      | inr same ↦ unchanged-Touched db same
    ]

pub absent : (o : Option Reservation) → not (is_some o) ≡ true → o ≡ none
absent none h = refl
absent (some r) h = cc

none_of : (o : Option ModelRequest) → not (is_some o) ≡ true → o ≡ none
none_of none h = refl
none_of (some q) h = cc

pub new_link :
    (id : ℕ) (q : ModelRequest) (t : Table ModelRequest) → is_some (find id (put id q t)) ≡ true
new_link id q t = ground (arith, find-put id id q t)

pub write_hold-Touched :
    (id : ℕ) (account : Account) (h : Hold) (fresh : Fresh) (db : Database) {r : ℕ} {db' : Database}
    → write_hold db h fresh id account ≡ ok (r, db')
    → Touched db db'
unfolding write_hold reservation_row
write_hold-Touched id account h fresh db c =
    let (_, c1) = guard-then (covers account.balance h.quote.amount) _ _ c in
    let (unused, c2) =
      guard-then (not (is_some (find fresh.model_request_id db.requests))) _ _ c1 in
    let (_, c3) = guard-then (not (has_request_id h.request_id db.requests)) _ _ c2 in
    let (new, c4) = guard-then (not (is_some (find fresh.reservation_id db.reservations))) _ _ c3 in
    subst (λ (x : ℕ × Database). Touched db x.1) (ok-injective c4)
      (record {
        accounts_unique = put-UniqueKeys id _ db.accounts;
        closed_kept =
            put-closed_kept fresh.reservation_id _ db.reservations (λ old e. cc (rw e at new));
        linked = λ l.
            LinkedTo-put _ fresh.reservation_id _ db.reservations
              (new_link fresh.model_request_id (request_row h) db.requests)
              (put-LinkedTo fresh.model_request_id _ db.requests db.reservations l);
        even = λ h. h;
        keys = Grown.same;
        moves =
            put-MovesIn fresh.reservation_id _ db.reservations
              (rw (absent (find fresh.reservation_id db.reservations) new) Move.hold);
        keys_kept =
            put_new-KeysKept fresh.model_request_id _ db.requests
              (none_of (find fresh.model_request_id db.requests) unused);
      })

pub reserve-Touched :
    (catalog : Catalog) (fresh : Fresh) (r : Request) (db : Database) {id : ℕ} {db' : Database}
    → reserve catalog fresh r db ≡ ok (id, db')
    → Touched db db'
unfolding place_hold
reserve-Touched catalog fresh r db c =
    let admitted = reserve-Admitted catalog fresh r db c in
    let h = admitted.hold in
    let (found, _, c1) =
      or_error-then (prepaid_account db.accounts h.tenant_id h.currency) _ _ admitted.placed in
    write_hold-Touched found.0 found.1 h fresh db c1

pub Even-credit :
    (direction : Direction) (key : TransactionKey) (id : ℕ) (system : String) (amount : ℕ)
    (lines : List LedgerLine)
    → Even lines
    → Even (double_entry key id direction system (opposite direction) amount lines)
Even-credit Direction.credit key id system amount lines h = omega (arith, h)
Even-credit Direction.debit key id system amount lines h = omega (arith, h)

pub apply_credit-Touched :
    (catalog : Catalog) (fresh : ℕ) (r : CreditRequest) (db : Database) {b : ℤ} {db' : Database}
    → apply_credit catalog fresh r db ≡ ok (b, db')
    → Touched db db'
unfolding write_credit
apply_credit-Touched catalog fresh r db c =
    let credited = apply_credit-Credited catalog fresh r db c in
    rw credited.committed (record {
      keys =
          Grown.posted (TransactionKey.client_key (trim_space r.idempotency_key))
            (not-true _ credited.new_key);
      accounts_unique = put-UniqueKeys credited.id _ db.accounts;
      closed_kept = λ id r e closed. e;
      moves = λ id. Move.stay (status_of (find id db.reservations));
      linked = λ h. h;
      keys_kept = λ j key at. at;
      even =
          Even-credit credited.direction (TransactionKey.client_key (trim_space r.idempotency_key))
            credited.id (topup_account credited.currency) credited.amount db.lines;
    })
