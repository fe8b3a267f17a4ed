-- ===== src/Ledger/Touched.antt =====
-- What a commit of internal/billing/service.go may touch: open reservations, and accounts by
-- their identifier.
use model_bridge.Base.{
  ℕ, ◌≡◌, subst, sym, some, true, false, inl, inr, ◌==◌, eqb→eq, Bool-cases, Option-cases,
}
use model_bridge.Base.Tables.{Table, find, put, find-put, UniqueKeys}
use model_bridge.Base.Results.{ok, ok-injective}
use model_bridge.Ledger.State.{Reservation, ModelRequest, Database, Committed, is_open}
use model_bridge.Ledger.Release.{update_request}
use model_bridge.Ledger.Keys.{Grown}
use model_bridge.Ledger.Links.{Linked, LinkedTo, LinkedTo-find, LinkedTo-put, put-LinkedTo, Even}
use model_bridge.Ledger.Lifecycle.{Move, MovesIn, status_of}
use model_bridge.Ledger.Known.{KeysKept, put-KeysKept}

pub record Touched (db db' : Database) : Type 0 where
  -- No account is in two rows afterwards if none was before.
  pub accounts_unique : UniqueKeys db.accounts → UniqueKeys db'.accounts
  -- A reservation that is closed stays exactly as it is.
  pub closed_kept :
      (id : ℕ) (r : Reservation)
      → find id db.reservations ≡ some r
      → is_open r.status ≡ false
      → find id db'.reservations ≡ some r
  -- Every reservation keeps its request, and the ledger its double entries.
  pub linked : Linked db → Linked db'
  pub even : Even db.lines → Even db'.lines
  -- A transaction is added under a new key, and none goes.
  pub keys : Grown db.transactions db'.transactions
  -- Each reservation moves along the graph of its life, or stays.
  pub moves : MovesIn db.reservations db'.reservations
  -- Every request keeps its idempotency key.
  pub keys_kept : KeysKept db.requests db'.requests

pub unchanged-Touched :
    (db : Database) {u : Unit {0}} {db' : Database}
    → ◌≡◌ {A = Committed (Unit {0})} (ok (tt, db)) (ok (u, db'))
    → Touched db db'
unchanged-Touched db c =
    subst (λ (x : Unit {0} × Database). Touched db x.1) (ok-injective c)
      (record {
        accounts_unique = λ u. u;
        closed_kept = λ id r e closed. e;
        linked = λ h. h;
        even = λ h. h;
        keys = Grown.same;
        moves = λ id. Move.stay (status_of (find id db.reservations));
        keys_kept = λ id key at. at;
      })

-- A write to an open row, or of a new one, leaves the closed ones.
pub put-closed_kept :
    (j : ℕ) (row : Reservation) (t : Table Reservation)
    → ((old : Reservation) → find j t ≡ some old → is_open old.status ≡ true)
    → (id : ℕ) (r : Reservation) → find id t ≡ some r
    → is_open r.status ≡ false
    → find id (put j row t) ≡ some r
put-closed_kept j row t was_open id r e closed = elim (Bool-cases (id == j)) [
  | inl same ↦ cc (was_open r (rw (sym (eqb→eq id j same)) e), closed)
  | inr other ↦ rw (find-put j id row t, other) e
]

pub update_request-Touched :
    (id : ℕ) (f : ModelRequest → ModelRequest) (db db' : Database)
    → ((q : ModelRequest) → (f q).idempotency_key ≡ q.idempotency_key)
    → Touched db db'
    → Touched db (update_request id f db')
update_request-Touched id f db db' same h = elim (Option-cases (find id db'.requests)) [
  | inl e ↦ rw (e, update_request) h
  | inr (q, e) ↦
      rw (e, update_request)
        (record {
          accounts_unique = h.accounts_unique;
          closed_kept = h.closed_kept;
          linked = λ l. put-LinkedTo id (f q) db'.requests db'.reservations (h.linked l);
          even = h.even;
          keys = h.keys;
          moves = h.moves;
          keys_kept = λ j key at.
              put-KeysKept id (f q) q db'.requests e (same q) j key (h.keys_kept j key at);
        })
]

pub open_only :
    (id : ℕ) (r : Reservation) (t : Table Reservation)
    → find id t ≡ some r
    → is_open r.status ≡ true
    → (old : Reservation) → find id t ≡ some old
    → is_open old.status ≡ true
open_only id r t e o old e' = cc

pub kept_link :
    (id : ℕ) (r row : Reservation) (db : Database)
    → find id db.reservations ≡ some r
    → row.request_id ≡ r.request_id
    → Linked db
    → LinkedTo db.requests (put id row db.reservations)
kept_link id r row db e same h =
    LinkedTo-put db.requests id row db.reservations
      (rw same (LinkedTo-find db.requests id r db.reservations e h)) h
