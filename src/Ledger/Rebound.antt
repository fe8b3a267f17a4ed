-- ===== src/Ledger/Rebound.antt =====
-- A rebinding of internal/billing/service.go, and the opening of an account, touch no more than
-- `Touched` says.
use Prim.Native.String.{String}
use model_bridge.Base.{
  ℕ, ◌≡◌, ◌⊎◌, [], ◌∷◌, ◌==◌, refl, subst, some, true, Bool-cases, Option-cases, Option, inl, inr,
  not, arith,
}
use model_bridge.Base.Int.{pos, ◌+ℤ◌}
use model_bridge.Base.Tables.{Table, find, put, put-UniqueKeys, UniqueKeys}
use model_bridge.Base.Texts.{str_eq}
use model_bridge.Base.Results.{ok, ok-injective, guard-then, or_error-then, >>=-eq-ok}
use model_bridge.Ledger.State.{Account, Reservation, ModelRequest, Database, Committed, is_open}
use model_bridge.Ledger.Quote.{Catalog, ChannelTarget, Quote, metered, resolve_upstream_price}
use model_bridge.Ledger.Reserve.{covers}
use model_bridge.Ledger.Settle.{settlement_price}
use model_bridge.Ledger.Release.{is_live}
use model_bridge.Ledger.Credit.{account_of, ensure_prepaid_account}
use model_bridge.Ledger.Rebind.{
  upstream_estimates, rebound_cost_at, rebind_same_model, rebind_quote, rebound_row,
  rebound_request, write_rebind, rebind_other_model, rebind_open, rebind_reservation_channel,
}
use model_bridge.Ledger.Reconcile.Books.{balance_in}
use model_bridge.Ledger.Statuses.{by_status-eq-ok}
use model_bridge.Ledger.Keys.{Grown}
use model_bridge.Ledger.Links.{put-LinkedTo}
use model_bridge.Ledger.Known.{put-KeysKept}
use model_bridge.Ledger.Lifecycle.{Move, status_of, put_row-MovesIn}
use model_bridge.Ledger.Touched.{
  Touched, unchanged-Touched, put-closed_kept, update_request-Touched, open_only, kept_link,
}

-- A rebinding at the same model writes a request and nothing else.
pub record Rechannelled (r : Reservation) (db db' : Database) : Type 0 where
  pub old : ModelRequest
  pub old_row : find r.request_id db.requests ≡ some old
  pub row : ModelRequest
  pub same_key : row.idempotency_key ≡ old.idempotency_key
  pub written : db' ≡ record db { requests = put r.request_id row db.requests }

pub rebind_same_model-Rechannelled :
    (catalog : Catalog) (channel : ℕ) (target : ChannelTarget) (r : Reservation) (q : ModelRequest)
    (db : Database) {u : Unit {0}} {db' : Database}
    → find r.request_id db.requests ≡ some q
    → rebind_same_model catalog channel target r q db ≡ ok (u, db')
    → Rechannelled r db db'
unfolding rebind_same_model
rebind_same_model-Rechannelled catalog channel target r q db {u} {db'} found c =
    let (price, _, c1) = >>=-eq-ok (metered (settlement_price q)) _ c in
    let upstream = resolve_upstream_price catalog target.model_id r.currency price in
    let (cost, _, c2) =
      >>=-eq-ok
        (metered (
          rebound_cost_at upstream (upstream_estimates r) target.upstream_cost_discount
            q.pricing_tier))
        _ c1 in
    let (_, c3) = guard-then (is_live q.status) _ _ c2 in
    subst (λ (x : Unit {0} × Database). Rechannelled r db x.1) (ok-injective c3)
      (record { old = q; old_row = found; row = _; same_key = refl; written = refl })

-- A rebinding at another model has a quote, and an account that covers it.
pub record Requoted (id channel : ℕ) (target : ChannelTarget) (r : Reservation) (db : Database)
    (u : Unit {0}) (db' : Database) : Type 0 where
  pub quote : Quote
  pub written : write_rebind id channel target r quote db ≡ ok (u, db')

-- What a rebinding of an open reservation that commits has done.
pub record Rebound (id channel : ℕ) (db : Database) (u : Unit {0}) (db' : Database) : Type 0 where
  pub reservation : Reservation
  pub reservation_row : find id db.reservations ≡ some reservation
  pub live : is_open reservation.status ≡ true
  pub done :
      Rechannelled reservation db db'
      ⊎ ((target : ChannelTarget) × Requoted id channel target reservation db u db')

-- A rebinding that commits rebinds an open reservation, or finds it settled and does nothing.
pub rebind_reservation_channel-Rebound :
    (catalog : Catalog) (id channel : ℕ) (db : Database) {u : Unit {0}} {db' : Database}
    → rebind_reservation_channel catalog id channel db ≡ ok (u, db')
    → Rebound id channel db u db' ⊎ (◌≡◌ {A = Committed (Unit {0})} (ok (tt, db)) (ok (u, db')))
unfolding rebind_reservation_channel rebind_open rebind_other_model
rebind_reservation_channel-Rebound catalog id channel db {u} {db'} c =
    let (r, e, c1) = or_error-then (find id db.reservations) _ _ c in
    let (q, found, c2) = or_error-then (find r.request_id db.requests) _ _ c1 in
    let (target, _, c3) = or_error-then (catalog.channel_target channel q.model_id) _ _ c2 in
    elim (by_status-eq-ok r.status _ _ c3) [
      | inr (_, same) ↦ inr same
      | inl (live, c4) ↦ elim (Bool-cases (target.model_id == q.model_id)) [
        | inl kept ↦ inl (record {
          reservation = r;
          reservation_row = e;
          live = live;
          done = inl (
              rebind_same_model-Rechannelled catalog channel target r q db found
                (rw (kept, rebind_open) at c4));
        })
        | inr other ↦
            let (quote, _, c5) =
              >>=-eq-ok (rebind_quote catalog target r q) _ (rw (other, rebind_open) at c4) in
            inl (record {
              reservation = r;
              reservation_row = e;
              live = live;
              done = inr (target, record { quote = quote; written = c5 });
            })
      ]
    ]

rebound_request-key :
    (channel : ℕ) (target : ChannelTarget) (quote : Quote) (q : ModelRequest)
    → (rebound_request channel target quote q).idempotency_key ≡ q.idempotency_key
rebound_request-key channel target quote q = elim (Bool-cases (is_live q.status)) [
  | inl live ↦ rw live refl
  | inr closed ↦ rw closed refl
]

write_rebind-Touched :
    (id channel : ℕ) (target : ChannelTarget) (r : Reservation) (quote : Quote) (db : Database)
    {u : Unit {0}} {db' : Database}
    → find id db.reservations ≡ some r
    → is_open r.status ≡ true
    → write_rebind id channel target r quote db ≡ ok (u, db')
    → Touched db db'
unfolding write_rebind rebound_row
write_rebind-Touched id channel target r quote db e live c =
    let (account, _, c1) = or_error-then (find r.account_id db.accounts) _ _ c in
    let (_, c2) =
      guard-then (covers (account.balance +ℤ pos r.reserved_amount) quote.amount) _ _ c1 in
    subst (λ (x : Unit {0} × Database). Touched db x.1) (ok-injective c2)
      (update_request-Touched r.request_id _ db _ (rebound_request-key channel target quote)
        (record {
          accounts_unique = put-UniqueKeys r.account_id _ db.accounts;
          closed_kept =
              put-closed_kept id _ db.reservations (open_only id r db.reservations e live);
          linked = kept_link id r _ db e refl;
          even = λ h. h;
          keys = Grown.same;
          moves = put_row-MovesIn id r _ db.reservations e (Move.stay (some r.status));
          keys_kept = λ j key at. at;
        }))

pub rebind_reservation_channel-Touched :
    (catalog : Catalog) (id channel : ℕ) (db : Database) {u : Unit {0}} {db' : Database}
    → rebind_reservation_channel catalog id channel db ≡ ok (u, db')
    → Touched db db'
rebind_reservation_channel-Touched catalog id channel db c =
    elim (rebind_reservation_channel-Rebound catalog id channel db c) [
      | inr same ↦ unchanged-Touched db same
      | inl b ↦ elim b.done [
        | inr (target, w) ↦
            write_rebind-Touched id channel target b.reservation w.quote db b.reservation_row b.live
              w.written
        | inl w ↦ rw w.written (record {
          accounts_unique = λ u. u;
          closed_kept = λ j row e closed. e;
          linked = put-LinkedTo b.reservation.request_id w.row db.requests db.reservations;
          even = λ h. h;
          keys = Grown.same;
          keys_kept =
              put-KeysKept b.reservation.request_id w.row w.old db.requests w.old_row w.same_key;
          moves = λ j. Move.stay (status_of (find j db.reservations));
        })
      ]
    ]

-- An account that is opened, or made active again.
pub record Ensured (db db' : Database) : Type 0 where
  pub id : ℕ
  pub row : Account
  pub written : db' ≡ record db { accounts = put id row db.accounts }
  pub balance : UniqueKeys db.accounts → balance_in id db.accounts ≡ row.balance

account_of-balance :
    (t : Table Account) (tenant : ℕ) (currency : String) {id : ℕ} {a : Account}
    → UniqueKeys t
    → account_of t tenant currency ≡ some (id, a)
    → find id t ≡ some a
unfolding account_of
account_of-balance [] tenant currency u h = cc
account_of-balance ((k, b) ∷ t) tenant currency {id} {a} u h =
    ground (arith, account_of-balance t tenant currency {id = id} {a = a} u.1, u.0)

pub ensure_prepaid_account-Ensured :
    (fresh : ℕ) (tenant_id : Option ℕ) (currency : String) (db : Database) {id : ℕ} {db' : Database}
    → ensure_prepaid_account fresh tenant_id currency db ≡ ok (id, db')
    → Ensured db db'
unfolding ensure_prepaid_account
ensure_prepaid_account-Ensured fresh tenant_id currency db {id} {db'} c =
    let (tenant, _, c1) = or_error-then tenant_id _ _ c in
    let (_, c2) = guard-then (not (str_eq currency "")) _ _ c1 in
    elim (Option-cases (account_of db.accounts tenant currency)) [
      | inr ((k, a), e) ↦
          subst (λ (x : ℕ × Database). Ensured db x.1) (ok-injective (rw e at c2))
            (record {
              id = k;
              row = record a { active = true };
              written = refl;
              balance =
                  λ u. rw (account_of-balance db.accounts tenant currency u e, balance_in) refl;
            })
      | inl e ↦ elim (Option-cases (find fresh db.accounts)) [
        | inr (a, taken) ↦ cc (rw (e, taken) at c2)
        | inl free ↦
            subst (λ (x : ℕ × Database). Ensured db x.1) (ok-injective (rw (e, free) at c2))
              (record {
                id = fresh;
                row = record {
                  tenant_id = tenant;
                  currency = currency;
                  active = true;
                  balance = pos 0;
                };
                written = refl;
                balance = λ u. rw (free, balance_in) refl;
              })
      ]
    ]

pub ensure_prepaid_account-Touched :
    (fresh : ℕ) (tenant_id : Option ℕ) (currency : String) (db : Database) {id : ℕ} {db' : Database}
    → ensure_prepaid_account fresh tenant_id currency db ≡ ok (id, db')
    → Touched db db'
ensure_prepaid_account-Touched fresh tenant_id currency db c =
    let w = ensure_prepaid_account-Ensured fresh tenant_id currency db c in
    rw w.written (record {
      accounts_unique = put-UniqueKeys w.id w.row db.accounts;
      closed_kept = λ j row e closed. e;
      linked = λ h. h;
      even = λ h. h;
      keys = Grown.same;
      keys_kept = λ j key at. at;
      moves = λ j. Move.stay (status_of (find j db.reservations));
    })
