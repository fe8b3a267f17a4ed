-- ===== src/Ledger/Effects.antt =====
-- The money that `Settle` of internal/billing/service.go moves.
use model_bridge.Base.{ℕ, ◌+◌, ◌-◌, ◌≡◌, refl, ap, subst, some, true, arith, inl, inr}
use model_bridge.Base.Int.{pos, ◌+ℤ◌, ◌-ℤ◌}
use model_bridge.Base.Tables.{Table, find, put, find-put}
use model_bridge.Base.Results.{ok, or_error-then, ok-injective, >>=-eq-ok}
use model_bridge.Metering.Defs.{Quantities}
use model_bridge.Ledger.State.{
  Account, Reservation, ReservationStatus, ModelRequest, ApiToken, Database, is_open,
}
use model_bridge.Ledger.Posting.{post_charge}
use model_bridge.Metering.Usage.{normalize_metered_usage}
use model_bridge.Ledger.Reported.{Usage, normalize_usage, usage_metrics_for}
use model_bridge.Ledger.Settle.{
  settlement_pricing_tier, customer_charge, or_invalid, settle, settled_row, write_settlement,
}
use model_bridge.Ledger.Settlement.{Settlement, settle-Settled}
use model_bridge.Ledger.Reconcile.Books.{balance_in}
use model_bridge.Ledger.Reconcile.Charges.{post_charge-Posted}

-- One amount, the customer's charge, in the four rows of a settlement.
pub record Charged (usage : Usage) (r : Reservation) (id : ℕ) (db db' : Database) : Type 0 where
  pub request : ModelRequest
  pub token : ApiToken
  pub account : Account
  pub metrics : Quantities
  pub actual : ℕ
  -- The metrics are those that the call reports, normalised.
  pub metrics_reported :
      or_invalid (normalize_metered_usage (usage_metrics_for (normalize_usage usage))) ≡ ok metrics
  pub request_row : find r.request_id db.requests ≡ some request
  pub token_row : find request.token_id db.tokens ≡ some token
  pub account_row : find r.account_id db.accounts ≡ some account
  pub charge :
      customer_charge request metrics r.estimated_metrics
        (settlement_pricing_tier request.pricing_tier (normalize_usage usage).pricing_tier)
      ≡ ok actual
  pub balance :
      balance_in r.account_id db'.accounts ≡ account.balance +ℤ pos r.reserved_amount -ℤ pos actual
  pub spent :
      find request.token_id db'.tokens
      ≡ some (record token { spent_amount = token.spent_amount + actual })
  pub reservation :
      find id db'.reservations
      ≡ some (record r {
        settled_amount = actual;
        released_amount = r.reserved_amount - actual;
        status = ReservationStatus.settled;
      })

find-put_same : {V : Type 0} (k : ℕ) (v : V) (t : Table V) → find k (put k v t) ≡ some v
find-put_same k v t = ground (arith, find-put k k v t)

balance_in-put_same :
    (id : ℕ) (row : Account) (t : Table Account) → balance_in id (put id row t) ≡ row.balance
balance_in-put_same id row t = rw (find-put_same id row t, balance_in) refl

Settlement-Charged :
    (id : ℕ) (r : Reservation) (usage : Usage) (metrics : Quantities) (db : Database) {u : Unit {0}}
    {db' : Database}
    → or_invalid (normalize_metered_usage (usage_metrics_for (normalize_usage usage))) ≡ ok metrics
    → Settlement id r (normalize_usage usage) metrics db u db'
    → Charged usage r id db db'
unfolding write_settlement settled_row
Settlement-Charged id r usage metrics db reported s =
    let (account, f, c1) = or_error-then (find r.account_id db.accounts) _ _ s.written in
    let (posted, p, c2) =
      >>=-eq-ok (post_charge r.request_id r.account_id r.currency s.actual _) _ c1 in
    let facts = post_charge-Posted r.request_id r.account_id r.currency s.actual _ p in
    let same = ok-injective c2 in
    record {
      request = s.request;
      token = s.token;
      account = account;
      metrics = metrics;
      metrics_reported = reported;
      actual = s.actual;
      request_row = s.request_row;
      token_row = s.token_row;
      account_row = f;
      charge = s.charge;
      balance =
          subst
            (λ (x : Unit {0} × Database).
              balance_in r.account_id x.1.accounts
              ≡ account.balance +ℤ pos r.reserved_amount -ℤ pos s.actual)
            same (rw facts.accounts (balance_in-put_same r.account_id _ db.accounts));
      spent =
          subst
            (λ (x : Unit {0} × Database).
              find s.request.token_id x.1.tokens
              ≡ some (record s.token { spent_amount = s.token.spent_amount + s.actual }))
            same (rw facts.tokens (find-put_same s.request.token_id _ db.tokens));
      reservation =
          subst
            (λ (x : Unit {0} × Database).
              find id x.1.reservations
              ≡ some (record r {
                settled_amount = s.actual;
                released_amount = r.reserved_amount - s.actual;
                status = ReservationStatus.settled;
              }))
            same (find-put_same id _ posted.reservations);
    }

-- A committed settlement of a held or pending reservation charges one amount, what
-- `customer_charge` gives for the metrics that the call reports, normalised, with the estimate of
-- the reservation and the price and the tier of the request: it replaces the
-- hold in the balance, it is added to what the token has spent, and it is the settled amount of the
-- reservation, whose released amount is the rest of the hold.
pub settle-Charged :
    (id : ℕ) (usage : Usage) (r : Reservation) (db : Database)
    → find id db.reservations ≡ some r
    → is_open r.status ≡ true
    → {u : Unit {0}} {db' : Database} → settle id usage db ≡ ok (u, db')
    → Charged usage r id db db'
settle-Charged id usage r db e live {u} {db'} c = elim (settle-Settled id usage db c) [
  | inl s ↦
      let same : s.reservation ≡ r = cc (s.reservation_row, e) in
      subst (λ x. Charged usage x id db db') same
        (Settlement-Charged id s.reservation usage s.metrics db s.metrics_reported s.settlement)
  | inr s ↦
      let same : s.reservation ≡ r = cc (s.reservation_row, e) in
      cc (live, ap is_open (rw same at s.is_settled))
]
