-- ===== src/Ledger/Limits.antt =====
-- What a committed `Reserve` of internal/billing/service.go guarantees: the hold is covered, and
-- the token stays within its spend limit.
use model_bridge.Base.{
  ℕ, ◌+◌, ◌*◌, ◌≤◌, ◌≡◌, ◌≢◌, refl, Option, eqb→eq, [], ◌∷◌, some, none, true, is_some, not, ◌==◌,
  arith, sym, ap, Bool-cases, inl, inr,
}
use model_bridge.Base.Int.{ℤ, pos, negsuc, ◌+ℤ◌, ◌≤ℤ◌}
use model_bridge.Base.Tables.{Table, find, put, find-put, total, total-put_new, UniqueKeys}
use model_bridge.Base.Results.{ok, guard-then, or_error-then, ok-injective}
use model_bridge.Ledger.State.{
  Account, ApiToken, Reservation, ReservationStatus, ModelRequest, Database,
}
use model_bridge.Ledger.Quote.{Catalog, Request}
use model_bridge.Ledger.Reserve.{
  has_request_id, Fresh, Hold, micro, stored, covers, after_hold, prepaid_account, reservation_row,
  request_row, write_hold, place_hold, reserve, pending_for, pending_amount, within_spend_limit,
}
use model_bridge.Ledger.Links.{Linked, LinkedTo}
use model_bridge.Ledger.Admission.{prepaid_account-find, reserve-Admitted}
use model_bridge.Ledger.Reconcile.Books.{balance_in, balance_in-put}
use model_bridge.Ledger.Reconcile.Holds.{after_hold-stored}

-- The writes of a committed hold.
pub record Placed (h : Hold) (fresh : Fresh) (db : Database) (id : ℕ) (db' : Database)
    : Type 0 where
  pub account_id : ℕ
  pub account : Account
  pub account_row : prepaid_account db.accounts h.tenant_id h.currency ≡ some (account_id, account)
  pub covered : covers account.balance h.quote.amount ≡ true
  pub new_request : find fresh.model_request_id db.requests ≡ none
  pub new_reservation : find fresh.reservation_id db.reservations ≡ none
  pub is_fresh : id ≡ fresh.reservation_id
  pub committed : db' ≡ record db {
    accounts =
        put account_id
          (record account { balance = after_hold account.balance h.quote.amount })
          db.accounts;
    requests = put fresh.model_request_id (request_row h) db.requests;
    reservations = put fresh.reservation_id (reservation_row h fresh account_id) db.reservations;
  }

absent : {A : Type 0} (o : Option A) → not (is_some o) ≡ true → o ≡ none
absent none h = refl
absent (some a) h = cc

pub place_hold-Placed :
    (h : Hold) (fresh : Fresh) (db : Database) {id : ℕ} {db' : Database}
    → place_hold db h fresh ≡ ok (id, db')
    → Placed h fresh db id db'
unfolding place_hold write_hold
place_hold-Placed h fresh db c =
    let (found, e, c0) = or_error-then (prepaid_account db.accounts h.tenant_id h.currency) _ _ c in
    let (enough, c1) = guard-then (covers found.1.balance h.quote.amount) _ _ c0 in
    let (nq, c2) = guard-then (not (is_some (find fresh.model_request_id db.requests))) _ _ c1 in
    let (_, c3) = guard-then (not (has_request_id h.request_id db.requests)) _ _ c2 in
    let (nr, c4) = guard-then (not (is_some (find fresh.reservation_id db.reservations))) _ _ c3 in
    let same = ok-injective c4 in
    record {
      account_id = found.0;
      account = found.1;
      account_row = e;
      covered = enough;
      new_request = absent (find fresh.model_request_id db.requests) nq;
      new_reservation = absent (find fresh.reservation_id db.reservations) nr;
      is_fresh = sym (ap (λ (x : ℕ × Database). x.0) same);
      committed = sym (ap (λ (x : ℕ × Database). x.1) same);
    }

find-kept :
    (j id : ℕ) (q : ModelRequest) (t : Table ModelRequest)
    → find id t ≡ none
    → is_some (find j t) ≡ true
    → find j (put id q t) ≡ find j t
find-kept j id q t e h = elim (Bool-cases (j == id)) [
  | inl same ↦ cc (rw (eqb→eq j id same, e) at h)
  | inr other ↦ rw (find-put id j q t, other) refl
]

-- A request that is new is none of a linked reservation's.
pending-new :
    (token id : ℕ) (q : ModelRequest) (requests : Table ModelRequest) (t : Table Reservation)
    → find id requests ≡ none
    → LinkedTo requests t
    → total (pending_for (put id q requests) token) t ≡ total (pending_for requests token) t
pending-new token id q requests [] e h = refl
pending-new token id q requests ((k, r) ∷ t) e h =
    rw
      (
        find-kept r.request_id id q requests e h.0,
        pending_for,
        pending-new token id q requests t e h.1,
      )
      refl

-- A whole number of stored units bounds the stored amount too.
stored-le : (n limit exact : ℕ) → n * micro + exact ≤ limit * micro → n + stored exact ≤ limit
unfolding stored
stored-le n limit exact h = omega (arith, h)

within-le :
    (db : Database) (token : ℕ) (row : ApiToken) (exact : ℕ)
    → within_spend_limit db token row exact ≡ true
    → row.spend_limit ≢ 0
    → row.spent_amount + pending_amount db token + stored exact ≤ row.spend_limit
unfolding within_spend_limit
within-le db token row exact h limited =
    stored-le (row.spent_amount + pending_amount db token) row.spend_limit exact
      (ground (arith, h, limited))

-- The new reservation counts against its token's limit.
pending_amount-hold :
    (h : Hold) (fresh : Fresh) (db : Database) {id : ℕ} {db' : Database}
    → Linked db
    → Placed h fresh db id db'
    → pending_amount db' h.token_id ≡ pending_amount db h.token_id + stored h.quote.amount
unfolding pending_amount reservation_row request_row
pending_amount-hold h fresh db linked p =
    let row = reservation_row h fresh p.account_id in
    let requests = put fresh.model_request_id (request_row h) db.requests in
    let own : pending_for requests h.token_id row ≡ stored h.quote.amount =
      ground (
        arith,
        find-put fresh.model_request_id fresh.model_request_id (request_row h) db.requests,
      ) in
    rw p.committed (
      omega (
        arith,
        own,
        total-put_new (pending_for requests h.token_id) fresh.reservation_id row db.reservations
            p.new_reservation,
        pending-new h.token_id fresh.model_request_id (request_row h) db.requests db.reservations
            p.new_request linked,
      ))

after_hold_nonneg : (b : ℤ) (exact : ℕ) → covers b exact ≡ true → pos 0 ≤ℤ after_hold b exact
unfolding covers after_hold
after_hold_nonneg (pos b) exact h = omega arith
after_hold_nonneg (negsuc n) exact h = cc

balance_after :
    (id : ℕ) (b : ℤ) (exact : ℕ) (account : Account) (t : Table Account)
    → covers b exact ≡ true
    → balance_in id t ≡ b
    → let b' = balance_in id (put id (record account { balance = after_hold b exact }) t) in
      (pos 0 ≤ℤ b')
      × (balance_in id t ≤ℤ b' +ℤ pos (stored exact))
      × (b' +ℤ pos (stored exact) ≤ℤ balance_in id t +ℤ pos 1)
balance_after id b exact account t enough e =
    let paid : Account = record account { balance = after_hold b exact } in
    let kept : balance_in id (put id paid t) ≡ after_hold b exact =
      ground (arith, balance_in-put id id paid t) in
    let (lower, upper) = after_hold-stored b exact enough in
    rw (kept, e) (after_hold_nonneg b exact enough, lower, upper)

-- Where a reservation commits for a token with a spend limit, in a database whose reservations all
-- have their requests, what the token has spent and what its open reservations set aside, the new
-- one included, stay within the limit.
pub reserve-within_limit :
    (catalog : Catalog) (fresh : Fresh) (r : Request) (db : Database) (token : ℕ) (row : ApiToken)
    → Linked db
    → r.token_id ≡ some token
    → find token db.tokens ≡ some row
    → row.spend_limit ≢ 0
    → {id : ℕ} {db' : Database} → reserve catalog fresh r db ≡ ok (id, db')
    → row.spent_amount + pending_amount db' token ≤ row.spend_limit
reserve-within_limit catalog fresh r db token row linked e f limited c =
    let a = reserve-Admitted catalog fresh r db c in
    let same : a.hold.token_id ≡ token = cc (a.token, e) in
    let its : a.row ≡ row = cc (a.token_row, same, f) in
    let grown =
      pending_amount-hold a.hold fresh db linked (place_hold-Placed a.hold fresh db a.placed) in
    let within =
      within-le db a.hold.token_id a.row a.hold.quote.amount a.in_limit (rw its limited) in
    omega (arith, rw same at grown, rw (same, its) at within)

-- A committed reservation is held, its account is not overdrawn, and the account's balance and the
-- amount set aside add up to the balance before, or one unit of 10^-30 more; where no account is
-- in two rows.
pub reserve-covered :
    (catalog : Catalog) (fresh : Fresh) (r : Request) (db : Database)
    → UniqueKeys db.accounts
    → {id : ℕ} {db' : Database} → reserve catalog fresh r db ≡ ok (id, db')
    → (row : Reservation) × (find id db'.reservations ≡ some row)
      × (row.status ≡ ReservationStatus.held)
      × (pos 0 ≤ℤ balance_in row.account_id db'.accounts)
      × (balance_in row.account_id db.accounts
          ≤ℤ balance_in row.account_id db'.accounts +ℤ pos row.reserved_amount)
      × (balance_in row.account_id db'.accounts +ℤ pos row.reserved_amount
          ≤ℤ balance_in row.account_id db.accounts +ℤ pos 1)
unfolding reservation_row
reserve-covered catalog fresh r db unique c =
    let a = reserve-Admitted catalog fresh r db c in
    let p = place_hold-Placed a.hold fresh db a.placed in
    let row = reservation_row a.hold fresh p.account_id in
    let found : balance_in p.account_id db.accounts ≡ p.account.balance =
      rw
        (
          prepaid_account-find db.accounts a.hold.tenant_id a.hold.currency unique p.account_row,
          balance_in,
        )
        refl in
    let left =
      balance_after p.account_id p.account.balance a.hold.quote.amount p.account db.accounts
        p.covered found in
    rw (p.is_fresh, p.committed)
      (
        row,
        ground (arith, find-put fresh.reservation_id fresh.reservation_id row db.reservations),
        refl,
        left.0,
        left.1,
        left.2,
      )
