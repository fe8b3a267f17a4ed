-- ===== src/Ledger/Admission.antt =====
-- What a successful `Reserve` of internal/billing/service.go has checked.
use Prim.Native.String.{String}
use model_bridge.Base.{not-true, ℕ, ◌≡◌, refl, some, true, false, subst, [], ◌∷◌, not, arith}
use model_bridge.Base.Tables.{Table, find, UniqueKeys}
use model_bridge.Base.Results.{ok, >>=-eq-ok, guard-then, or_error-then, ok-injective}
use model_bridge.Metering.Defs.{Decimal}
use model_bridge.Metering.Charge.{normalize_upstream_cost_discount}
use model_bridge.Metering.Modes.{normalize_metering_mode}
use model_bridge.Ledger.State.{Account, ApiToken, Database}
use model_bridge.Ledger.Quote.{
  Request, Catalog, metered, Quote, upstream_estimate, resolve_upstream_price,
  normalize_group_multiplier, valid_request,
}
use model_bridge.Ledger.Reserve.{
  Fresh, Hold, has_key, within_spend_limit, prepaid_account, place_hold, CustomerQuote,
  customer_quote, checked_quote, reserve,
}

-- The account of a hold is the row under its identifier.
pub prepaid_account-find :
    (t : Table Account) (tenant : ℕ) (currency : String) {id : ℕ} {a : Account}
    → UniqueKeys t
    → prepaid_account t tenant currency ≡ some (id, a)
    → find id t ≡ some a
unfolding prepaid_account
prepaid_account-find [] tenant currency u h = cc
prepaid_account-find ((k, b) ∷ t) tenant currency {id} {a} u h =
    ground (arith, prepaid_account-find t tenant currency {id = id} {a = a} u.1, u.0)

-- Everything that a committed reservation went through.
pub record Admitted (catalog : Catalog) (r : Request) (fresh : Fresh) (db : Database) (id : ℕ)
    (db' : Database) : Type 0 where
  pub hold : Hold
  pub row : ApiToken
  pub multiplier :
      normalize_group_multiplier r.group_multiplier r.multiplier_digits ≡ ok hold.group_multiplier
  pub discount :
      metered (normalize_upstream_cost_discount r.upstream_cost_discount)
      ≡ ok hold.upstream_cost_discount
  pub mode : metered (normalize_metering_mode r.metering_mode) ≡ ok hold.metering_mode
  pub valid : valid_request r ≡ true
  pub project : ℕ
  pub project_id : r.project_id ≡ some project
  pub tenant : r.tenant_id ≡ some hold.tenant_id
  pub new_key : has_key r.idempotency_key db.requests ≡ false
  pub key : hold.idempotency_key ≡ r.idempotency_key
  pub token : r.token_id ≡ some hold.token_id
  pub token_row : find hold.token_id db.tokens ≡ some row
  pub token_usable : row.usable ≡ true
  pub in_limit : within_spend_limit db hold.token_id row hold.quote.amount ≡ true
  pub placed : place_hold db hold fresh ≡ ok (id, db')

-- The quote that passes the spend limit keeps the amount that was checked.
checked_quote-in_limit :
    (catalog : Catalog) (r : Request) (db : Database) (token : ℕ) (row : ApiToken)
    (currency : String) (discount : Decimal) (customer : CustomerQuote) {q : Quote}
    → checked_quote catalog r db token row currency discount customer ≡ ok q
    → within_spend_limit db token row q.amount ≡ true
unfolding checked_quote
checked_quote-in_limit catalog r db token row currency discount customer h =
    let (passed, h1) = guard-then (within_spend_limit db token row customer.amount) _ _ h in
    let (upstream, _, h2) =
      >>=-eq-ok
        (metered (
          upstream_estimate r customer.price
            (resolve_upstream_price catalog customer.model currency customer.price) customer.metrics
            discount))
        _ h1 in
    subst (λ (x : Quote). within_spend_limit db token row x.amount ≡ true) (ok-injective h2) passed

pub reserve-Admitted :
    (catalog : Catalog) (fresh : Fresh) (r : Request) (db : Database) {id : ℕ} {db' : Database}
    → reserve catalog fresh r db ≡ ok (id, db')
    → Admitted catalog r fresh db id db'
unfolding reserve
reserve-Admitted catalog fresh r db h =
    let (multiplier, em, h1) =
      >>=-eq-ok (normalize_group_multiplier r.group_multiplier r.multiplier_digits) _ h in
    let (discount, ed, h2) =
      >>=-eq-ok (metered (normalize_upstream_cost_discount r.upstream_cost_discount)) _ h1 in
    let (mode, eo, h3) = >>=-eq-ok (metered (normalize_metering_mode r.metering_mode)) _ h2 in
    let (valid, h4) = guard-then (valid_request r) _ _ h3 in
    let (token, et, h5) = or_error-then r.token_id _ _ h4 in
    let (project, ep, h6) = or_error-then r.project_id _ _ h5 in
    let (tenant, en, h7) = or_error-then r.tenant_id _ _ h6 in
    let (fresh_key, h8) = guard-then (not (has_key r.idempotency_key db.requests)) _ _ h7 in
    let (row, er, h9) = or_error-then (find token db.tokens) _ _ h8 in
    let (usable, h10) = guard-then row.usable _ _ h9 in
    let (currency, _, h11) = or_error-then (catalog.tenant_currency tenant) _ _ h10 in
    let (customer, _, h12) =
      >>=-eq-ok (customer_quote catalog r token project tenant currency mode multiplier) _ h11 in
    let (quote, eq, h13) =
      >>=-eq-ok (checked_quote catalog r db token row currency discount customer) _ h12 in
    let hold : Hold = record {
      token_id = token;
      tenant_id = tenant;
      currency = currency;
      request_id = r.request_id;
      project_id = project;
      model_id = customer.model;
      channel_id = r.channel_id;
      idempotency_key = r.idempotency_key;
      group_multiplier = multiplier;
      metering_mode = mode;
      metering_price = r.metering_price;
      upstream_cost_discount = discount;
      pricing_tier = r.pricing_tier;
      quote = quote;
    } in
    record {
      hold = hold;
      row = row;
      multiplier = em;
      discount = ed;
      mode = eo;
      valid = valid;
      project = project;
      project_id = ep;
      tenant = en;
      new_key = not-true (has_key r.idempotency_key db.requests) fresh_key;
      key = refl;
      token = et;
      token_row = er;
      token_usable = usable;
      in_limit = checked_quote-in_limit catalog r db token row currency discount customer eq;
      placed = h13;
    }
