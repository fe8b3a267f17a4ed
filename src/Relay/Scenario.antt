-- ===== src/Relay/Scenario.antt =====
-- Channels, a provider and the ledger as the biller, for the examples of internal/relay.
use Prim.Native.String.{String}
use model_bridge.Base.{ℕ, ◌-◌, List, [], ◌∷◌, some, true, false, if◌then◌else◌}
use model_bridge.Base.Int.{pos}
use model_bridge.Base.Texts.{str_eq}
use model_bridge.Relay.Channels.{Channel}
use model_bridge.Base.Results.{Result, ok, err}
use model_bridge.Ledger.State.{BillingError, Database}
use model_bridge.Ledger.Scenario.{catalog, fresh, request}
use model_bridge.Relay.Errors.{RelayError}
use model_bridge.Relay.Biller.{Biller}
use model_bridge.Relay.Answers.{ChatResponse}
use model_bridge.Relay.Attempts.{Line, no_usage}
use model_bridge.Relay.Books.{billing_service}

abbrev pub channel : String → ℕ → ℕ → Channel
channel id priority weight = record {
  id = id;
  provider = "openai";
  base_url = "https://example.com";
  upstream_model_name = "m";
  model_name = "m";
  credential_ref = "vault";
  priority = pos priority;
  weight = pos weight;
}

abbrev pub candidates : List Channel
candidates = channel "a" 9 1 ∷ channel "b" 5 3 ∷ channel "c" 5 7 ∷ []

-- A source of numbers that takes the last of each range.
abbrev pub last_of : ℕ → ℕ
last_of n = n - 1

abbrev pub answer : ChatResponse
answer = record {
  id = "chatcmpl-1";
  object = "chat.completion";
  created = 1000;
  model = "m";
  choices = [];
  usage = record no_usage { prompt_tokens = pos 12; completion_tokens = pos 3 };
}

-- The first provider that is asked is down; the others answer.
abbrev pub ask : Channel → String → Result RelayError ChatResponse
ask c key = if str_eq c.id "a" then err (RelayError.upstream 503 true) else ok answer

abbrev pub line : Line
line = record {
  provider = λ name. some ask;
  resolve = λ reference. ok "key";
  cancelled = λ c. false;
  billing_enabled = true;
  records_free = true;
  can_estimate = true;
  estimated_input = 10;
  estimate_response = λ r. 4;
  model = "m";
  service_tier = "";
  new_id = "chatcmpl-0";
  unix = 1000;
}

-- A billing service without rebinding and free requests.
abbrev pub others : Biller Database
others = record {
  reserve = λ c db. err BillingError.invalid_request;
  rebind = λ id c db. ok (tt, db);
  can_settle = λ id db. ok false;
  settle = λ id usage db. err BillingError.invalid_request;
  mark_pending = λ id reason db. err BillingError.invalid_request;
  mark_pending_with_usage = λ id reason usage db. err BillingError.invalid_request;
  fail = λ id reason db. err BillingError.invalid_request;
  start_free = λ c db. err BillingError.invalid_request;
  rebind_free = λ id c db. err BillingError.invalid_request;
  complete_free = λ id usage db. err BillingError.invalid_request;
  fail_free = λ id reason db. err BillingError.invalid_request;
}

abbrev pub biller : Biller Database
biller = billing_service catalog fresh (λ c. request) (λ c. 5) others
