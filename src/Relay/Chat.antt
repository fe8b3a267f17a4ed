-- ===== src/Relay/Chat.antt =====
-- `ChatCompletions` of internal/relay/types.go.
use Prim.Native.String.{String}
use model_bridge.Base.{
  ℕ, zero, suc, List, [], ◌∷◌, Bool, false, ◌&&◌, ◌||◌, not, ltb, ◌==◌, if◌then◌else◌, Option, none,
  some, or_else, length,
}
use model_bridge.Base.Texts.{str_eq, trim_space}
use model_bridge.Base.Results.{Result, ok, err, ◌>>=◌, ◌>>◌, guard, or_error}
use model_bridge.Relay.Channels.{Channel, pick_weighted_channel}
use model_bridge.Relay.Errors.{RelayError}
use model_bridge.Relay.Biller.{Biller}
use model_bridge.Relay.Answers.{ChatResponse}
use model_bridge.Relay.Attempts.{Line, Progress, Next, try_channel}

-- How the loop ends: the fuel is spent, the loop is left, or the call returns.
pub data Stop : Type 0 where
  out_of_fuel leaves : Stop
  returned : Result RelayError ChatResponse → Stop

-- `auth.Principal`, in the fields that are read here.
pub record Principal : Type 0 where
  -- `Audience == auth.AudienceRelay`
  pub relays : Bool
  pub allowed_models : List String
  pub token_id : String
  pub tenant_id : String
  pub group_id : String

-- `GroupPolicy`, in the fields that are read here.
pub record GroupPolicy : Type 0 where
  pub id : String
  pub status : String
  pub multiplier : String
  pub rpm_limit : ℕ
  pub billing_type : String

-- What the checks before the loop ask of others: the validation of the request, the limiter of the
-- token, the router's policy, its limiter and its candidates. `has_billing` says that there is a
-- billing service.
pub record Gate : Type 0 where
  pub validate : Result RelayError (Unit {0})
  pub acquire_token : String → Result RelayError (Unit {0})
  pub resolve_policy : String → Result RelayError GroupPolicy
  pub consume_group_rpm : String → ℕ → Result RelayError Bool
  pub candidates : Result RelayError (List Channel)
  pub has_billing : Bool

abbrev listed : String → List String → Bool
listed model [] = false
listed model (m ∷ ms) = str_eq m model || listed model ms

-- `modelAllowed`
unfoldable pub model_allowed : Option Principal → String → Bool
model_allowed none model = false
model_allowed (some p) model = elim p.allowed_models [
  | [] ↦ p.relays
  | m ∷ ms ↦ p.relays && listed model (m ∷ ms)
]

abbrev pub default_policy : GroupPolicy
default_policy = record {
  id = "";
  status = "";
  multiplier = "1.000000";
  rpm_limit = 0;
  billing_type = "prepaid";
}

-- `resolveGroupPolicy`
unfoldable pub resolve_group_policy : Gate → Principal → Result RelayError GroupPolicy
resolve_group_policy gate p = if str_eq (trim_space p.group_id) "" then ok default_policy else do
  policy ← gate.resolve_policy (trim_space p.group_id)
  guard (str_eq policy.status "active" && not (str_eq policy.multiplier ""))
      RelayError.group_unavailable
  ok policy

-- The limit of requests per minute of a group.
unfoldable pub within_rpm : Gate → GroupPolicy → Result RelayError (Unit {0})
within_rpm gate policy = if policy.rpm_limit == 0 then ok tt else do
  allowed ← gate.consume_group_rpm policy.id policy.rpm_limit
  guard allowed RelayError.group_rate_limited
  ok tt

-- The checks of `ChatCompletions` before the loop: the candidates, and whether the request is paid.
unfoldable pub admitted :
    Gate → Option Principal → Bool → String → Result RelayError (List Channel × Bool)
admitted gate principal stream model = do
  guard (not stream) RelayError.streaming_unsupported
  valid ← gate.validate
  guard (model_allowed principal model) RelayError.model_not_allowed
  p ← or_error principal RelayError.model_not_allowed
  limited ← (if str_eq p.token_id "" then ok tt else gate.acquire_token p.token_id)
  policy ← resolve_group_policy gate p
  guard (str_eq (trim_space policy.status) "" || str_eq policy.status "active")
      RelayError.group_unavailable
  guard (str_eq (trim_space p.tenant_id) "" || gate.has_billing) RelayError.billing_unavailable
  consumed ← within_rpm gate policy
  candidates ← gate.candidates
  guard (ltb 0 (length candidates)) RelayError.model_not_found
  ok (candidates, gate.has_billing && not (str_eq policy.billing_type "free"))

module _ {B : Type 0} (biller : Biller B) (line : Line) (intn : ℕ → ℕ) where
  -- What an attempt leads to.
  abbrev pub follow : Progress B × Next → (Progress B → Progress B × Stop) → Progress B × Stop
  follow (a, Next.continues) again = again a
  follow (a, Next.stops) again = (a, Stop.leaves)
  follow (a, Next.returns r) again = (a, Stop.returned r)

  -- The loop over the candidates.
  unfoldable pub chat_loop : ℕ → List Channel → Progress B → Progress B × Stop
  chat_loop zero candidates a = (a, Stop.out_of_fuel)
  chat_loop (suc fuel) candidates a =
      if not (ltb (length a.attempted) (length candidates))
      then (a, Stop.leaves)
      else elim (pick_weighted_channel intn candidates a.attempted) [
        | none ↦ (a, Stop.leaves)
        | some c ↦ follow (try_channel biller line a c) (λ tried. chat_loop fuel candidates tried)
      ]

  -- What follows the loop for a free request.
  unfoldable pub give_up_free : Progress B → Progress B × Result RelayError ChatResponse
  give_up_free a =
      let refused : Result RelayError ChatResponse =
        err (or_else a.last_error RelayError.upstream_failed) in
      elim a.booking.free [
        | none ↦ (a, refused)
        | some id ↦ elim (biller.fail_free id "upstream_request_failed" a.store) [
          | ok done ↦ (record a { store = done.1 }, refused)
          | err e ↦ (a, err (RelayError.billing e))
        ]
      ]

  -- What follows the loop: the reservation is given back.
  unfoldable pub give_up : Progress B → Progress B × Result RelayError ChatResponse
  give_up a = elim a.booking.reservation [
    | none ↦ give_up_free a
    | some id ↦ elim (biller.fail id "upstream_request_failed" a.store) [
      | ok done ↦ give_up_free (record a { store = done.1 })
      | err e ↦ (a, err (RelayError.billing e))
    ]
  ]

  abbrev pub nothing_tried : B → Progress B
  nothing_tried b = record {
    attempted = [];
    booking = record { reservation = none; free = none };
    last_error = none;
    health = [];
    store = b;
  }

  unfoldable pub end_loop : Progress B × Stop → Progress B × Result RelayError ChatResponse
  end_loop (a, Stop.returned r) = (a, r)
  end_loop (a, Stop.leaves) = give_up a
  end_loop (a, Stop.out_of_fuel) = give_up a

  -- `ChatCompletions` once it is admitted; the candidates bound the attempts.
  unfoldable pub relay_chat : List Channel → B → Progress B × Result RelayError ChatResponse
  relay_chat candidates b =
      end_loop (chat_loop (suc (length candidates)) candidates (nothing_tried b))

-- `ChatCompletions`; the line is the same for every attempt but for whether the request is paid.
unfoldable pub chat_completions :
    {B : Type 0}
    → Biller B
    → Line
    → (ℕ → ℕ)
    → Gate
    → Option Principal
    → Bool
    → B
    → Progress B × Result RelayError ChatResponse
chat_completions biller line intn gate principal stream b =
    elim (admitted gate principal stream line.model) [
      | err e ↦ (nothing_tried biller line intn b, err e)
      | ok entry ↦ relay_chat biller (record line { billing_enabled = entry.1 }) intn entry.0 b
    ]
