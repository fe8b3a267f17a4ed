-- ===== src/Relay/Health.antt =====
-- What internal/relay/types.go tells its router of the health of channels.
use Prim.Native.String.{String}
use model_bridge.Base.{ℕ, List, ◌∷◌, Bool, ◌||◌, not, if◌then◌else◌}
use model_bridge.Base.Texts.{str_eq, trim_space}
use model_bridge.Metering.Select.{to_lower}
use model_bridge.Relay.Channels.{Channel}
use model_bridge.Relay.Errors.{
  RelayError, retryable_upstream_error, upstream_status_code, channel_wide_failure,
}

-- `canonicalProvider`
unfoldable pub canonical_provider : String → String
canonical_provider provider =
    let p = to_lower (trim_space provider) in
    if str_eq p "xai" || str_eq p "x-ai"
    then "grok"
    else if str_eq p "google" || str_eq p "google-gemini" || str_eq p "google_genai"
    then "gemini"
    else if str_eq p "ark"
        || str_eq p "byteplus"
        || str_eq p "bytedance"
        || str_eq p "volc"
        || str_eq p "volcengine-ark"
    then "volcengine"
    else p

-- What the router is told of the health of channels.
pub data HealthEvent : Type 0 where
  model_failed : String → String → ℕ → HealthEvent
  channel_failed : String → ℕ → HealthEvent
  channel_succeeded : String → HealthEvent
  model_succeeded : String → String → HealthEvent

abbrev has_model : Channel → Bool
has_model c = not (str_eq (trim_space c.model_name) "")

-- `recordChannelFailure`
unfoldable pub record_channel_failure : Channel → RelayError → List HealthEvent → List HealthEvent
record_channel_failure c e log =
    let status = upstream_status_code e in
    let with_model =
      if has_model c then HealthEvent.model_failed c.id c.model_name status ∷ log else log in
    if not (retryable_upstream_error e)
    then log
    else if not (has_model c) || channel_wide_failure e
    then HealthEvent.channel_failed c.id status ∷ with_model
    else with_model

-- `recordChannelSuccess`
unfoldable pub record_channel_success : Channel → List HealthEvent → List HealthEvent
record_channel_success c log =
    let with_channel = HealthEvent.channel_succeeded c.id ∷ log in
    if has_model c
    then HealthEvent.model_succeeded c.id c.model_name ∷ with_channel
    else with_channel
