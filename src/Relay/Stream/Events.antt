-- ===== src/Relay/Stream/Events.antt =====
-- `openAndReadChatStream` and `mergeChatUsage` of internal/relay/advanced.go.
use Prim.Native.String.{String, ◌++◌}
use model_bridge.Base.{
  ℕ, zero, suc, ◌/◌, ◌%◌, List, [], ◌∷◌, Bool, true, false, ◌||◌, ◌==◌, if◌then◌else◌, Option, none,
  some,
}
use model_bridge.Base.Int.{ℤ, leb_ℤ}
use model_bridge.Base.Texts.{str_eq, trim_space}
use model_bridge.Base.Results.{Result, ok, err}
use model_bridge.Relay.Errors.{RelayError}
use model_bridge.Relay.Reports.{ChatUsage, prompt_of, completion_of, chat_usage_has_values}
use model_bridge.Relay.Attempts.{no_usage}

abbrev larger : ℤ → ℤ → ℤ
larger current next = if leb_ℤ next current then current else next

-- `mergeChatUsage`: the larger of two counts; the meters are those of the current usage.
unfoldable pub merge_chat_usage : ChatUsage → ChatUsage → ChatUsage
merge_chat_usage current next =
    let p = prompt_of current.prompt_details in
    let q = prompt_of next.prompt_details in
    let c = completion_of current.completion_details in
    let d = completion_of next.completion_details in
    record {
      prompt_tokens = larger current.prompt_tokens next.prompt_tokens;
      completion_tokens = larger current.completion_tokens next.completion_tokens;
      total_tokens = larger current.total_tokens next.total_tokens;
      prompt_details = some (record {
        cached_tokens = larger p.cached_tokens q.cached_tokens;
        audio_tokens = larger p.audio_tokens q.audio_tokens;
        image_tokens = larger p.image_tokens q.image_tokens;
        video_tokens = larger p.video_tokens q.video_tokens;
        cached_audio_tokens = larger p.cached_audio_tokens q.cached_audio_tokens;
        cached_image_tokens = larger p.cached_image_tokens q.cached_image_tokens;
        cached_video_tokens = larger p.cached_video_tokens q.cached_video_tokens;
      });
      completion_details = some (record {
        reasoning_tokens = larger c.reasoning_tokens d.reasoning_tokens;
        audio_tokens = larger c.audio_tokens d.audio_tokens;
        image_tokens = larger c.image_tokens d.image_tokens;
        video_tokens = larger c.video_tokens d.video_tokens;
      });
      cache_creation_input_tokens =
          larger current.cache_creation_input_tokens next.cache_creation_input_tokens;
      cache_creation_1h_input_tokens =
          larger current.cache_creation_1h_input_tokens next.cache_creation_1h_input_tokens;
      cache_read_input_tokens = larger current.cache_read_input_tokens next.cache_read_input_tokens;
      pricing_tier =
          if str_eq (trim_space current.pricing_tier) ""
          then next.pricing_tier
          else current.pricing_tier;
      metrics = current.metrics;
    }

-- `ChatCompletionStreamEvent`, in the fields that are read here; `usage` is there with `HasUsage`.
pub record StreamEvent : Type 0 where
  pub delta : String
  pub usage : Option ChatUsage

-- A stream that was opened: its events, and the error that ends it where that is not `io.EOF`.
pub record StreamBody : Type 0 where
  pub events : List StreamEvent
  pub ending : Option RelayError

-- `streamedChatAttempt`, with all that was handed to `emit` so far, the newest first.
pub record StreamedChatAttempt : Type 0 where
  pub usage : ChatUsage
  pub got_usage : Bool
  pub delivered : Bool
  pub output : String
  pub sent : List StreamEvent

abbrev pub nothing_read : List StreamEvent → StreamedChatAttempt
nothing_read sent = record {
  usage = no_usage;
  got_usage = false;
  delivered = false;
  output = "";
  sent = sent;
}

-- What the loop notes of an event before it hands it on.
unfoldable pub note_event : StreamEvent → StreamedChatAttempt → StreamedChatAttempt
note_event e a = record {
  usage = elim e.usage [ none ↦ a.usage | some u ↦ merge_chat_usage a.usage u ];
  got_usage = a.got_usage || elim e.usage [ none ↦ false | some u ↦ chat_usage_has_values u ];
  delivered = true;
  output = a.output ++ e.delta;
  sent = e ∷ a.sent;
}

-- `emit` is what the sink answers to the newest of the events that it was handed.
module _ (emit : List StreamEvent → Option RelayError) where
  unfoldable pub read_events :
      List StreamEvent
      → Option RelayError
      → StreamedChatAttempt
      → StreamedChatAttempt × Option RelayError
  read_events [] ending a = (a, ending)
  read_events (e ∷ es) ending a =
      let noted = note_event e a in
      elim (emit noted.sent) [
        | some failure ↦ (noted, some failure)
        | none ↦ read_events es ending noted
      ]

  -- `openAndReadChatStream`
  unfoldable pub open_and_read_chat_stream :
      Result RelayError StreamBody → List StreamEvent → StreamedChatAttempt × Option RelayError
  open_and_read_chat_stream (err e) sent = (nothing_read sent, some e)
  open_and_read_chat_stream (ok body) sent = read_events body.events body.ending (nothing_read sent)

-- `%d` of a number that is not negative.
abbrev digit : ℕ → String
digit n =
    if n == 0
    then "0"
    else if n == 1
    then "1"
    else if n == 2
    then "2"
    else if n == 3
    then "3"
    else if n == 4
    then "4"
    else if n == 5
    then "5"
    else if n == 6
    then "6"
    else if n == 7
    then "7"
    else if n == 8
    then "8"
    else "9"

unfoldable pub digits : ℕ → ℕ → String
digits zero n = ""
digits (suc fuel) n =
    let higher = digits fuel (n / 10) in if n / 10 == 0 then digit n else higher ++ digit (n % 10)

-- `streamFailureReason`; a number has at most as many digits as its successor counts.
unfoldable pub stream_failure_reason : RelayError → String
stream_failure_reason (RelayError.upstream status wraps) =
    if status == 0
    then "upstream_stream_failed_transport"
    else "upstream_stream_failed_http_" ++ digits (suc status) status
stream_failure_reason RelayError.deadline_exceeded = "upstream_stream_failed_timeout"
stream_failure_reason RelayError.canceled = "upstream_stream_failed_canceled"
stream_failure_reason e = "upstream_stream_failed"
