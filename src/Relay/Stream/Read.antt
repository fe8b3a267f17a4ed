-- ===== src/Relay/Stream/Read.antt =====
-- What `openAndReadChatStream` of internal/relay/advanced.go hands to its sink.
use Prim.Native.String.{String}
use model_bridge.Base.{
  ℕ, ◌≡◌, ◌⊎◌, refl, List, [], ◌∷◌, true, false, Option, some, inl, inr, Option-cases,
}
use model_bridge.Base.Results.{Result, ok}
use model_bridge.Relay.Channels.{Channel}
use model_bridge.Relay.Errors.{RelayError}
use model_bridge.Relay.Stream.Events.{
  StreamEvent, StreamBody, StreamedChatAttempt, note_event, read_events,
}
use model_bridge.Relay.Stream.Ends.{StreamLine}

-- The events in their order, the newest first, before the others.
abbrev pub onto : List StreamEvent → List StreamEvent → List StreamEvent
onto [] rest = rest
onto (e ∷ sent) rest = onto sent (e ∷ rest)

-- A beginning of the events of one stream that was opened.
pub record Opened (st : StreamLine) (sent : List StreamEvent) : Type 0 where
  pub provider : String
  pub new_stream : Channel → String → ℕ → Result RelayError StreamBody
  pub provider_streams : st.new_stream provider ≡ some new_stream
  pub channel : Channel
  pub key : String
  pub attempt : ℕ
  pub body : StreamBody
  pub opened : new_stream channel key attempt ≡ ok body
  pub rest : List StreamEvent
  pub beginning : onto sent rest ≡ body.events

abbrev pub FromOne : StreamLine → List StreamEvent → Type 0
FromOne st sent = (sent ≡ []) ⊎ Opened st sent

pub read_events-onto :
    (emit : List StreamEvent → Option RelayError) (es : List StreamEvent)
    (ending : Option RelayError) (a : StreamedChatAttempt)
    → (rest : List StreamEvent) × (onto (read_events emit es ending a).0.sent rest ≡ onto a.sent es)
unfolding read_events note_event
read_events-onto emit [] ending a = ([], refl)
read_events-onto emit (e ∷ es) ending a = elim (Option-cases (emit (e ∷ a.sent))) [
  | inl taken ↦ rw (taken, read_events) (read_events-onto emit es ending (note_event e a))
  | inr (failure, f) ↦ rw (f, read_events) (es, refl)
]

read_events-delivered :
    (emit : List StreamEvent → Option RelayError) (es : List StreamEvent)
    (ending : Option RelayError) (a : StreamedChatAttempt)
    → a.delivered ≡ true
    → (read_events emit es ending a).0.delivered ≡ true
unfolding read_events note_event
read_events-delivered emit [] ending a h = h
read_events-delivered emit (e ∷ es) ending a h = elim (Option-cases (emit (e ∷ a.sent))) [
  | inl taken ↦ rw (taken, read_events) (read_events-delivered emit es ending (note_event e a) refl)
  | inr (failure, f) ↦ rw (f, read_events) refl
]

pub read_events-silent :
    (emit : List StreamEvent → Option RelayError) (es : List StreamEvent)
    (ending : Option RelayError) (a : StreamedChatAttempt)
    → (read_events emit es ending a).0.delivered ≡ false
    → (read_events emit es ending a).0.sent ≡ a.sent
unfolding read_events note_event
read_events-silent emit [] ending a h = refl
read_events-silent emit (e ∷ es) ending a h = elim (Option-cases (emit (e ∷ a.sent))) [
  | inl taken ↦
      let later = read_events-delivered emit es ending (note_event e a) refl in
      let never : true ≡ false = cc (rw (taken, read_events) at h, later) in cc never
  | inr (failure, f) ↦ cc (rw (f, read_events) at h)
]
