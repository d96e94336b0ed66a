-- ===== src/Handlers/Get/Stream/Session.antt =====
-- What an event-stream client should get, src/handlers/get.rs over the in-memory storage: the messages
-- of a stream from where it starts to what the stream held at the last read.
use durable_streams_referenc.Prelude.{
  ◌≡◌, ap, ◌∙◌, Bool, false, List, [], ◌∷◌, ◌++◌, length, inl, inr, some, ◌⊎◌, if◌then◌else◌,
}
use durable_streams_referenc.Prelude.Text.{Bytes, Text}
use durable_streams_referenc.Prelude.Dict.{lookup}
use durable_streams_referenc.Error.{Error, ok, err}
use durable_streams_referenc.Offset.{Offset, new, as_str}
use durable_streams_referenc.Storage.{is_stream_expired}
use durable_streams_referenc.Memory.{read, read_stream}
use durable_streams_referenc.Memory.Entry.{StreamEntry, tail_offset}
use durable_streams_referenc.Memory.Layout.{size, contents, IsValid}
use durable_streams_referenc.Memory.Resume.{read_held-resume, returning}
use durable_streams_referenc.Memory.Delivery.{tail_offset-IsValid}
use durable_streams_referenc.Memory.Implementation.{memory_backend}
use durable_streams_referenc.Sse.{Codec, ControlPayload}
use durable_streams_referenc.Sse.Client.{Event, receive}
use durable_streams_referenc.Sse.Lines.{IsLine}
use durable_streams_referenc.Sse.Content.{batch_events}
use durable_streams_referenc.Sse.Frames.{idle as client, StartsPlain}
use durable_streams_referenc.Sse.Json.{control_name}
use durable_streams_referenc.Handlers.Get.{Moment, closed_at_tail}
use durable_streams_referenc.Handlers.Get.Stream.{
  Wake, notified, lagged, disconnected, keepalive, idle,
}

-- serde writes a payload on one line and without a space in front.
abbrev pub WritesLines : Codec → Type 0
WritesLines codec =
    (payload : ControlPayload)
    → IsLine (codec.control_json payload) × StartsPlain (codec.control_json payload)

-- The offset behind these messages.
abbrev pub behind : List Bytes → Offset
behind xs = new (length xs) (size xs)

module _ (name : Text) where
  -- At this moment the stream lives, and holds what has been seen and then more messages.
  pub record Sees (seen : List Bytes) (m : Moment memory_backend) : Type 0 where
    pub entry : StreamEntry
    pub more : List Bytes
    pub found : lookup name m.state.streams ≡ some entry
    pub valid : IsValid entry
    pub live : is_stream_expired entry.config m.at.expiry ≡ false
    pub split : contents entry ≡ seen ++ more

  abbrev pub Fails : List Bytes → Moment memory_backend → Type 0
  Fails seen m = (e : Error) × (read name (behind seen) m.at.expiry m.state ≡ err e)

  -- At every read of the loop the stream has only grown since the one before, or the read fails.
  abbrev pub Follows : List (Wake memory_backend) → List Bytes → Type 0
  Follows [] seen = Unit {0}
  Follows (notified m ∷ wakes) seen =
      ((g : Sees seen m) × Follows wakes (seen ++ g.more)) ⊎ Fails seen m
  Follows (lagged m ∷ wakes) seen =
      ((g : Sees seen m) × Follows wakes (seen ++ g.more)) ⊎ Fails seen m
  Follows (disconnected m ∷ wakes) seen = Sees seen m ⊎ Fails seen m
  Follows (keepalive ∷ wakes) seen = Follows wakes seen
  Follows (idle ∷ wakes) seen = Unit {0}

  -- What the stream held at the read with which the loop ends: `next` says it for the loop that goes
  -- on after this read.
  abbrev pub after_read :
      (seen : List Bytes) (m : Moment memory_backend) (P : List Bytes → Type 0)
      → ((more : List Bytes) → P (seen ++ more) → List Bytes)
      → ((g : Sees seen m) × P (seen ++ g.more)) ⊎ Fails seen m
      → List Bytes
  after_read seen m P next (inl (g, p)) =
      if closed_at_tail (returning g.more g.entry) then seen ++ g.more else next g.more p
  after_read seen m P next (inr fails) = seen

  -- What the stream held at the last read of the loop.
  abbrev pub last_seen :
      (wakes : List (Wake memory_backend)) (seen : List Bytes) → Follows wakes seen → List Bytes
  last_seen [] seen f = seen
  last_seen (notified m ∷ wakes) seen f =
      after_read seen m (Follows wakes) (λ more f'. last_seen wakes (seen ++ more) f') f
  last_seen (lagged m ∷ wakes) seen f =
      after_read seen m (Follows wakes) (λ more f'. last_seen wakes (seen ++ more) f') f
  last_seen (disconnected m ∷ wakes) seen (inl g) = seen ++ g.more
  last_seen (disconnected m ∷ wakes) seen (inr fails) = seen
  last_seen (keepalive ∷ wakes) seen f = last_seen wakes seen f
  last_seen (idle ∷ wakes) seen f = seen

  pub read-Sees :
      (seen : List Bytes) (m : Moment memory_backend) (g : Sees seen m)
      → read name (behind seen) m.at.expiry m.state ≡ ok (returning g.more g.entry)
  unfolding read read_stream
  read-Sees seen m g =
      rw (read, read_stream, g.found)
        (read_held-resume m.at.expiry g.entry g.valid g.live seen g.more g.split)

  pub tail_offset-Sees :
      (seen : List Bytes) (m : Moment memory_backend) (g : Sees seen m)
      → tail_offset g.entry ≡ behind (seen ++ g.more)
  tail_offset-Sees seen m g = tail_offset-IsValid g.entry g.valid ∙ ap behind g.split

module _ (codec : Codec) (is_binary is_json : Bool) where
  abbrev pub control_event : ControlPayload → Event
  control_event payload = record { name = control_name; body = codec.control_json payload }

  -- The events of a read: its messages, and then the control event.
  abbrev pub round_events : List Bytes → ControlPayload → List Event
  round_events more payload =
      batch_events codec more is_binary is_json ++ control_event payload ∷ []

  -- The events take a client that has the first messages to the last ones, by whole rounds, each of
  -- which goes on where the one before it ended and names the offset behind its own messages.
  pub data Delivers : List Bytes → List Event → List Bytes → Type 0 where
    ended : {seen : List Bytes} → Delivers seen [] seen
    then_round :
        {seen final : List Bytes} {events : List Event} (more : List Bytes)
        (payload : ControlPayload)
        → payload.stream_next_offset ≡ as_str (behind (seen ++ more))
        → Delivers (seen ++ more) events final
        → Delivers seen (round_events more payload ++ events) final

  -- A client that has the first messages gets to the last ones by this text.
  abbrev pub Received : Text → List Bytes → List Bytes → Type 0
  Received text seen final =
      (events : List Event) × ((before : List Event)
        → receive text (client before) ≡ client (before ++ events))
      × Delivers seen events final
