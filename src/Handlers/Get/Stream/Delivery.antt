-- ===== src/Handlers/Get/Stream/Delivery.antt =====
-- src/handlers/get.rs and src/protocol/sse.rs over the in-memory storage: what an event-stream client
-- gets of a stream's messages.
use durable_streams_referenc.Prelude.{
  ℕ, ◌≡◌, sym, ap, ◌∙◌, Bool, List, [], ◌∷◌, ◌++◌, append_assoc, append-nil, Bool-cases, inl, inr,
  ◌⊎◌, subst, if◌then◌else◌,
}
use durable_streams_referenc.Prelude.Text.{Bytes, Text}
use durable_streams_referenc.Offset.{Offset, as_str}
use durable_streams_referenc.Storage.{ReadResult}
use durable_streams_referenc.Memory.Resume.{returning}
use durable_streams_referenc.Memory.Implementation.{memory_backend}
use durable_streams_referenc.Sse.{
  Codec, ControlPayload, format_data_frames, format_control_frame, format_keepalive_frame,
}
use durable_streams_referenc.Sse.Client.{Event, receive}
use durable_streams_referenc.Sse.Content.{batch_events}
use durable_streams_referenc.Sse.Frames.{
  idle as client, receive-append, receive-format_data_frames, receive-format_keepalive_frame,
}
use durable_streams_referenc.Sse.Json.{receive-format_control_frame}
use durable_streams_referenc.Handlers.Get.Stream.Session.{
  WritesLines, behind, Sees, Fails, Follows, after_read, last_seen, read-Sees, tail_offset-Sees,
  round_events, ended, then_round, Received,
}
use durable_streams_referenc.Handlers.Get.Stream.Steps.{
  continue_from_end, continue_from_on, reread_ok, reread_err, final_read_ok, final_read_err,
}
use durable_streams_referenc.Handlers.Get.{Moment, closed_at_tail}
use durable_streams_referenc.Handlers.Get.Stream.{
  build_sse_control, Wake, notified, lagged, disconnected, keepalive, idle, emit, final_read,
  continue_from, reread, wait_loop, build_sse_byte_stream,
}

module _ (codec : Codec) (is_binary is_json : Bool) where
  module _ (lines : WritesLines codec) where
    receive-emit :
        (name : Text) (r : ReadResult) (last : ℕ) (events : List Event)
        → receive (emit memory_backend codec name is_binary is_json r last).0 (client events)
          ≡ client (
              events
              ++ round_events codec is_binary is_json r.messages (build_sse_control r last).0)
    unfolding emit
    receive-emit name r last events =
        let payload = (build_sse_control r last).0 in
        let (line, plain) = lines payload in
        receive-append (format_data_frames codec r.messages is_binary is_json)
          (format_control_frame codec payload) (client events)
        ∙ ap (receive (format_control_frame codec payload))
            (receive-format_data_frames codec r.messages is_binary is_json events)
        ∙ receive-format_control_frame codec payload
            (events ++ batch_events codec r.messages is_binary is_json) line plain
        ∙ rw append_assoc

    nothing : (seen : List Bytes) → Received codec is_binary is_json [] seen seen
    nothing seen = ([], (λ before. unfold receive in rw append-nil), ended)

    module _ (name : Text) where
      module _ (seen : List Bytes) (m : Moment memory_backend) (g : Sees name seen m)
          (last : ℕ) where
        abbrev got : ReadResult
        got = returning g.more g.entry

        abbrev text : Text
        text = (emit memory_backend codec name is_binary is_json got last).0

        abbrev payload : ControlPayload
        payload = (build_sse_control got last).0

        names : payload.stream_next_offset ≡ as_str (behind (seen ++ g.more))
        unfolding build_sse_control
        names = ap as_str (tail_offset-Sees name seen m g)

        emitted : Received codec is_binary is_json text seen (seen ++ g.more)
        emitted = (
          round_events codec is_binary is_json g.more payload ++ [],
          λ before. receive-emit name got last before ∙ rw append-nil,
          then_round g.more payload names ended,
        )

        emitted_then :
            (later : Text) (final : List Bytes)
            → Received codec is_binary is_json later (seen ++ g.more) final
            → Received codec is_binary is_json (text ++ later) seen final
        emitted_then later final (events, receives, delivers) = (
          round_events codec is_binary is_json g.more payload ++ events,
          λ before.
              receive-append text later (client before)
              ∙ ap (receive later) (receive-emit name got last before)
              ∙ receives (before ++ round_events codec is_binary is_json g.more payload)
              ∙ ap client (
                  append_assoc before (round_events codec is_binary is_json g.more payload) events),
          then_round g.more payload names delivers,
        )

        continued :
            (rest : Offset → ℕ → Text × ℕ) (final : List Bytes)
            → ((last' : ℕ)
                → Received codec is_binary is_json
                    (rest (behind (seen ++ g.more)) last').0
                    (seen ++ g.more)
                    final)
            → Received codec is_binary is_json
                (continue_from memory_backend codec name is_binary is_json got last rest).0
                seen
                (if closed_at_tail got then seen ++ g.more else final)
        continued rest final h =
            let next = (emit memory_backend codec name is_binary is_json got last).1 in
            elim (Bool-cases (closed_at_tail got)) [
              | inl at_end ↦
                  rw
                    (
                      at_end,
                      continue_from_end memory_backend codec name is_binary is_json last got rest
                          at_end,
                    )
                    emitted
              | inr before ↦
                  rw
                    (
                      before,
                      continue_from_on memory_backend codec name is_binary is_json last got rest
                          before,
                    )
                    (subst
                      (λ o. Received codec is_binary is_json (text ++ (rest o next).0) seen final)
                      (sym (tail_offset-Sees name seen m g))
                      (emitted_then (rest (behind (seen ++ g.more)) next).0 final (h next)))
            ]

      module _ (seen : List Bytes) (m : Moment memory_backend) (last : ℕ) where
        reread_lem :
            (rest : Offset → ℕ → Text × ℕ) (P : List Bytes → Type 0)
            (next : (more : List Bytes) → P (seen ++ more) → List Bytes)
            → ((more : List Bytes) (p : P (seen ++ more)) (last' : ℕ)
                → Received codec is_binary is_json
                    (rest (behind (seen ++ more)) last').0
                    (seen ++ more)
                    (next more p))
            → (f : ((g : Sees name seen m) × P (seen ++ g.more)) ⊎ Fails name seen m)
            → Received codec is_binary is_json
                (reread memory_backend codec name is_binary is_json (behind seen) m last rest).0
                seen
                (after_read name seen m P next f)
        reread_lem rest P next h (inl (g, p)) =
            subst
              (λ t. Received codec is_binary is_json t seen (
                if closed_at_tail (returning g.more g.entry)
                then seen ++ g.more
                else next g.more p))
              (sym (
                reread_ok memory_backend codec name is_binary is_json last (behind seen) m
                  (returning g.more g.entry) rest (read-Sees name seen m g)))
              (continued seen m g last rest (next g.more p) (h g.more p))
        reread_lem rest P next h (inr (e, fails)) =
            subst (λ t. Received codec is_binary is_json t seen seen)
              (sym (
                reread_err memory_backend codec name is_binary is_json last (behind seen) m e rest
                  fails))
              (nothing seen)

        final_read_lem :
            (wakes : List (Wake memory_backend)) (f : Sees name seen m ⊎ Fails name seen m)
            → Received codec is_binary is_json
                (final_read memory_backend codec name is_binary is_json (behind seen) m last).0
                seen
                (last_seen name (disconnected m ∷ wakes) seen f)
        final_read_lem wakes (inl g) =
            subst (λ t. Received codec is_binary is_json t seen (seen ++ g.more))
              (sym (
                final_read_ok memory_backend codec name is_binary is_json last (behind seen) m
                  (returning g.more g.entry) (read-Sees name seen m g)))
              (emitted seen m g last)
        final_read_lem wakes (inr (e, fails)) =
            subst (λ t. Received codec is_binary is_json t seen seen)
              (sym (
                final_read_err memory_backend codec name is_binary is_json last (behind seen) m e
                  fails))
              (nothing seen)

      abbrev loop : List (Wake memory_backend) → Offset → ℕ → Text × ℕ
      loop = wait_loop memory_backend codec name is_binary is_json

      wait_loop-Received :
          (wakes : List (Wake memory_backend)) (seen : List Bytes) (f : Follows name wakes seen)
          (last : ℕ)
          → Received codec is_binary is_json
              (loop wakes (behind seen) last).0
              seen
              (last_seen name wakes seen f)
      unfolding wait_loop
      wait_loop-Received [] seen f last = nothing seen
      wait_loop-Received (notified m ∷ wakes) seen f last =
          reread_lem seen m last (loop wakes) (Follows name wakes)
            (λ more f'. last_seen name wakes (seen ++ more) f')
            (λ more f'. wait_loop-Received wakes (seen ++ more) f') f
      wait_loop-Received (lagged m ∷ wakes) seen f last =
          reread_lem seen m last (loop wakes) (Follows name wakes)
            (λ more f'. last_seen name wakes (seen ++ more) f')
            (λ more f'. wait_loop-Received wakes (seen ++ more) f') f
      wait_loop-Received (disconnected m ∷ wakes) seen f last = final_read_lem seen m last wakes f
      wait_loop-Received (keepalive ∷ wakes) seen f last =
          let (events, receives, delivers) = wait_loop-Received wakes seen f last in
          (
            events,
            λ before.
                receive-append format_keepalive_frame (loop wakes (behind seen) last).0
                  (client before)
                ∙ rw (receive-format_keepalive_frame before) (receives before),
            delivers,
          )
      wait_loop-Received (idle ∷ wakes) seen f last = nothing seen

      -- A client that opens an event stream behind some messages of a stream gets exactly the messages
      -- that follow them, in order and each once, up to what the stream held at the last read, however
      -- the waits end: round by round, each with a control event that names the offset behind it. A
      -- round of a JSON stream is one event with the array of its messages, of another one event for
      -- each message, with its base64 if the stream is binary and else its text; the client has every
      -- line ending of a text as "\n" and one space less in front of a line. (At every read the stream
      -- lives and has only grown, or the read fails, which ends the response; serde writes a payload on
      -- one line without a space in front.)
      pub build_sse_byte_stream-Received :
          (seen : List Bytes) (m : Moment memory_backend) (g : Sees name seen m)
          (wakes : List (Wake memory_backend)) (f : Follows name wakes (seen ++ g.more)) (last : ℕ)
          → Received codec is_binary is_json
              (build_sse_byte_stream memory_backend codec name is_binary is_json
                (returning g.more g.entry)
                wakes
                last).0
              seen
              (last_seen name (notified m ∷ wakes) seen (inl (g, f)))
      unfolding build_sse_byte_stream wait_loop
      build_sse_byte_stream-Received seen m g wakes f last =
          continued seen m g last (loop wakes) (last_seen name wakes (seen ++ g.more) f)
            (wait_loop-Received wakes (seen ++ g.more) f)
