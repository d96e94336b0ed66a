-- ===== src/Sse/Json.antt =====
-- The two writers of a JSON array, `format_data_frames` in src/protocol/sse.rs and
-- `wrap_read_iter` in src/protocol/json_mode.rs.
use durable_streams_referenc.Prelude.{
  ◌≡◌, refl, sym, ap, ◌∙◌, List, [], ◌∷◌, ◌++◌, map, append_assoc,
}
use durable_streams_referenc.Prelude.Text.{Bytes, Text, text_eq, codes}
use durable_streams_referenc.JsonMode.{wrap_read}
use durable_streams_referenc.JsonMode.Wrap.{wrap_read-separated}
use durable_streams_referenc.Sse.{
  Codec, ControlPayload, format_control_frame, event_control, data_field,
}
use durable_streams_referenc.Sse.Content.{array_content-first}
use durable_streams_referenc.Sse.Client.{Event, receive, receive_byte, end_line}
use durable_streams_referenc.Sse.Lines.{IsLine}
use durable_streams_referenc.Sse.Frames.{
  json_text, StartsPlain, idle, reading, receive-data_line, receive-dispatch,
}

-- On messages that are valid UTF-8 the JSON text of an SSE event is byte for byte the body that a
-- catch-up read of the same messages has.
pub json_text-wrap_read :
    (codec : Codec) (messages : List Bytes)
    → map codec.from_utf8_lossy messages ≡ messages
    → json_text codec messages ≡ wrap_read messages
json_text-wrap_read codec messages h =
    rw (array_content-first codec messages, h) (sym (wrap_read-separated messages))

abbrev pub control_name : Text
unfolding codes
control_name = codes "control"

receive-event_control :
    (rest : Text) (events : List Event)
    → receive (event_control ++ rest) (idle events)
      ≡ receive rest (reading [] control_name [] events)
unfolding receive receive_byte end_line text_eq codes
receive-event_control rest events = refl

-- A control frame is one event with the payload's JSON, given that serde writes it on one line and
-- without a space in front.
pub receive-format_control_frame :
    (codec : Codec) (payload : ControlPayload) (events : List Event)
    → IsLine (codec.control_json payload)
    → StartsPlain (codec.control_json payload)
    → receive (format_control_frame codec payload) (idle events)
      ≡ idle (events ++ record { name = control_name; body = codec.control_json payload } ∷ [])
unfolding format_control_frame
receive-format_control_frame codec payload events h k =
    let json = codec.control_json payload in
    ap (λ t. receive t (idle events))
      (ap (λ t. t ++ b'\n' ∷ b'\n' ∷ []) (append_assoc event_control data_field json)
        ∙ append_assoc event_control (data_field ++ json) (b'\n' ∷ b'\n' ∷ []))
    ∙ receive-event_control (data_field ++ json ++ b'\n' ∷ b'\n' ∷ []) events
    ∙ receive-data_line json (b'\n' ∷ []) control_name [] events h
    ∙ rw k (receive-dispatch control_name (json ∷ []) events (λ e. cc))
