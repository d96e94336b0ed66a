-- ===== src/Sse/Examples.antt =====
-- The theorems on Server-Sent Events at concrete texts.
use durable_streams_referenc.Prelude.{◌≡◌, refl, true, false, [], ◌∷◌, ◌++◌}
use durable_streams_referenc.Prelude.Text.{Text, codes}
use durable_streams_referenc.Sse.{Codec, ControlPayload, format_data_frames, format_control_frame}
use durable_streams_referenc.Prelude.{none, some}
use durable_streams_referenc.JsonMode.{wrap_read}
use durable_streams_referenc.Sse.Client.{receive}
use durable_streams_referenc.Sse.Content.{batch_events}
use durable_streams_referenc.Sse.Frames.{idle, json_text, receive-format_data_frames}
use durable_streams_referenc.Sse.Json.{
  control_name, json_text-wrap_read, receive-format_control_frame,
}

-- A text that tries to end the frame.
abbrev hostile : Text
unfolding codes
hostile = codes "one\r\n\nevent: control\rtwo"

abbrev indented : Text
unfolding codes
indented = codes "  two"

abbrev codec : Codec
codec = record {
  base64 = λ body. body;
  from_utf8_lossy = λ body. body;
  control_json = λ payload. b'"' ∷ payload.stream_next_offset ++ b'"' ∷ [];
}

receive-format_data_frames_example :
    receive (format_data_frames codec (hostile ∷ indented ∷ []) false false) (idle [])
    ≡ idle (batch_events codec (hostile ∷ indented ∷ []) false false)
receive-format_data_frames_example =
    receive-format_data_frames codec (hostile ∷ indented ∷ []) false false []

json_text-wrap_read_example :
    json_text codec (hostile ∷ indented ∷ []) ≡ wrap_read (hostile ∷ indented ∷ [])
json_text-wrap_read_example = json_text-wrap_read codec (hostile ∷ indented ∷ []) refl

abbrev payload : ControlPayload
payload = record {
  stream_next_offset = b'7' ∷ [];
  stream_cursor = none;
  up_to_date = some true;
  stream_closed = none;
}

receive-format_control_frame_example :
    receive (format_control_frame codec payload) (idle [])
    ≡ idle (record { name = control_name; body = codec.control_json payload } ∷ [])
receive-format_control_frame_example =
    receive-format_control_frame codec payload [] (refl, (refl, (refl, tt))) refl
