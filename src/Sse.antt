-- ===== src/Sse.antt =====
-- src/protocol/sse.rs: the frames of Server-Sent Events, as texts. Base64, serde's text of a
-- control payload and the replacement of invalid UTF-8 are the parameters `codec`.
pub mod Client
pub mod Lines
pub mod Content
pub mod Frames
mod Spaces
pub mod Json
mod Examples
use durable_streams_referenc.Prelude.{
  ℕ, Bool, true, false, ◌&&◌, not, Option, List, [], ◌∷◌, ◌++◌, ◌==◌, if◌then◌else◌, is_empty,
}
use durable_streams_referenc.Prelude.Text.{Bytes, Text, codes, text_eq}
use durable_streams_referenc.JsonMode.{application_json}

pub record ControlPayload : Type 0 where
  pub stream_next_offset : Text
  pub stream_cursor : Option Text
  pub up_to_date : Option Bool
  pub stream_closed : Option Bool

pub record Codec : Type 0 where
  pub base64 : Bytes → Text
  pub from_utf8_lossy : Bytes → Text
  pub control_json : ControlPayload → Text

-- `split_lines`, on the bytes since the last line ending and the bytes left.
unfoldable pub split_from : Text → Text → List Text
split_from line [] = line ∷ []
split_from line (c ∷ []) =
    if c == b'\r'
    then line ∷ [] ∷ []
    else if c == b'\n'
    then line ∷ [] ∷ []
    else (line ++ c ∷ []) ∷ []
split_from line (c ∷ d ∷ s) =
    let after_both = line ∷ split_from [] s in
    let after_one = line ∷ split_from [] (d ∷ s) in
    let longer = split_from (line ++ c ∷ []) (d ∷ s) in
    if c == b'\r'
    then (if d == b'\n' then after_both else after_one)
    else if c == b'\n'
    then after_one
    else longer

unfoldable pub split_lines : Text → List Text
unfolding split_from
split_lines text = split_from [] text

abbrev pub data_field : Text
unfolding codes
data_field = codes "data:"

abbrev pub event_data : Text
unfolding codes
event_data = codes "event: data\n"

abbrev pub event_control : Text
unfolding codes
event_control = codes "event: control\n"

-- The loop of `format_raw_data_frame` over the lines.
unfoldable pub data_lines : List Text → Text
data_lines [] = []
data_lines (line ∷ lines) = data_field ++ line ++ b'\n' ∷ data_lines lines

unfoldable pub format_raw_data_frame : Text → Text
unfolding data_lines split_lines
format_raw_data_frame text = event_data ++ data_lines (split_lines text) ++ b'\n' ∷ []

unfoldable pub format_control_frame : Codec → ControlPayload → Text
format_control_frame codec payload =
    event_control ++ data_field ++ codec.control_json payload ++ b'\n' ∷ b'\n' ∷ []

unfoldable pub format_keepalive_frame : Text
format_keepalive_frame = b':' ∷ b'\n' ∷ b'\n' ∷ []

-- The text that one message is sent as.
unfoldable pub frame_text : Codec → Bytes → Bool → Bool → Text
frame_text codec body is_binary is_json =
    if is_binary
    then codec.base64 body
    else if is_json
    then b'[' ∷ codec.from_utf8_lossy body ++ b']' ∷ []
    else codec.from_utf8_lossy body

unfoldable pub format_data_frame : Codec → Bytes → Bool → Bool → Text
unfolding frame_text format_raw_data_frame
format_data_frame codec body is_binary is_json =
    format_raw_data_frame (frame_text codec body is_binary is_json)

-- The loop that fills `array_content`; `first` stands for `i == 0`.
unfoldable pub array_content : Codec → Bool → List Bytes → Text → Text
array_content codec first [] content = content
array_content codec first (msg ∷ messages) content =
    array_content codec false messages
      ((if first then content else content ++ b',' ∷ []) ++ codec.from_utf8_lossy msg)

-- The loop over the messages of a stream that is not JSON.
unfoldable pub each_frame : Codec → Bool → List Bytes → Text → Text
each_frame codec is_binary [] result = result
each_frame codec is_binary (msg ∷ messages) result =
    each_frame codec is_binary messages (result ++ format_data_frame codec msg is_binary false)

unfoldable pub format_data_frames : Codec → List Bytes → Bool → Bool → Text
unfolding array_content each_frame
format_data_frames codec messages is_binary is_json =
    if is_empty messages
    then []
    else if is_json
    then format_raw_data_frame (b'[' ∷ array_content codec true messages [] ++ b']' ∷ [])
    else each_frame codec is_binary messages []

-- `ct.starts_with(prefix)`
unfoldable pub has_prefix : Text → Text → Bool
has_prefix [] s = true
has_prefix (c ∷ p) [] = false
has_prefix (c ∷ p) (d ∷ s) = c == d && has_prefix p s

abbrev pub text_slash : Text
unfolding codes
text_slash = codes "text/"

unfoldable pub is_binary_content_type : Text → Bool
unfolding has_prefix
is_binary_content_type ct = not (has_prefix text_slash ct) && not (text_eq ct application_json)
