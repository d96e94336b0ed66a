-- ===== src/Sse/Frames.antt =====
-- What a client makes of the frames that the server writes, src/protocol/sse.rs.
use durable_streams_referenc.Prelude.{
  ℕ, ◌≡◌, ◌≢◌, refl, ap, ◌∙◌, Bool, true, false, List, [], ◌∷◌, ◌++◌, map, append_assoc, append-nil,
  arith, All,
}
use durable_streams_referenc.Prelude.Text.{Bytes, Text, text_eq, codes}
use durable_streams_referenc.Sse.{
  Codec, split_lines, data_field, event_data, data_lines, format_raw_data_frame,
  format_keepalive_frame, frame_text, format_data_frame, array_content, each_frame,
  format_data_frames,
}
use durable_streams_referenc.Sse.Client.{
  Event, Client, strip_space, joined, data_name, end_line, receive_byte, receive,
}
use durable_streams_referenc.Sse.Content.{
  body_text, array_text, data_event, batch_events, joined-split_lines, frame_text-body,
  array_content-first,
}
use durable_streams_referenc.Sse.Lines.{is_newline, IsLine, split_from-ne, split_lines_lem}

-- A client in the middle of a frame, and one between two frames.
abbrev pub reading : Text → Text → List Text → List Event → Client
reading line name chunks events = record {
  line = line;
  after_cr = false;
  name = name;
  chunks = chunks;
  events = events;
}

abbrev pub idle : List Event → Client
idle events = reading [] [] [] events

pub receive-append : (s t : Text) (c : Client) → receive (s ++ t) c ≡ receive t (receive s c)
unfolding receive
receive-append [] t c = refl
receive-append (b ∷ s) t c = receive-append s t (receive_byte b c)

receive_byte-plain :
    (b : ℕ) (line name : Text) (chunks : List Text) (events : List Event)
    → is_newline b ≡ false
    → receive_byte b (reading line name chunks events) ≡ reading (line ++ b ∷ []) name chunks events
unfolding receive_byte
receive_byte-plain b line name chunks events h = ground arith

receive-IsLine :
    (s line name : Text) (chunks : List Text) (events : List Event)
    → IsLine s
    → receive s (reading line name chunks events) ≡ reading (line ++ s) name chunks events
unfolding receive
receive-IsLine [] line name chunks events h = rw append-nil
receive-IsLine (b ∷ s) line name chunks events h =
    rw (receive_byte-plain b line name chunks events h.0)
      (receive-IsLine s (line ++ b ∷ []) name chunks events h.1 ∙ rw append_assoc)

-- A whole line and its end.
receive_line :
    (line rest name : Text) (chunks : List Text) (events : List Event)
    → IsLine line
    → receive (line ++ b'\n' ∷ rest) (reading [] name chunks events)
      ≡ receive rest (end_line (reading line name chunks events))
receive_line line rest name chunks events h =
    receive-append line (b'\n' ∷ rest) (reading [] name chunks events)
    ∙ rw (receive-IsLine line [] name chunks events h) (unfold receive receive_byte in refl)

end_line-data :
    (line name : Text) (chunks : List Text) (events : List Event)
    → end_line (reading (data_field ++ line) name chunks events)
      ≡ reading [] name (chunks ++ strip_space line ∷ []) events
unfolding end_line text_eq data_field
end_line-data line name chunks events = refl

data_field-IsLine : (line : Text) → IsLine line → IsLine (data_field ++ line)
unfolding data_field
data_field-IsLine line h = (refl, (refl, (refl, (refl, (refl, h)))))

pub receive-data_line :
    (line rest name : Text) (chunks : List Text) (events : List Event)
    → IsLine line
    → receive (data_field ++ line ++ b'\n' ∷ rest) (reading [] name chunks events)
      ≡ receive rest (reading [] name (chunks ++ strip_space line ∷ []) events)
receive-data_line line rest name chunks events h =
    receive_line (data_field ++ line) rest name chunks events (data_field-IsLine line h)
    ∙ rw (end_line-data line name chunks events)

receive-data_lines :
    (lines : List Text) (rest name : Text) (chunks : List Text) (events : List Event)
    → All IsLine lines
    → receive (data_lines lines ++ rest) (reading [] name chunks events)
      ≡ receive rest (reading [] name (chunks ++ map strip_space lines) events)
unfolding data_lines
receive-data_lines [] rest name chunks events h = rw append-nil
receive-data_lines (line ∷ lines) rest name chunks events h =
    ap (λ t. receive t (reading [] name chunks events))
      (append_assoc (data_field ++ line) (b'\n' ∷ data_lines lines) rest)
    ∙ receive-data_line line (data_lines lines ++ rest) name chunks events h.0
    ∙ receive-data_lines lines rest name (chunks ++ strip_space line ∷ []) events h.1
    ∙ rw append_assoc

map-ne : (lines : List Text) → lines ≢ [] → map strip_space lines ≢ []
map-ne [] h e = h refl
map-ne (l ∷ lines) h e = cc

receive-event_data :
    (rest : Text) (events : List Event)
    → receive (event_data ++ rest) (idle events) ≡ receive rest (reading [] data_name [] events)
unfolding receive receive_byte end_line text_eq event_data codes
receive-event_data rest events = refl

-- The empty line behind the data.
pub receive-dispatch :
    (name : Text) (chunks : List Text) (events : List Event)
    → chunks ≢ []
    → receive (b'\n' ∷ []) (reading [] name chunks events)
      ≡ idle (events ++ record { name = name; body = joined chunks } ∷ [])
unfolding receive receive_byte end_line
receive-dispatch name [] events h = absurd (h refl)
receive-dispatch name (s ∷ chunks) events h = refl

-- A data frame is one event, whatever the text holds: the text as a client gets it. No byte
-- of the text ends the frame or starts another field.
pub receive-format_raw_data_frame :
    (text : Text) (events : List Event)
    → receive (format_raw_data_frame text) (idle events) ≡ idle (events ++ data_event text ∷ [])
unfolding format_raw_data_frame
receive-format_raw_data_frame text events =
    let lines = split_lines text in
    ap (λ t. receive t (idle events)) (append_assoc event_data (data_lines lines) (b'\n' ∷ []))
    ∙ receive-event_data (data_lines lines ++ b'\n' ∷ []) events
    ∙ receive-data_lines lines (b'\n' ∷ []) data_name [] events (split_lines_lem text).0
    ∙ receive-dispatch data_name (map strip_space lines) events
        (map-ne lines (split_from-ne [] text))
    ∙ ap (λ body. idle (events ++ record { name = data_name; body = body } ∷ []))
        (joined-split_lines text)

-- No line starts with a space.
abbrev pub StartsPlain : Text → Type 0
StartsPlain line = strip_space line ≡ line

-- The text that the code writes for a JSON batch.
abbrev pub json_text : Codec → List Bytes → Text
json_text codec messages = b'[' ∷ array_content codec true messages [] ++ b']' ∷ []

json_text-array :
    (codec : Codec) (messages : List Bytes) → json_text codec messages ≡ array_text codec messages
json_text-array codec messages =
    ap (λ content. b'[' ∷ content ++ b']' ∷ []) (array_content-first codec messages)

receive-format_data_frame :
    (codec : Codec) (is_binary : Bool) (message : Bytes) (events : List Event)
    → receive (format_data_frame codec message is_binary false) (idle events)
      ≡ idle (events ++ data_event (body_text codec is_binary message) ∷ [])
unfolding format_data_frame
receive-format_data_frame codec is_binary message events =
    receive-format_raw_data_frame (frame_text codec message is_binary false) events
    ∙ ap (λ text. idle (events ++ data_event text ∷ [])) (frame_text-body codec is_binary message)

receive-each_frame :
    (codec : Codec) (is_binary : Bool) (messages : List Bytes) (sent : Text)
    (events done : List Event)
    → receive sent (idle events) ≡ idle (events ++ done)
    → receive (each_frame codec is_binary messages sent) (idle events)
      ≡ idle (
          events
          ++ done
          ++ map (λ message. data_event (body_text codec is_binary message)) messages)
unfolding each_frame
receive-each_frame codec is_binary [] sent events done h = h ∙ rw append-nil
receive-each_frame codec is_binary (m ∷ messages) sent events done h =
    let frame = format_data_frame codec m is_binary false in
    receive-each_frame codec is_binary messages (sent ++ frame) events
      (done ++ data_event (body_text codec is_binary m) ∷ [])
      (receive-append sent frame (idle events)
        ∙ ap (receive frame) h
        ∙ receive-format_data_frame codec is_binary m (events ++ done)
        ∙ rw append_assoc)
    ∙ simp append_assoc

-- The frames of a batch are exactly one event for a JSON stream, the array of the messages, and one
-- event for each message, in order, for any other, its base64 if the stream is binary and else its
-- text; no messages are no event. (A client gets every line ending of a text as "\n", and a line
-- without one space in front of it.)
pub receive-format_data_frames :
    (codec : Codec) (messages : List Bytes) (is_binary is_json : Bool) (events : List Event)
    → receive (format_data_frames codec messages is_binary is_json) (idle events)
      ≡ idle (events ++ batch_events codec messages is_binary is_json)
unfolding format_data_frames
receive-format_data_frames codec [] is_binary is_json events = unfold receive in rw append-nil
receive-format_data_frames codec (m ∷ messages) is_binary true events =
    receive-format_raw_data_frame (json_text codec (m ∷ messages)) events
    ∙ ap (λ text. idle (events ++ data_event text ∷ [])) (json_text-array codec (m ∷ messages))
receive-format_data_frames codec (m ∷ messages) is_binary false events =
    receive-each_frame codec is_binary (m ∷ messages) [] events [] (unfold receive in rw append-nil)
    ∙ rw append-nil

-- A keep-alive is no event.
pub receive-format_keepalive_frame :
    (events : List Event) → receive format_keepalive_frame (idle events) ≡ idle events
unfolding format_keepalive_frame receive receive_byte end_line text_eq codes
receive-format_keepalive_frame events = refl
