-- ===== src/Sse/Content.antt =====
-- What the text of a Server-Sent Event is to a client, src/protocol/sse.rs: the event that a message or
-- a JSON batch stands for, told without the code's lines and frames.
use durable_streams_referenc.Prelude.{
  ◌≡◌, refl, sym, ap, ◌∙◌, Bool, true, false, ◌&&◌, List, [], ◌∷◌, ◌++◌, map, append_assoc,
  append-nil, arith, ◌==◌, if◌then◌else◌, All,
}
use durable_streams_referenc.Prelude.Text.{Bytes, Text}
use durable_streams_referenc.JsonMode.Wrap.{with_commas, separated}
use durable_streams_referenc.Sse.{Codec, split_lines, array_content, frame_text}
use durable_streams_referenc.Sse.Client.{Event, data_name, strip_space, joined}
use durable_streams_referenc.Sse.Lines.{IsLine, split_lines_lem, normalised}

-- The text with one space taken away in front of each line; `first` at the beginning of a line.
abbrev pub unspaced : (first : Bool) → Text → Text
unspaced first [] = []
unspaced first (c ∷ s) =
    let next_line = b'\n' ∷ unspaced true s in
    let same_line = unspaced false s in
    if c == b'\n' then next_line else if first && c == 32 then same_line else c ∷ same_line

-- What a client gets of a text: every line ending is "\n", and a line loses one space in front.
abbrev pub received_text : Text → Text
received_text text = unspaced true (normalised text)

abbrev pub data_event : Text → Event
data_event text = record { name = data_name; body = received_text text }

-- The text that a message is sent as.
abbrev pub body_text : Codec → (is_binary : Bool) → Bytes → Text
body_text codec true message = codec.base64 message
body_text codec false message = codec.from_utf8_lossy message

-- The array of the messages, with a comma between any two.
abbrev pub array_text : Codec → List Bytes → Text
array_text codec messages = b'[' ∷ separated (map codec.from_utf8_lossy messages) ++ b']' ∷ []

-- The events that a batch of messages stands for.
abbrev pub batch_events : Codec → List Bytes → (is_binary is_json : Bool) → List Event
batch_events codec [] is_binary is_json = []
batch_events codec (m ∷ messages) is_binary true = data_event (array_text codec (m ∷ messages)) ∷ []
batch_events codec (m ∷ messages) is_binary false =
    map (λ message. data_event (body_text codec is_binary message)) (m ∷ messages)

unspaced-line : (line : Text) → IsLine line → unspaced false line ≡ line
unspaced-line [] h = refl
unspaced-line (c ∷ line) h = ground (arith, h.0, unspaced-line line h.1)

unspaced-line_end :
    (line rest : Text)
    → IsLine line
    → unspaced false (line ++ b'\n' ∷ rest) ≡ line ++ b'\n' ∷ unspaced true rest
unspaced-line_end [] rest h = refl
unspaced-line_end (c ∷ line) rest h = ground (arith, h.0, unspaced-line_end line rest h.1)

strip_space-unspaced : (line : Text) → IsLine line → unspaced true line ≡ strip_space line
strip_space-unspaced [] h = refl
strip_space-unspaced (c ∷ line) h = ground (arith, h.0, unspaced-line line h.1)

strip_space-unspaced_end :
    (line rest : Text)
    → IsLine line
    → unspaced true (line ++ b'\n' ∷ rest) ≡ strip_space line ++ b'\n' ∷ unspaced true rest
strip_space-unspaced_end [] rest h = refl
strip_space-unspaced_end (c ∷ line) rest h = ground (arith, h.0, unspaced-line_end line rest h.1)

joined-unspaced :
    (lines : List Text)
    → All IsLine lines
    → unspaced true (joined lines) ≡ joined (map strip_space lines)
joined-unspaced [] h = refl
joined-unspaced (line ∷ []) h = strip_space-unspaced line h.0
joined-unspaced (line ∷ l ∷ lines) h =
    strip_space-unspaced_end line (joined (l ∷ lines)) h.0
    ∙ ap (λ t. strip_space line ++ b'\n' ∷ t) (joined-unspaced (l ∷ lines) h.1)

-- The values of the lines that the code cuts a text into, as a client joins them.
pub joined-split_lines :
    (text : Text) → joined (map strip_space (split_lines text)) ≡ received_text text
joined-split_lines text =
    let (lines, whole) = split_lines_lem text in
    sym (joined-unspaced (split_lines text) lines) ∙ ap (unspaced true) whole

pub frame_text-body :
    (codec : Codec) (is_binary : Bool) (message : Bytes)
    → frame_text codec message is_binary false ≡ body_text codec is_binary message
unfolding frame_text
frame_text-body codec true message = refl
frame_text-body codec false message = refl

array_content-later :
    (codec : Codec) (messages : List Bytes) (content : Text)
    → array_content codec false messages content
      ≡ content ++ with_commas (map codec.from_utf8_lossy messages)
unfolding array_content
array_content-later codec [] content = rw append-nil
array_content-later codec (m ∷ messages) content =
    array_content-later codec messages ((content ++ b',' ∷ []) ++ codec.from_utf8_lossy m)
    ∙ simp append_assoc

pub array_content-first :
    (codec : Codec) (messages : List Bytes)
    → array_content codec true messages [] ≡ separated (map codec.from_utf8_lossy messages)
unfolding array_content
array_content-first codec [] = refl
array_content-first codec (m ∷ messages) =
    array_content-later codec messages (codec.from_utf8_lossy m)
