-- ===== src/Sse/Spaces.antt =====
-- The space in front of a line of a Server-Sent Event, src/protocol/sse.rs.
use durable_streams_referenc.Prelude.{
  ◌≡◌, refl, sym, ap, ◌∙◌, List, [], ◌∷◌, ◌++◌, map, append_assoc, append-nil, arith, All,
}
use durable_streams_referenc.Prelude.Text.{Text}
use durable_streams_referenc.Sse.{split_from, split_lines, format_raw_data_frame}
use durable_streams_referenc.Sse.Client.{Event, strip_space, joined, data_name, receive}
use durable_streams_referenc.Sse.Content.{joined-split_lines}
use durable_streams_referenc.Sse.Lines.{IsLine, split_lines_lem, normalised}
use durable_streams_referenc.Sse.Frames.{idle, StartsPlain, receive-format_raw_data_frame}

-- The values of the lines of a text, as a client joins them.
abbrev delivered : Text → Text
delivered text = joined (map strip_space (split_lines text))

map-strip_space : (lines : List Text) → All StartsPlain lines → map strip_space lines ≡ lines
map-strip_space [] h = refl
map-strip_space (l ∷ lines) h = cc (h.0, map-strip_space lines h.1)

delivered_plain :
    (text : Text) → All StartsPlain (split_lines text) → delivered text ≡ normalised text
delivered_plain text h = ap joined (map-strip_space (split_lines text) h) ∙ (split_lines_lem text).1

split_from_plain : (line s : Text) → IsLine s → split_from line s ≡ (line ++ s) ∷ []
unfolding split_from
split_from_plain line [] h = rw append-nil
split_from_plain line (c ∷ []) h = ground arith
split_from_plain line (c ∷ d ∷ s) h =
    ground
      (arith, split_from_plain (line ++ c ∷ []) (d ∷ s) h.1, append_assoc line (c ∷ []) (d ∷ s))

delivered_space : (text : Text) → IsLine (32 ∷ text) → delivered (32 ∷ text) ≡ text
unfolding split_lines
delivered_space text h =
    ap (λ lines. joined (map strip_space lines)) (split_from_plain [] (32 ∷ text) h)

-- Where no line of the text starts with a space, a client gets the text with each line ending written
-- as "\n".
receive-format_raw_data_frame_plain :
    (text : Text) (events : List Event)
    → All StartsPlain (split_lines text)
    → receive (format_raw_data_frame text) (idle events)
      ≡ idle (events ++ record { name = data_name; body = normalised text } ∷ [])
receive-format_raw_data_frame_plain text events h =
    receive-format_raw_data_frame text events
    ∙ ap (λ body. idle (events ++ record { name = data_name; body = body } ∷ []))
        (sym (joined-split_lines text) ∙ delivered_plain text h)

-- A text of one line that starts with a space reaches a client without that space.
receive-format_raw_data_frame_space :
    (text : Text) (events : List Event)
    → IsLine (32 ∷ text)
    → receive (format_raw_data_frame (32 ∷ text)) (idle events)
      ≡ idle (events ++ record { name = data_name; body = text } ∷ [])
receive-format_raw_data_frame_space text events h =
    receive-format_raw_data_frame (32 ∷ text) events
    ∙ ap (λ body. idle (events ++ record { name = data_name; body = body } ∷ []))
        (sym (joined-split_lines (32 ∷ text)) ∙ delivered_space text h)
