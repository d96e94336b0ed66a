-- ===== src/Sse/Client.antt =====
-- An event-stream client as the HTML standard describes it: a line ends at "\r\n", "\n" or "\r"; a
-- line "field: value" loses one space in front of the value; an empty line dispatches the event
-- whose data are the values of its `data` fields, with "\n" between any two.
use durable_streams_referenc.Prelude.{
  ℕ, Bool, true, false, List, [], ◌∷◌, ◌++◌, ◌==◌, if◌then◌else◌,
}
use durable_streams_referenc.Prelude.Text.{Text, codes, text_eq}

pub record Event : Type 0 where
  pub name : Text
  pub body : Text

pub record Client : Type 0 where
  pub line : Text
  pub after_cr : Bool
  pub name : Text
  pub chunks : List Text
  pub events : List Event

abbrev pub strip_space : Text → Text
strip_space [] = []
strip_space (c ∷ s) = if c == 32 then s else c ∷ s

abbrev pub field_name : Text → Text
field_name [] = []
field_name (c ∷ s) = if c == b':' then [] else c ∷ field_name s

abbrev pub field_value : Text → Text
field_value [] = []
field_value (c ∷ s) = if c == b':' then strip_space s else field_value s

abbrev pub joined : List Text → Text
joined [] = []
joined (s ∷ []) = s
joined (s ∷ t ∷ rest) = s ++ b'\n' ∷ joined (t ∷ rest)

abbrev pub data_name : Text
unfolding codes
data_name = codes "data"

abbrev pub event_name : Text
unfolding codes
event_name = codes "event"

-- A complete line, `line`, that is not empty.
unfoldable pub take_field : Text → Client → Client
take_field line c =
    if text_eq (field_name line) data_name
    then record c { chunks = c.chunks ++ field_value line ∷ [] }
    else if text_eq (field_name line) event_name
    then record c { name = field_value line }
    else c

dispatch_chunks : List Text → Client → Client
dispatch_chunks [] c = record c { name = [] }
dispatch_chunks (s ∷ rest) c = record c {
  name = [];
  chunks = [];
  events = c.events ++ record { name = c.name; body = joined (s ∷ rest) } ∷ [];
}

unfoldable pub dispatch : Client → Client
unfolding dispatch_chunks
dispatch c = dispatch_chunks c.chunks c

end_line_of : Text → Client → Client
end_line_of [] c = dispatch c
end_line_of (b ∷ line) c = take_field (b ∷ line) (record c { line = [] })

unfoldable pub end_line : Client → Client
unfolding end_line_of dispatch take_field
end_line c = end_line_of c.line c

unfoldable pub receive_byte : ℕ → Client → Client
unfolding end_line
receive_byte b c =
    if b == b'\r'
    then record (end_line c) { after_cr = true }
    else if b == b'\n'
    then (if c.after_cr then record c { after_cr = false } else end_line c)
    else record c { line = c.line ++ b ∷ []; after_cr = false }

unfoldable pub receive : Text → Client → Client
unfolding receive_byte
receive [] c = c
receive (b ∷ s) c = receive s (receive_byte b c)
