-- ===== src/JsonMode.antt =====
-- src/protocol/json_mode.rs: a JSON body is one message, or one message for each element of an
-- array, and a read puts the messages back into an array. serde_json is a parameter.
pub mod Wrap
mod Examples
use durable_streams_referenc.Prelude.{
  Bool, true, false, ◌⊎◌, inl, inr, Option, none, some, List, [], ◌∷◌, ◌++◌, map, if◌then◌else◌,
}
use durable_streams_referenc.Prelude.Text.{Bytes, Text, codes, text_eq}
use durable_streams_referenc.Error.{invalid_json, Result, ok, err}

-- What the code uses of `serde_json`: the parser, which gives the text of its error or the value,
-- the test for `Value::Array`, and the serialiser, whose error the code excludes by `expect`.
pub record Serde : Type 1 where
  pub Value : Type 0
  pub from_slice : Bytes → Text ⊎ Value
  pub as_array : Value → Option (List Value)
  pub to_vec : Value → Bytes

messages_of : (serde : Serde) → serde.Value → List Bytes
messages_of serde value = elim (serde.as_array value) [
  | some arr ↦ map serde.to_vec arr
  | none ↦ serde.to_vec value ∷ []
]

unfoldable pub process_append : Serde → Bytes → Result (List Bytes)
unfolding messages_of
process_append serde body = elim (serde.from_slice body) [
  | inl e ↦ err (invalid_json e)
  | inr value ↦ ok (messages_of serde value)
]

-- The loop of `wrap_read_iter`, on the messages left, `wrote_any` and `out`.
unfoldable pub wrap_loop : List Bytes → Bool → Bytes → Bytes
wrap_loop [] wrote_any out = out
wrap_loop (msg ∷ messages) wrote_any out =
    wrap_loop messages true ((if wrote_any then out ++ b',' ∷ [] else out) ++ msg)

unfoldable pub wrap_read : List Bytes → Bytes
unfolding wrap_loop
wrap_read messages = wrap_loop messages false (b'[' ∷ []) ++ b']' ∷ []

abbrev pub application_json : Text
unfolding codes
application_json = codes "application/json"

unfoldable pub is_json_content_type : Text → Bool
is_json_content_type content_type = text_eq content_type application_json
