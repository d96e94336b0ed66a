-- ===== src/File/Containment.antt =====
-- The directory of a stream, `stream_dir_for_name` of src/storage/file.rs, lies right below the root.
use durable_streams_referenc.Prelude.{◌≡◌, ◌≢◌, refl, ap, ◌∙◌, true, [], ◌∷◌, ◌++◌, arith, all}
use durable_streams_referenc.Prelude.Text.{Bytes, Text}
use durable_streams_referenc.Error.{ok}
use durable_streams_referenc.File.Path.{components, join}
use durable_streams_referenc.File.Path.Depth.{is_plain, components-join}
use durable_streams_referenc.File.Dir.{is_name_char, stream_dir_for_name}

name_chars-plain : (name : Text) → all is_name_char name ≡ true → all is_plain name ≡ true
unfolding is_name_char
name_chars-plain [] h = refl
name_chars-plain (c ∷ name) h = ground (arith, name_chars-plain name)

-- Whatever the encoder makes of a name, if it is not empty and the directory is accepted, then the
-- directory's components are those of the root and the encoded name, which has only letters,
-- digits, `-` and `_`.
pub stream_dir_for_name-contained :
    (encode : Bytes → Text) (root_dir name dir : Text)
    → encode name ≢ []
    → stream_dir_for_name encode root_dir name ≡ ok dir
    → (components dir ≡ components root_dir ++ encode name ∷ [])
      × (all is_name_char (encode name) ≡ true)
unfolding stream_dir_for_name
stream_dir_for_name-contained encode root_dir name dir some_name accepted =
    let chars : all is_name_char (encode name) ≡ true = ground arith in
    let below =
      components-join root_dir (encode name) some_name (name_chars-plain (encode name) chars) in
    let joined : dir ≡ join root_dir (encode name) = ground arith in
    (ap components joined ∙ below, chars)
