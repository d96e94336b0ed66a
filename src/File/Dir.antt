-- ===== src/File/Dir.antt =====
-- src/storage/file.rs: the directory of a stream. What the file system answers is an argument.
use durable_streams_referenc.Prelude.{
  ℕ, ◌-◌, Bool, false, ◌&&◌, ◌||◌, not, Option, none, some, [], ◌∷◌, ◌++◌, leb, ◌==◌, ◌⊎◌, inl, inr,
  if◌then◌else◌, length, all,
}
use durable_streams_referenc.Prelude.Text.{Bytes, Text, codes}
use durable_streams_referenc.Error.{Error, storage, Result, ok, err, ◌>>◌}
use durable_streams_referenc.Headers.{contains}
use durable_streams_referenc.File.Path.{components, path_starts_with, join}

-- `encoded.contains("..")`
contains_dots : Text → Bool
contains_dots [] = false
contains_dots (c ∷ []) = false
contains_dots (c ∷ d ∷ s) = (c == b'.' && d == b'.') || contains_dots (d ∷ s)

-- `c.is_ascii_alphanumeric() || c == '-' || c == '_'`
unfoldable pub is_name_char : ℕ → Bool
is_name_char c =
    (leb b'0' c && leb c b'9')
    || (leb b'A' c && leb c b'Z')
    || (leb b'a' c && leb c b'z')
    || c == b'-'
    || c == b'_'

-- `format!("{what}{path}: {e}")` as the message of a storage error
abbrev pub failed_at : Text → Text → Text → Error
failed_at what path e = storage (what ++ (path ++ (b':' ∷ b' ' ∷ e)))

abbrev pub denied : Text → Text → Error
denied what path = storage (what ++ path)

-- `stream_dir_for_name`; `encode` is base64's `BASE64_URL_SAFE_NO_PAD.encode`.
unfoldable pub stream_dir_for_name : (encode : Bytes → Text) → Text → Text → Result Text
unfolding contains_dots codes
stream_dir_for_name encode root_dir name =
    let encoded = encode name in
    let dir = join root_dir encoded in
    if contains_dots encoded || contains b'/' encoded || contains b'\\' encoded
    then err (storage (codes "encoded stream name contains path traversal characters"))
    else if not (all is_name_char encoded)
    then err (storage (codes "encoded stream directory contains invalid characters"))
    else if not (path_starts_with dir root_dir)
    then err (denied (codes "stream directory escapes storage root: ") encoded)
    else ok dir

-- What the file system says of a path that exists; an error has a text.
pub record DirFacts : Type 0 where
  pub is_symlink : Bool
  pub is_dir : Bool

pub record Roots : Type 0 where
  pub root_dir : Text
  pub root_dir_canonical : Text

-- The answers of `dir.exists()`, `fs::symlink_metadata(dir)` and `fs::canonicalize(dir)`.
pub record DirIo : Type 0 where
  pub exists : Bool
  pub symlink_metadata : Text ⊎ DirFacts
  pub canonicalize : Text ⊎ Text

check_canonical : Roots → DirIo → Text → Result (Unit {0})
unfolding codes
check_canonical roots io dir = elim io.canonicalize [
  | inl e ↦ err (failed_at (codes "failed to canonicalize stream directory ") dir e)
  | inr canonical ↦
      if not (path_starts_with canonical roots.root_dir_canonical)
      then err (denied (codes "stream directory resolves outside storage root: ") dir)
      else ok tt
]

check_existing : Roots → DirIo → Text → Result (Unit {0})
unfolding codes check_canonical
check_existing roots io dir = elim io.symlink_metadata [
  | inl e ↦ err (failed_at (codes "failed to stat stream directory ") dir e)
  | inr facts ↦
      if facts.is_symlink
      then err (denied (codes "stream directory cannot be a symlink: ") dir)
      else if not facts.is_dir
      then err (denied (codes "stream path is not a directory: ") dir)
      else check_canonical roots io dir
]

-- `validate_stream_dir`; `strip_prefix` does not fail behind the first test.
unfoldable pub validate_stream_dir : Roots → DirIo → Text → Result (Unit {0})
unfolding codes check_existing
validate_stream_dir roots io dir =
    let depth : ℕ = length (components dir) - length (components roots.root_dir) in
    if not (path_starts_with dir roots.root_dir)
    then err (denied (codes "path escapes storage root: ") dir)
    else if not (depth == 1)
    then err (denied (codes "invalid stream path depth: ") dir)
    else if io.exists
    then check_existing roots io dir
    else ok tt

-- `remove_stream_dir`; `remove_dir_all` may fail with an error.
unfoldable pub remove_stream_dir :
    Roots → DirIo → (remove_dir_all : Option Text) → Text → Result (Unit {0})
unfolding codes
remove_stream_dir roots io remove_dir_all dir = do
  validate_stream_dir roots io dir
  elim remove_dir_all [
    | some e ↦ err (failed_at (codes "failed to remove stream directory ") dir e)
    | none ↦ ok tt
  ]

unfoldable pub data_log_path : Text → Text
unfolding codes
data_log_path dir = join dir (codes "data.log")

unfoldable pub meta_path : Text → Text
unfolding codes
meta_path dir = join dir (codes "meta.json")

-- `open_stream_file`, whether it succeeds; `open` may fail with an error.
unfoldable pub open_stream_file :
    Roots → DirIo → (open_log : Option Text) → Text → Result (Unit {0})
unfolding codes
open_stream_file roots io open_log dir = do
  validate_stream_dir roots io dir
  elim open_log [
    | some e ↦ err (failed_at (codes "failed to open stream log ") (data_log_path dir) e)
    | none ↦ ok tt
  ]
