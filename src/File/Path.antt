-- ===== src/File/Path.antt =====
-- The paths of src/storage/file.rs. A path is its text; `join`, `components` and `starts_with` are those
-- of the standard library for Unix.
pub mod Depth
use durable_streams_referenc.Prelude.{
  ℕ, Bool, true, false, ◌&&◌, List, [], ◌∷◌, ◌++◌, ◌==◌, if◌then◌else◌,
}
use durable_streams_referenc.Prelude.Text.{Text, text_eq}

abbrev pub sep : ℕ
sep = b'/'

-- `Path::components`, cut at the separators: empty parts are dropped, and a `.` that is not the
-- first. A path that begins with a separator has the root for its first component.
split_path : Text → List Text
split_path [] = [] ∷ []
split_path (c ∷ path) = elim (split_path path) [
  | [] ↦ [] ∷ []
  | part ∷ parts ↦ if c == sep then [] ∷ part ∷ parts else (c ∷ part) ∷ parts
]

is_skipped : Text → Bool
is_skipped [] = true
is_skipped (c ∷ []) = c == b'.'
is_skipped _ = false

keep_normal : List Text → List Text
keep_normal [] = []
keep_normal (part ∷ parts) =
    let rest = keep_normal parts in if is_skipped part then rest else part ∷ rest

unfoldable pub components : Text → List Text
unfolding split_path keep_normal is_skipped
components path = elim (split_path path) [
  | [] ↦ []
  | [] ∷ [] ↦ []
  | [] ∷ part ∷ parts ↦ (sep ∷ []) ∷ keep_normal (part ∷ parts)
  | (c ∷ first) ∷ parts ↦ (c ∷ first) ∷ keep_normal parts
]

is_prefix : List Text → List Text → Bool
is_prefix [] parts = true
is_prefix (x ∷ xs) [] = false
is_prefix (x ∷ xs) (y ∷ ys) = text_eq x y && is_prefix xs ys

-- `path.path_starts_with(base)`, component by component
unfoldable pub path_starts_with : Text → Text → Bool
unfolding is_prefix
path_starts_with path base = is_prefix (components base) (components path)

ends_with_sep : Text → Bool
ends_with_sep [] = true
ends_with_sep (c ∷ []) = c == sep
ends_with_sep (c ∷ path) = ends_with_sep path

-- `path.join(name)`: an absolute name takes the place of the path.
unfoldable pub join : Text → Text → Text
unfolding ends_with_sep
join path [] = if ends_with_sep path then path else path ++ sep ∷ []
join path (c ∷ name) =
    if c == sep
    then c ∷ name
    else if ends_with_sep path
    then path ++ c ∷ name
    else path ++ sep ∷ c ∷ name
