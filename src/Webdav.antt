-- ===== src/Webdav.antt =====
-- internal/adapters/webdav: the names under which an upload is kept, in the archive (archive.go) and
-- in the file system that the server serves (versioned_fs.go), and the users (webdav.go). The paths
-- are those of Unix, where `filepath` is `path`.
pub mod Names
pub mod Clean
pub mod Archive
pub mod Files
pub mod Users
pub mod Tests
use readsync.Base.{
  ℕ, ◌+◌, Bool, true, false, not, ◌&&◌, ◌||◌, List, [], ◌∷◌, ◌++◌, Option, none, some, map, Text,
  codes, is_empty, text_eq, ◌==◌, if◌then◌else◌, first, exists,
}
use readsync.Base.Strings.Split.{split_on, join_with}
use mathlib.Core.List.{reverse}

-- `strings.ReplaceAll(s, "..", "_")`.
abbrev pub replace_dots : Text → Text
replace_dots [] = []
replace_dots (c ∷ []) = c ∷ []
replace_dots (c ∷ d ∷ s) = elim (c == b'.' && d == b'.') [
  | true ↦ b'_' ∷ replace_dots s
  | false ↦ c ∷ replace_dots (d ∷ s)
]

-- `strings.ReplaceAll` of one character by `_`.
abbrev pub replace_code : ℕ → Text → Text
replace_code c s = map (λ d. if d == c then b'_' else d) s

-- The loop over the unsafe characters.
abbrev pub replace_codes : List ℕ → Text → Text
replace_codes [] s = s
replace_codes (c ∷ cs) s = replace_codes cs (replace_code c s)

abbrev pub unsafe_codes : List ℕ
unsafe_codes = codes "\\:*?\"<>|"

abbrev pub or_underscore : Text → Text
or_underscore s = if is_empty s then codes "_" else s

-- `safeName`.
pub safe_name : Text → Text
safe_name s = or_underscore (replace_codes unsafe_codes (replace_dots s))

-- `safeRelPath`.
abbrev pub safe_rel_path : Text → Text
safe_rel_path p = join_with b'/' (map safe_name (split_on b'/' p))

-- `path.Clean` of a path from the root, as the names that are left, the last one first.
abbrev pub parent : List Text → List Text
parent [] = []
parent (name ∷ names) = names

abbrev pub is_blank : Text → Bool
is_blank part = is_empty part || text_eq part (codes ".")

abbrev pub clean_parts : List Text → List Text → List Text
clean_parts names [] = reverse names
clean_parts names (part ∷ parts) = elim (is_blank part) [
  | true ↦ clean_parts names parts
  | false ↦ elim (text_eq part (codes "..")) [
    | true ↦ clean_parts (parent names) parts
    | false ↦ clean_parts (part ∷ names) parts
  ]
]

abbrev pub clean : Text → List Text
clean p = clean_parts [] (split_on b'/' p)

abbrev pub rooted : List Text → Text
rooted names = b'/' ∷ join_with b'/' names

-- `archiveDir`, below the data directory.
abbrev pub archive_dir : Text → Text → List Text
archive_dir user clean_path =
    clean (join_with b'/' (codes "raw" ∷ safe_name user ∷ safe_rel_path clean_path ∷ []))

-- `strings.Trim(p, "/")`.
abbrev trim_left_slashes : Text → Text
trim_left_slashes [] = []
trim_left_slashes (c ∷ s) = if c == b'/' then trim_left_slashes s else c ∷ s

abbrev pub trim_slashes : Text → Text
trim_slashes p = reverse (trim_left_slashes (reverse (trim_left_slashes p)))

-- `scopedName`: the scoped path and the clean path, as names. No user is an anonymous request.
abbrev pub scoped_name : Text → Text → Option (List Text × List Text)
scoped_name user name =
    if is_empty user
    then none
    else some (clean (join_with b'/' (codes "/u" ∷ user ∷ rooted (clean name) ∷ [])), clean name)
