-- ===== src/Repair.antt =====
-- internal/repair/actions.go: the repair actions and the checks of the paths that they are given. The
-- programs and the file system are parameters. The paths are those of Unix, as names from the root; a
-- path that is not absolute starts at the working directory.
pub mod Paths
pub mod Columns
pub mod Retry
pub mod Actions
pub mod Tests
use readsync.Base.{
  ℕ, suc, ◌+◌, Bool, true, false, not, ◌&&◌, ◌||◌, List, [], ◌∷◌, ◌++◌, Option, none, some, map,
  Text, codes, is_empty, text_eq, ◌==◌, exists, is_some, if◌then◌else◌,
}
use readsync.Base.Strings.{has_code, cut_last}
use readsync.Base.Strings.Split.{split_on, join_with}
use readsync.Koreader.{has_prefix}
use readsync.Resolver.Normalize.{Unicode, trim_space}
use readsync.Calibre.Opf.{contains}
use readsync.Webdav.{clean, clean_parts, rooted}
use readsync.Webdav.Archive.{names_eq}

pub record ActionResult : Type 0 where
  pub action : Text
  pub ok : Bool
  pub message : Text
  pub detail : Text

-- `okR`, `failR` and `failD`.
abbrev pub ok_r : Text → Text → ActionResult
ok_r action message = record { action = action; ok = true; message = message; detail = [] }

abbrev pub fail_d : Text → Text → Text → ActionResult
fail_d action message detail = record {
  action = action;
  ok = false;
  message = message;
  detail = detail;
}

abbrev pub fail_r : Text → Text → ActionResult
fail_r action message = fail_d action message []

-- The text of `errUnsafePath`.
abbrev pub unsafe_path : Text
unsafe_path = codes "unsafe path"

-- `filepath.IsAbs`.
abbrev pub is_abs : Text → Bool
is_abs p = has_prefix p (codes "/")

-- `hasUnsafePathComponent`: the parts between slashes of either kind.
abbrev pub slashed : Text → Text
slashed p = map (λ c. if c == b'\\' then b'/' else c) p

abbrev pub has_unsafe_path_component : Text → Bool
has_unsafe_path_component p = exists (λ part. text_eq part (codes "..")) (split_on b'/' (slashed p))

-- `strings.ContainsAny`.
abbrev pub contains_any : List ℕ → Text → Bool
contains_any cs p = exists (λ c. has_code c p) cs

-- `filepath.Abs(filepath.Clean(p))`.
abbrev pub abs : Text → Text → List Text
abs cwd p = if is_abs p then clean p else clean (join_with b'/' (cwd ∷ p ∷ []))

-- `safeAbsPath`.
abbrev pub safe_abs_path : Text → Text → Option (List Text)
safe_abs_path cwd p =
    if is_empty p || contains_any (0 ∷ 13 ∷ 10 ∷ []) p || has_unsafe_path_component p
    then none
    else some (abs cwd p)

-- `isPathWithin`, of clean absolute paths: `filepath.Rel` does not lead up exactly if the one path begins
-- with the names of the other.
abbrev pub begins_with : List Text → List Text → Bool
begins_with [] names = true
begins_with (r ∷ root) [] = false
begins_with (r ∷ root) (n ∷ names) = text_eq r n && begins_with root names

abbrev pub is_path_within : (Text → Text) → List Text → List Text → Bool
is_path_within fold root candidate =
    text_eq (fold (rooted root)) (fold (rooted candidate)) || begins_with root candidate

-- `safeChildPath`, of a root that is an absolute path; joined to it, the child is cleaned.
pub safe_child_path : (Text → Text) → List Text → Text → Option (List Text)
safe_child_path fold root child =
    let abs_child = clean (join_with b'/' (rooted root ∷ child ∷ [])) in
    if is_empty child || is_abs child || has_unsafe_path_component child
    then none
    else if is_path_within fold root abs_child
    then some abs_child
    else none

-- `enforceLibraryRoot`, where `root` is the value of READSYNC_LIBRARY_ROOT.
abbrev pub within_root : (Text → Text) → Option (List Text) → Option (List Text) → Bool
within_root fold none path = false
within_root fold (some root) none = false
within_root fold (some root) (some path) = is_path_within fold root path

abbrev pub enforce_library_root : (Text → Text) → Unicode → Text → Text → List Text → Bool
enforce_library_root fold u cwd root path =
    let root' = trim_space u root in
    if is_empty root'
    then true
    else within_root fold (safe_abs_path cwd root') (safe_abs_path cwd (rooted path))

-- What the system does, an error as its text: `look_path` searches the PATH, `stat_error` is what `os.Stat`
-- of a checked path fails with, `copy_error` what `copyFile` does, and `run_add` is `calibredb add_custom_column` with its output where it fails.
pub record System : Type 0 where
  pub look_path : Text → Option Text
  pub is_installed : Text → Bool
  pub is_dir : List Text → Bool
  pub stat_error : List Text → Option Text
  pub copy_error : List Text → Text → Option Text
  pub run_add : Text → Text → Text → Text → Option Text

-- `FindCalibredb`.
abbrev pub first_path : System → List Text → Option Text
first_path s [] = none
first_path s (name ∷ names) = elim (s.look_path name) [
  | some p ↦ some p
  | none ↦ first_path s names
]

abbrev pub first_there : System → List Text → Option Text
first_there s [] = none
first_there s (p ∷ ps) = if s.is_installed p then some p else first_there s ps

abbrev pub common_dirs : List Text
common_dirs =
    codes "C:\\Program Files\\Calibre2\\calibredb.exe"
    ∷ codes "C:\\Program Files (x86)\\Calibre2\\calibredb.exe"
    ∷ codes "C:\\Program Files\\calibre\\calibredb.exe"
    ∷ codes "C:\\Program Files (x86)\\calibre\\calibredb.exe"
    ∷ codes "C:\\Calibre2\\calibredb.exe"
    ∷ []

abbrev pub find_calibredb : System → ActionResult
find_calibredb s = elim (first_path s (codes "calibredb" ∷ codes "calibredb.exe" ∷ [])) [
  | some p ↦ ok_r (codes "find_calibredb") p
  | none ↦ elim (first_there s common_dirs) [
    | some p ↦ ok_r (codes "find_calibredb") p
    | none ↦
        fail_d (codes "find_calibredb") (codes "calibredb not found on PATH or common install dirs")
          (codes "Install Calibre or add it to PATH.")
  ]
]

-- `safeCalibredbCommand`.
abbrev last_part : Text → List Text → Text
last_part name [] = name
last_part name (part ∷ parts) = last_part (if is_empty part then name else part) parts

-- `filepath.Base`.
abbrev base_name : Text → Text
base_name p = last_part (if is_empty p then codes "." else codes "/") (split_on b'/' p)

abbrev or_name : Text → Option Text → Text
or_name name none = name
or_name name (some p) = p

abbrev pub safe_calibredb_command : Unicode → System → Text → Option Text
safe_calibredb_command u s p =
    let base = map u.to_lower (base_name p) in
    if contains_any (0 ∷ 13 ∷ 10 ∷ []) p
      || has_prefix p (codes "-")
      || contains_any (codes ";&|`$<>") p
      || has_unsafe_path_component p
    then none
    else if text_eq base (codes "calibredb.exe")
    then some (or_name (codes "calibredb.exe") (s.look_path (codes "calibredb.exe")))
    else if text_eq base (codes "calibredb")
    then some (or_name (codes "calibredb") (s.look_path (codes "calibredb")))
    else none
