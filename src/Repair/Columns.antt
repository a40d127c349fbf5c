-- ===== src/Repair/Columns.antt =====
-- internal/repair/actions.go: `CreateCustomColumns` and `BackupLibrary`.
use readsync.Base.{
  ℕ, suc, ◌+◌, Bool, true, false, ◌||◌, List, [], ◌∷◌, ◌++◌, Option, none, some, map, Text, codes,
  is_empty, length, All, ◌≡◌, refl, ap, ◌∙◌, arith, Bool-cases, Option-cases, inl, inr,
  if◌then◌else◌,
}
use readsync.Base.Strings.Split.{split_on, join_with}
use readsync.Resolver.Normalize.{Unicode, trim_space}
use readsync.Calibre.Opf.{contains}
use readsync.Webdav.{rooted}
use readsync.Repair.{
  System, ActionResult, ok_r, fail_r, fail_d, unsafe_path, safe_calibredb_command, safe_abs_path,
  enforce_library_root, safe_child_path,
}

pub record ColDef : Type 0 where
  pub lookup : Text
  pub label : Text
  pub data_type : Text
  pub values : Text

abbrev col : Text → Text → Text → Text → ColDef
col lookup label data_type values = record {
  lookup = lookup;
  label = label;
  data_type = data_type;
  values = values;
}

abbrev pub cols : List ColDef
cols =
    col (codes "readsync_progress") (codes "ReadSync Progress") (codes "int") []
    ∷ col (codes "readsync_progress_mode") (codes "ReadSync Progress Mode") (codes "enumeration")
        (codes "percent,page,raw")
    ∷ col (codes "readsync_status") (codes "ReadSync Status") (codes "enumeration")
        (codes "not_started,reading,finished,abandoned")
    ∷ col (codes "readsync_last_position") (codes "ReadSync Last Position") (codes "text") []
    ∷ col (codes "readsync_last_source") (codes "ReadSync Last Source") (codes "text") []
    ∷ col (codes "readsync_last_synced") (codes "ReadSync Last Synced") (codes "datetime") []
    ∷ col (codes "readsync_conflict") (codes "ReadSync Conflict") (codes "text") []
    ∷ col (codes "readsync_confidence") (codes "ReadSync Confidence") (codes "int") []
    ∷ []

-- The argument of `--display`, empty where there is none.
abbrev pub display : Unicode → Text → Text
display u values =
    if is_empty values
    then []
    else codes "{\"enum_values\":["
      ++ join_with b','
          (map (λ v. codes "\"" ++ trim_space u v ++ codes "\"") (split_on b',' values))
      ++ codes "]}"

-- The counts of the message, or the column that fails with the output of the program.
pub data Columns : Type 0 where
  paths_required invalid_calibredb : Columns
  invalid_library : Text → Columns
  column_failed : Text → Text → Columns
  columns_created : ℕ → ℕ → Columns

abbrev pub run_add_of : System → Unicode → ColDef → Option Text
run_add_of s u c = s.run_add c.lookup c.label c.data_type (display u c.values)

-- Whether the output of a failure says that the column is there.
abbrev pub is_present : Unicode → Text → Bool
is_present u out =
    let lower = map u.to_lower out in
    contains lower (codes "already exists") || contains lower (codes "duplicate")

-- The loop, with the counts so far.
pub add_columns : System → Unicode → ℕ → ℕ → List ColDef → Columns
add_columns s u created skipped [] = columns_created created skipped
add_columns s u created skipped (c ∷ cs) = elim (run_add_of s u c) [
  | none ↦ add_columns s u (suc created) skipped cs
  | some out ↦ elim (is_present u out) [
    | true ↦ add_columns s u created (suc skipped) cs
    | false ↦ column_failed c.lookup out
  ]
]

-- `safeExistingDir`: the directory, or the text of the error.
pub data Found : Type 0 where
  found : List Text → Found
  no_dir : Text → Found

abbrev pub existing : System → Option (List Text) → Found
existing s none = no_dir unsafe_path
existing s (some p) = elim (s.stat_error p) [
  | some e ↦ no_dir e
  | none ↦ if s.is_dir p then found p else no_dir (codes "not a directory")
]

abbrev pub safe_existing_dir : System → Text → Text → Found
safe_existing_dir s cwd p = existing s (safe_abs_path cwd p)

-- `CreateCustomColumns`.
abbrev pub columns_of : System → Unicode → Option Text → Found → Columns
columns_of s u none dir = invalid_calibredb
columns_of s u (some exe) (no_dir e) = invalid_library e
columns_of s u (some exe) (found dir) = add_columns s u 0 0 cols

abbrev pub create_custom_columns : System → Unicode → Text → Text → Text → Columns
create_custom_columns s u cwd calibredb_path library_path =
    if is_empty calibredb_path || is_empty library_path
    then paths_required
    else columns_of s u (safe_calibredb_command u s calibredb_path)
        (safe_existing_dir s cwd library_path)

-- `BackupLibrary`; `stamp` is the text of the time.
abbrev backup_to : System → Text → List Text → ActionResult
backup_to s stamp src =
    let dst = rooted src ++ codes "." ++ stamp ++ codes ".bak" in
    elim (s.copy_error src dst) [
      | some e ↦ fail_d (codes "backup_library") (codes "copy failed") e
      | none ↦ ok_r (codes "backup_library") (codes "backup created at " ++ dst)
    ]

abbrev backup_file : System → Text → Option (List Text) → ActionResult
backup_file s stamp none =
    fail_d (codes "backup_library") (codes "invalid metadata path") unsafe_path
backup_file s stamp (some src) = elim (s.stat_error src) [
  | some e ↦ fail_d (codes "backup_library") (codes "metadata.db not found") e
  | none ↦ backup_to s stamp src
]

abbrev backup_dir : (Text → Text) → Unicode → System → Text → Text → Text → Found → ActionResult
backup_dir fold u s cwd root stamp (no_dir e) =
    fail_d (codes "backup_library") (codes "invalid library path") e
backup_dir fold u s cwd root stamp (found dir) =
    if enforce_library_root fold u cwd root dir
    then backup_file s stamp (safe_child_path fold dir (codes "metadata.db"))
    else fail_d (codes "backup_library") (codes "library path outside allowed root") unsafe_path

abbrev pub backup_library :
    (Text → Text) → Unicode → System → Text → Text → Text → Text → ActionResult
backup_library fold u s cwd root stamp library_path =
    if is_empty library_path
    then fail_r (codes "backup_library") (codes "library path is required")
    else backup_dir fold u s cwd root stamp (safe_existing_dir s cwd library_path)

-- A column is made, or the program says that it is there.
abbrev is_there : Unicode → Option Text → Bool
is_there u none = true
is_there u (some out) = is_present u out

pub Settled : System → Unicode → ℕ → List ColDef → Columns → Type 0
Settled s u n cs (columns_created created skipped) =
    (created + skipped ≡ n + length cs) × All (λ c. is_there u (run_add_of s u c) ≡ true) cs
Settled s u n cs (column_failed lookup out) =
    (c : ColDef) × (run_add_of s u c ≡ some out) × (c.lookup ≡ lookup) × (is_present u out ≡ false)
Settled s u n cs _ = Unit

-- What the rest of a loop settles, the whole loop does, where the column before it is there.
Settled-cons :
    (s : System) (u : Unicode) (n m : ℕ) (c : ColDef) (cs : List ColDef)
    → m ≡ suc n
    → is_there u (run_add_of s u c) ≡ true
    → (r : Columns) → Settled s u m cs r
    → Settled s u n (c ∷ cs) r
unfolding Settled
Settled-cons s u n m c cs e there (columns_created created skipped) (sum, all) =
    (grind arith, (there, all))
Settled-cons s u n m c cs e there (column_failed lookup out) h = h
Settled-cons s u n m c cs e there paths_required h = tt
Settled-cons s u n m c cs e there invalid_calibredb h = tt
Settled-cons s u n m c cs e there (invalid_library text) h = tt

-- `CreateCustomColumns`, from any place in the list: the loop stops at a column that the program
-- refuses for another reason than that the column is there, and names it; or every column is made or
-- there, and each is counted once.
add_columns-Settled :
    (s : System) (u : Unicode) (created skipped : ℕ) (cs : List ColDef)
    → Settled s u (created + skipped) cs (add_columns s u created skipped cs)
unfolding add_columns Settled
add_columns-Settled s u created skipped [] = (omega arith, tt)
add_columns-Settled s u created skipped (c ∷ cs) = elim (Option-cases (run_add_of s u c)) [
  | inl e ↦
      let rest =
        Settled-cons s u (created + skipped) (suc created + skipped) c cs (omega arith)
          (ap (is_there u) e) _ (add_columns-Settled s u (suc created) skipped cs) in
      rw (add_columns, e) rest
  | inr (out, e) ↦ elim (Bool-cases (is_present u out)) [
    | inl there ↦
        let rest =
          Settled-cons s u (created + skipped) (created + suc skipped) c cs (omega arith)
            (ap (is_there u) e ∙ there) _ (add_columns-Settled s u created (suc skipped) cs) in
        rw (add_columns, e, there) rest
    | inr other ↦ rw (add_columns, e, other) (c, e, refl, other)
  ]
]
