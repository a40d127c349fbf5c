-- ===== src/Repair/Actions.antt =====
-- internal/repair/actions_more.go and the rest of internal/repair/repair.go: reports, credentials, the firewall,
-- the service, the database, ports and hints. The paths are those of Unix; `stamp` is the text of the time and
-- `number` the format `%d`.
use readsync.Base.{
  ℕ, zero, suc, Bool, true, false, not, ◌||◌, List, [], ◌∷◌, ◌++◌, Option, none, some, map, Text,
  codes, is_empty, select, length, if◌then◌else◌,
}
use readsync.Base.Strings.{cut_last}
use readsync.Resolver.Normalize.{Unicode}
use readsync.Calibre.Opf.{contains}
use readsync.Model.{OutboxJob, OutboxStatus, outbox_status_eq}
use readsync.Core.Db.{Db}
use readsync.Webdav.{rooted}
use readsync.Repair.{
  ActionResult, ok_r, fail_r, fail_d, unsafe_path, safe_abs_path, safe_child_path,
}

-- `os.MkdirAll` and `os.WriteFile` of a checked path, as the text of the error.
pub record Disk : Type 0 where
  pub mkdir_error : List Text → Option Text
  pub write_error : List Text → Text → Option Text

-- Whether `filepath.Ext` of a path is not empty: its last name has a dot.
abbrev last_name : Text → List Text → Text
last_name name [] = name
last_name name (n ∷ names) = last_name n names

abbrev pub has_ext : List Text → Bool
has_ext path = elim (cut_last b'.' (last_name [] path)) [ none ↦ false | some _ ↦ true ]

-- `safeExistingOrCreatableDir` and `safeConfigFilePath`: the path or the text of the error.
pub data Checked : Type 0 where
  checked : List Text → Checked
  rejected : Text → Checked

abbrev no_ext : Option (List Text) → Checked
no_ext none = rejected unsafe_path
no_ext (some p) =
    if has_ext p then rejected (codes "directory path must not name a file") else checked p

abbrev pub safe_existing_or_creatable_dir : Text → Text → Checked
safe_existing_or_creatable_dir cwd dir =
    if is_empty dir then rejected unsafe_path else no_ext (safe_abs_path cwd dir)

abbrev an_ext : Option (List Text) → Checked
an_ext none = rejected unsafe_path
an_ext (some p) = if has_ext p then checked p else rejected (codes "config path must name a file")

abbrev pub safe_config_file_path : Text → Text → Checked
safe_config_file_path cwd config_file = an_ext (safe_abs_path cwd config_file)

-- What the two reports differ in: the action, the texts of its errors, the directory and the name of the
-- file without the time.
record Report : Type 0 where
  action : Text
  bad_dir : Text
  no_mkdir : Text
  bad_path : Text
  default_dir : Text
  prefix : Text

module _ (fold : Text → Text) (disk : Disk) (cwd temp_dir stamp : Text) where
  -- `json.MarshalIndent` is `Option Text`, and the text of its error is `marshal_error`.
  abbrev write_data : Report → Text → Option Text → Option (List Text) → ActionResult
  write_data r marshal_error data' none = fail_d r.action r.bad_path unsafe_path
  write_data r marshal_error none (some path) =
      fail_d r.action (codes "marshal failed") marshal_error
  write_data r marshal_error (some text) (some path) = elim (disk.write_error path text) [
    | some e ↦ fail_d r.action (codes "write failed") e
    | none ↦ ok_r r.action (rooted path)
  ]

  abbrev write_in : Report → Text → Option Text → Checked → ActionResult
  write_in r marshal_error data' (rejected e) = fail_d r.action r.bad_dir e
  write_in r marshal_error data' (checked dir) = elim (disk.mkdir_error dir) [
    | some e ↦ fail_d r.action r.no_mkdir e
    | none ↦
        write_data r marshal_error data'
          (safe_child_path fold dir (r.prefix ++ stamp ++ codes ".json"))
  ]

  abbrev write_report : Report → Text → Option Text → Text → ActionResult
  write_report r marshal_error data' dir = write_in r marshal_error data' (
      safe_existing_or_creatable_dir cwd
        (if is_empty dir then temp_dir ++ codes "/" ++ r.default_dir else dir))

  -- `WriteMissingIDReport`.
  abbrev pub write_missing_id_report : Text → Option Text → Text → ActionResult
  write_missing_id_report = write_report record {
    action = codes "missing_id_report";
    bad_dir = codes "invalid report dir";
    no_mkdir = codes "could not create dir";
    bad_path = codes "invalid report path";
    default_dir = codes "readsync-reports";
    prefix = codes "missing_goodreads_ids-";
  }

  -- `ExportDiagnostics`.
  abbrev pub export_diagnostics : Text → Option Text → Text → ActionResult
  export_diagnostics = write_report record {
    action = codes "export_diagnostics";
    bad_dir = codes "invalid diagnostics dir";
    no_mkdir = codes "mkdir failed";
    bad_path = codes "invalid diagnostics path";
    default_dir = codes "readsync-diagnostics";
    prefix = codes "readsync-diag-";
  }

-- `RotateAdapterCreds`: `secret` is what `generateSecret` gives and `set` what the store answers.
abbrev pub rotate_adapter_creds :
    (ℕ → Text) → Unicode → (Text → Text → Option Text) → Text → Option Text → Text → ActionResult
rotate_adapter_creds number u set rng_error secret adapter =
    let action = codes "rotate_adapter_creds" in
    if is_empty adapter then fail_r action (codes "adapter name is required") else elim secret [
      | none ↦ fail_d action (codes "rng failed") rng_error
      | some pw ↦ elim (set (map u.to_lower adapter ++ codes "_password") pw) [
        | some e ↦ fail_d action (codes "store failed") e
        | none ↦ ok_r action (
            codes "rotated "
            ++ adapter
            ++ codes " credentials (length "
            ++ number (length pw)
            ++ codes ") - re-pair devices")
      ]
    ]

-- `RebuildResolverIndex`: the statements in turn; `exec` is the error of a statement.
abbrev rebuild : (Text → Option Text) → List Text → ActionResult
rebuild exec [] = ok_r (codes "rebuild_resolver_index") (codes "resolver indexes rebuilt")
rebuild exec (s ∷ stmts) = elim (exec s) [
  | some e ↦ fail_d (codes "rebuild_resolver_index") (codes "exec failed: " ++ s) e
  | none ↦ rebuild exec stmts
]

abbrev pub rebuild_resolver_index : (Text → Option Text) → ActionResult
rebuild_resolver_index exec = rebuild exec (
    codes "REINDEX books"
    ∷ codes "REINDEX book_aliases"
    ∷ codes "ANALYZE books"
    ∷ codes "ANALYZE book_aliases"
    ∷ [])

-- `ClearDeadletter`, on the table of jobs of the pipeline.
abbrev pub is_dead : OutboxJob → Bool
is_dead j = outbox_status_eq j.status OutboxStatus.dead_letter

abbrev keep_live : {W : Type 0} → Db W → Db W
keep_live db = record {
  books = db.books;
  aliases = db.aliases;
  events = db.events;
  conflicts = db.conflicts;
  canonical = db.canonical;
  outbox = record { rows = select (λ j. not (is_dead j)) db.outbox.rows; seq = db.outbox.seq };
}

abbrev pub clear_deadletter : {W : Type 0} → (ℕ → Text) → Option Text → Db W → Db W × ActionResult
clear_deadletter number (some e) db =
    (db, fail_d (codes "clear_deadletter") (codes "delete failed") e)
clear_deadletter number none db = (
  keep_live db,
  ok_r (codes "clear_deadletter") (
      codes "removed "
      ++ number (length (select is_dead db.outbox.rows))
      ++ codes " deadletter rows"),
)

-- `PickFreePort`: whether a port can be bound, and the port that the system gives.
abbrev pub pick_free_port : (ℕ → Bool) → Option ℕ → ℕ → Option ℕ
pick_free_port is_free any zero = any
pick_free_port is_free any (suc n) = if is_free (suc n) then some (suc n) else any

-- `DeadLetterHint`.
abbrev pub dead_letter_hint : Unicode → Text → Text
dead_letter_hint u last_error =
    let lower = map u.to_lower last_error in
    if contains lower (codes "calibredb")
    then codes
        "Check that Calibre is installed and calibredb is in PATH. Run: readsyncctl adapters calibre check"
    else if contains lower (codes "connection refused") || contains lower (codes "dial")
    then codes
        "Adapter endpoint is unreachable. Check network connectivity and adapter configuration."
    else if contains lower (codes "timeout")
    then codes "Operation timed out. Check adapter health: readsyncctl adapters"
    else if contains lower (codes "not implemented")
    then codes "This adapter is not yet implemented (pending Phase 2+)."
    else if contains lower (codes "conflict")
    then codes "Job blocked by a conflict. Resolve via: readsyncctl conflicts list"
    else if contains lower (codes "low_confidence") || contains lower (codes "identity")
    then codes
        "Book identity confidence too low for writeback. Improve book identifiers and re-try: readsyncctl outbox retry <id>"
    else codes "Check engineering logs for details. Run: readsyncctl diagnostics export"
