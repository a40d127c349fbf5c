-- ===== src/Webdav/Archive.antt =====
-- internal/adapters/webdav/archive.go: `archiveUpload` and `LatestVersion` over the files below the
-- data directory and the tables moon_users and moon_uploads. A text is kept as its bytes. What the
-- manifest says is not modelled, only that it may not be written; `sha256` is a parameter.
pub mod Effect
pub mod Immutable
pub mod Latest
pub mod Retry
use readsync.Base.{
  ℕ, ◌+◌, Bool, true, false, not, ◌&&◌, ◌||◌, List, [], ◌∷◌, ◌++◌, Option, none, some, Text,
  is_empty, text_eq, ◌==◌, leb, if◌then◌else◌, first, is_some, length,
}
use readsync.Base.Table.{Table, insert}
use readsync.Webdav.{archive_dir, trim_slashes}

-- `{dir}/{version}.bin`, below the data directory.
pub record ArchivePath : Type 0 where
  pub dir : List Text
  pub version : ℕ

pub record File : Type 0 where
  pub path : ArchivePath
  pub content : List ℕ

-- A row of moon_users.
pub record MoonUser : Type 0 where
  pub id : ℕ
  pub username : Text
  pub password_hash : Text
  pub created_at : ℕ

-- A row of moon_uploads. The text of a parse error is kept, as far as it is given.
pub record MoonUpload : Type 0 where
  pub id : ℕ
  pub user_id : ℕ
  pub rel_path : Text
  pub version : ℕ
  pub received_at : ℕ
  pub size_bytes : ℕ
  pub sha256 : Text
  pub archive_path : ArchivePath
  pub parsed : Bool
  pub parse_error : Option Text

pub record Archive : Type 0 where
  pub users : Table MoonUser
  pub uploads : Table MoonUpload
  pub files : List File

-- Without the slash that begins the path.
pub record UploadEvent : Type 0 where
  pub user : Text
  pub rel_path : Text
  pub version : ℕ
  pub received_at : ℕ
  pub size_bytes : ℕ
  pub sha256 : Text
  pub archive_path : ArchivePath

pub data ArchiveError : Type 0 where
  without_user empty_path user_lookup version_probe mkdir_archive archive_create : ArchiveError
  archive_write archive_close write_manifest upload_row : ArchiveError

pub data Archived : Type 0 where
  refused : ArchiveError → Archived
  archived : UploadEvent → Archived

-- What the database and the file system refuse, in the order of the code.
pub record Faults : Type 0 where
  pub lookup : Bool
  pub probe : Bool
  pub mkdir : Bool
  pub create : Bool
  pub write : Bool
  pub close : Bool
  pub manifest : Bool
  pub row : Bool

abbrev pub no_faults : Faults
no_faults = record {
  lookup = false;
  probe = false;
  mkdir = false;
  create = false;
  write = false;
  close = false;
  manifest = false;
  row = false;
}

abbrev pub names_eq : List Text → List Text → Bool
names_eq [] [] = true
names_eq [] (y ∷ ys) = false
names_eq (x ∷ xs) [] = false
names_eq (x ∷ xs) (y ∷ ys) = text_eq x y && names_eq xs ys

abbrev pub path_eq : ArchivePath → ArchivePath → Bool
path_eq p q = (p.version == q.version) && names_eq p.dir q.dir

abbrev pub content_at : ArchivePath → List File → Option (List ℕ)
content_at p [] = none
content_at p (f ∷ fs) = if path_eq p f.path then some f.content else content_at p fs

abbrev pub named : Text → MoonUser → Bool
named user r = text_eq r.username user

abbrev pub of_path : ℕ → Text → MoonUpload → Bool
of_path user_id rel_path r = (r.user_id == user_id) && text_eq r.rel_path rel_path

-- `MAX(version)` of a user's path, 0 where there is no row.
abbrev pub max_version : ℕ → Text → List MoonUpload → ℕ
max_version user_id rel_path [] = 0
max_version user_id rel_path (r ∷ rs) =
    let rest = max_version user_id rel_path rs in
    if of_path user_id rel_path r && leb rest r.version then r.version else rest

abbrev pub place : Text → Text → ℕ → ArchivePath
place user clean_path version = record { dir = archive_dir user clean_path; version = version }

abbrev version_of : Option MoonUpload → ℕ
version_of none = 0
version_of (some r) = r.version

abbrev pub event_of : Text → MoonUpload → UploadEvent
event_of user r = record {
  user = user;
  rel_path = r.rel_path;
  version = r.version;
  received_at = r.received_at;
  size_bytes = r.size_bytes;
  sha256 = r.sha256;
  archive_path = r.archive_path;
}

abbrev pub add_file : ArchivePath → List ℕ → Archive → Archive
add_file path body s = record s { files = record { path = path; content = body } ∷ s.files }

-- ORDER BY version DESC LIMIT 1, of a user's path.
abbrev pub newest : ℕ → Text → List MoonUpload → Option MoonUpload
newest user_id rel_path [] = none
newest user_id rel_path (r ∷ rs) =
    let rest = newest user_id rel_path rs in
    if of_path user_id rel_path r && leb (version_of rest) r.version then some r else rest

-- `LatestVersion`, where no statement is refused.
abbrev pub latest_version : Text → Text → Archive → Option UploadEvent
latest_version user rel_path s = elim (first (named user) s.users.rows) [
  | none ↦ none
  | some u ↦ elim (newest u.id (trim_slashes rel_path) s.uploads.rows) [
    | none ↦ none
    | some r ↦ some (event_of user r)
  ]
]

module _ (sha256 : List ℕ → Text) where
  abbrev pub upload_row_of : ℕ → ℕ → Text → ℕ → List ℕ → ArchivePath → ℕ → MoonUpload
  upload_row_of now user_id rel_path version body path id = record {
    id = id;
    user_id = user_id;
    rel_path = rel_path;
    version = version;
    received_at = now;
    size_bytes = length body;
    sha256 = sha256 body;
    archive_path = path;
    parsed = false;
    parse_error = none;
  }

  -- From the creation of the file on: with O_EXCL it is refused where the file exists. A file that is
  -- not written is removed again, one that is not closed stays.
  unfoldable pub store_body :
      Faults → ℕ → Text → ℕ → Text → ℕ → List ℕ → ArchivePath → Archive → Archived × Archive
  store_body faults now user user_id rel_path version body path s =
      let stored = add_file path body s in
      let row = upload_row_of now user_id rel_path version body path in
      if faults.create || is_some (content_at path s.files)
      then (refused archive_create, s)
      else if faults.write
      then (refused archive_write, s)
      else if faults.close
      then (refused archive_close, stored)
      else if faults.manifest
      then (refused write_manifest, stored)
      else if faults.row
      then (refused upload_row, stored)
      else (
        archived (event_of user (row (s.uploads.seq + 1))),
        record stored { uploads = insert row s.uploads },
      )

  unfoldable pub archive_for :
      Faults → ℕ → Text → Text → List ℕ → Option MoonUser → Archive → Archived × Archive
  unfolding store_body
  archive_for faults now user clean_path body none s = (refused user_lookup, s)
  archive_for faults now user clean_path body (some u) s =
      let version = max_version u.id clean_path s.uploads.rows + 1 in
      if faults.lookup
      then (refused user_lookup, s)
      else if faults.probe
      then (refused version_probe, s)
      else if faults.mkdir
      then (refused mkdir_archive, s)
      else store_body faults now user u.id clean_path version body (place user clean_path version) s

  -- `archiveUpload`, up to the call of the observers.
  unfoldable pub archive_upload : Faults → ℕ → Text → Text → List ℕ → Archive → Archived × Archive
  unfolding archive_for
  archive_upload faults now user rel_path body s =
      let clean_path = trim_slashes rel_path in
      if is_empty user
      then (refused without_user, s)
      else if is_empty clean_path
      then (refused empty_path, s)
      else archive_for faults now user clean_path body (first (named user) s.users.rows) s
