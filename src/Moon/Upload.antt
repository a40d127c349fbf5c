-- ===== src/Moon/Upload.antt =====
-- internal/adapters/moon/upload.go: what the adapter does with an upload that is archived, and with it
-- the whole way of a file from `archiveUpload` into the pipeline. The capture of files is left out:
-- it changes nothing of this state. `describe` gives the text of a parse error.
pub mod Handled
use readsync.Base.{
  ℕ, Bool, true, false, List, [], ◌∷◌, Option, none, some, Text, if◌then◌else◌, ◌||◌,
}
use readsync.Base.Double.{Double}
use readsync.Base.Strings.{cut_last}
use readsync.Base.Table.{update}
use readsync.Model.{AdapterHealthState}
use readsync.Resolver.Normalize.{Unicode}
use readsync.Core.Db.{Db}
use readsync.Core.Resolve.{Env}
use readsync.Core.Pipeline.{process}
use readsync.Webdav.Archive.{
  Archive, ArchivePath, MoonUpload, UploadEvent, Faults, Archived, refused, archived, path_eq,
  content_at, archive_upload,
}
use readsync.Moon.{FloatText, Parsed, ParseError, unknown_format, result, parse, to_adapter_event}

-- The adapter's state with the tables. `hint` is the name of the file that the hint speaks of.
pub record Adapter (W : Type 0) : Type 0 where
  pub archive : Archive
  pub db : Db W
  pub health : AdapterHealthState
  pub hint : Option Text

-- `filepath.Base` of a path that ends in no slash.
abbrev pub base : Text → Text
base p = elim (cut_last b'/' p) [ none ↦ p | some (_, name) ↦ name ]

abbrev pub at_path : ArchivePath → MoonUpload → Bool
at_path p r = path_eq r.archive_path p

-- UPDATE moon_uploads … WHERE archive_path=?, which may be refused.
abbrev pub update_upload : Bool → ArchivePath → (MoonUpload → MoonUpload) → Archive → Archive
update_upload true p change s = s
update_upload false p change s = record s { uploads = update (at_path p) change s.uploads }

abbrev pub mark_parsed : MoonUpload → MoonUpload
mark_parsed r = record r { parsed = true }

abbrev pub mark_error : Text → MoonUpload → MoonUpload
mark_error text r = record r { parse_error = some text }

-- What the adapter is given: the libraries' functions, and what is refused to it.
pub record Surroundings (W : Type 0) : Type 0 where
  pub env : Env
  pub float_text : FloatText W
  pub sha256 : List ℕ → Text
  pub decode : List ℕ → Text
  pub describe : ParseError → Text
  pub read_fault : Bool
  pub update_fault : Bool
  pub pipeline_faults : List Bool

module _ {W : Type 0} ⦃d : Double W⦄ (given : Surroundings W) where
  -- From the parser on.
  pub emit : ℕ → UploadEvent → Parsed W → Adapter W → Adapter W
  emit now ev (unknown_format e) a = record {
    archive =
        update_upload given.update_fault ev.archive_path (mark_error (given.describe e)) a.archive;
    db = a.db;
    health = AdapterHealthState.degraded;
    hint = some (base ev.rel_path);
  }
  emit now ev (result r) a = record {
    archive = update_upload given.update_fault ev.archive_path mark_parsed a.archive;
    db = (process given.env now given.pipeline_faults (to_adapter_event r) a.db).1;
    health = AdapterHealthState.ok;
    hint = none;
  }

  -- `readArchive`.
  abbrev pub read_archive : ArchivePath → Archive → Option (List ℕ)
  read_archive p s = if given.read_fault then none else content_at p s.files

  -- `onUpload`, with the bytes that are read.
  pub on_bytes : ℕ → UploadEvent → Option (List ℕ) → Adapter W → Adapter W
  unfolding emit
  on_bytes now ev none a = a
  on_bytes now ev (some body) a =
      emit now ev
        (parse given.float_text given.env.unicode (base ev.rel_path) (given.decode body)
          ev.received_at)
        a

  pub on_upload : ℕ → UploadEvent → Adapter W → Adapter W
  unfolding on_bytes
  on_upload now ev a = on_bytes now ev (read_archive ev.archive_path a.archive) a

  -- The observers that `archiveUpload` calls: the adapter's `onUpload` is the only one.
  abbrev pub fire_observers : ℕ → Archived × Archive → Adapter W → Adapter W
  fire_observers now (refused e, s) a = record a { archive = s }
  fire_observers now (archived ev, s) a = on_upload now ev (record a { archive = s })

  -- A file that a user uploads.
  pub receive : Faults → ℕ → Text → Text → List ℕ → Adapter W → Adapter W
  unfolding on_upload
  receive faults now user rel_path body a =
      fire_observers now (archive_upload given.sha256 faults now user rel_path body a.archive) a
