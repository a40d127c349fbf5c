-- ===== src/Moon/Upload/Handled.antt =====
-- What becomes of an upload: progress of a book, or a degraded adapter.
use readsync.Base.{
  ℕ, Bool, true, false, List, none, some, Text, ◌≡◌, refl, sym, ap, ◌∙◌, if◌then◌else◌, subst,
}
use readsync.Base.Double.{Double}
use readsync.Model.{AdapterHealthState}
use readsync.Core.Db.{Db}
use readsync.Core.Pipeline.{process}
use readsync.Webdav.Archive.{
  Archive, ArchivePath, MoonUpload, UploadEvent, Faults, Archived, refused, archived, content_at,
  archive_upload,
}
use readsync.Webdav.Archive.Latest.{Ends, archive_upload-Ends}
use readsync.Moon.{Parsed, unknown_format, result, parse, to_adapter_event}
use readsync.Moon.Upload.{
  Adapter, Surroundings, base, emit, read_archive, on_bytes, on_upload, fire_observers, receive,
  update_upload, mark_parsed, mark_error,
}

module _ {W : Type 0} ⦃d : Double W⦄ (given : Surroundings W) (faults : Faults) (now : ℕ)
    (user rel_path : Text) (body : List ℕ) (a : Adapter W) where
  -- What an upload that is parsed, or not, makes of the tables and the health.
  abbrev pub db_after : Parsed W → Db W
  db_after (unknown_format e) = a.db
  db_after (result r) = (process given.env now given.pipeline_faults (to_adapter_event r) a.db).1

  abbrev pub health_after : Parsed W → AdapterHealthState
  health_after (unknown_format e) = AdapterHealthState.degraded
  health_after (result r) = AdapterHealthState.ok

  -- What the parser makes of the bytes, under the name of the file.
  abbrev pub parsed_upload : UploadEvent → Parsed W
  parsed_upload ev =
      parse given.float_text given.env.unicode (base ev.rel_path) (given.decode body) ev.received_at

  -- A refused upload is seen by nobody. An archived one stays in the archive; if it is parsed, its
  -- event is processed and the adapter is well, and if not, no event is and the adapter is degraded.
  pub Handled : Archived → Adapter W → Type 0
  Handled (refused e) a' = (a'.db ≡ a.db) × (a'.health ≡ a.health)
  Handled (archived ev) a' =
      (a'.db ≡ db_after (parsed_upload ev))
      × (a'.health ≡ health_after (parsed_upload ev))
      × (content_at ev.archive_path a'.archive.files ≡ some body)

  update-files :
      (fault : Bool) (p : ArchivePath) (change : MoonUpload → MoonUpload) (s : Archive)
      → (update_upload fault p change s).files ≡ s.files
  update-files true p change s = refl
  update-files false p change s = refl

  emit-Handled :
      (ev : UploadEvent) (s : Archive)
      → content_at ev.archive_path s.files ≡ some body
      → (o : Parsed W)
      → let a' = emit given now ev o (record a { archive = s }) in
        (a'.db ≡ db_after o)
        × (a'.health ≡ health_after o)
        × (content_at ev.archive_path a'.archive.files ≡ some body)
  unfolding emit
  emit-Handled ev s stored (unknown_format e) =
      let files =
        update-files given.update_fault ev.archive_path (mark_error (given.describe e)) s in
      (refl, refl, ap (content_at ev.archive_path) files ∙ stored)
  emit-Handled ev s stored (result r) =
      let files = update-files given.update_fault ev.archive_path mark_parsed s in
      (refl, refl, ap (content_at ev.archive_path) files ∙ stored)

  fire-Handled :
      (r : Archived) (s : Archive)
      → given.read_fault ≡ false
      → Ends given.sha256 now user rel_path body a.archive r s
      → Handled r (fire_observers given now (r, s) a)
  unfolding Handled on_bytes on_upload Ends
  fire-Handled (refused e) s read end = (refl, refl)
  fire-Handled (archived ev) s read end =
      let a' : Adapter W = record a { archive = s } in
      let bytes : read_archive given ev.archive_path s ≡ some body =
        ap (λ b. if b then none else content_at ev.archive_path s.files) read ∙ end.stored in
      subst (Handled (archived ev)) (sym (ap (λ o. on_bytes given now ev o a') bytes))
        (emit-Handled ev s end.stored (parsed_upload ev))

  -- Where the archive can be read back, and whatever else is refused: an upload that is not archived
  -- changes neither the tables of the pipeline nor the health of the adapter. The bytes of one that is
  -- archived are in the archive afterwards. If the parser takes it, the pipeline processes its event,
  -- and the adapter is well; if not, the pipeline gets no event, and the adapter is degraded.
  pub receive-Handled :
      given.read_fault ≡ false
      → Handled
          (archive_upload given.sha256 faults now user rel_path body a.archive).0
          (receive given faults now user rel_path body a)
  unfolding receive
  receive-Handled read =
      let r = archive_upload given.sha256 faults now user rel_path body a.archive in
      fire-Handled r.0 r.1 read
        (archive_upload-Ends given.sha256 now user rel_path body a.archive faults)
