-- ===== src/Webdav/Archive/Effect.antt =====
-- The ways in which an upload can end.
use readsync.Base.{
  ℕ, ◌+◌, Bool, true, false, ◌||◌, List, Option, none, some, is_some, ◌≡◌, refl, Text, is_empty,
  first, Bool-cases, inl, inr, arith,
}
use readsync.Base.Table.{insert}
use readsync.Webdav.{trim_slashes}
use readsync.Webdav.Archive.{
  ArchivePath, Archive, MoonUser, MoonUpload, Faults, Archived, ArchiveError, refused, archived,
  upload_row, archive_close, write_manifest, archive_create, archive_write, user_lookup,
  version_probe, mkdir_archive, without_user, empty_path, content_at, named, max_version, place,
  upload_row_of, event_of, add_file, store_body, archive_for, archive_upload,
}

is_some-none {ℓ} : {A : Type ℓ} (o : Option A) → is_some o ≡ false → o ≡ none
is_some-none none h = refl
is_some-none (some a) h = cc

-- The errors that come once the file is written.
abbrev pub leaves_file : ArchiveError → Bool
leaves_file archive_close = true
leaves_file write_manifest = true
leaves_file upload_row = true
leaves_file _ = false

module _ (sha256 : List ℕ → Text) (now : ℕ) (user rel_path : Text) (body : List ℕ)
    (s : Archive) where
  abbrev pub version_for : MoonUser → ℕ
  version_for u = max_version u.id (trim_slashes rel_path) s.uploads.rows + 1

  abbrev pub place_for : MoonUser → ArchivePath
  place_for u = place user (trim_slashes rel_path) (version_for u)

  abbrev pub with_file : MoonUser → Archive
  with_file u = add_file (place_for u) body s

  abbrev pub row_for : MoonUser → ℕ → MoonUpload
  row_for u =
      upload_row_of sha256 now u.id (trim_slashes rel_path) (version_for u) body (place_for u)

  -- Nothing is changed; or the file is stored where none was, with a row or without.
  pub data Effect (r : Archived × Archive) : Type 0 where
    unchanged : (e : ArchiveError) → leaves_file e ≡ false → r ≡ (refused e, s) → Effect r
    file_left :
        (e : ArchiveError) (u : MoonUser)
        → leaves_file e ≡ true
        → first (named user) s.users.rows ≡ some u
        → content_at (place_for u) s.files ≡ none
        → r ≡ (refused e, with_file u)
        → Effect r
    row_added :
        (u : MoonUser)
        → first (named user) s.users.rows ≡ some u
        → content_at (place_for u) s.files ≡ none
        → r ≡ (
          archived (event_of user (row_for u (s.uploads.seq + 1))),
          record (with_file u) { uploads = insert (row_for u) s.uploads },
        )
        → Effect r

  store_body-Effect :
      (faults : Faults) (u : MoonUser)
      → first (named user) s.users.rows ≡ some u
      → Effect (
          store_body sha256 faults now user u.id
            (trim_slashes rel_path)
            (version_for u)
            body
            (place_for u)
            s)
  unfolding store_body
  store_body-Effect faults u known =
      elim (Bool-cases (faults.create || is_some (content_at (place_for u) s.files))) [
        | inl h ↦ unchanged archive_create refl (rw h refl)
        | inr h ↦ elim (Bool-cases faults.write) [
          | inl w ↦ unchanged archive_write refl (rw (h, w) refl)
          | inr w ↦
              let free : content_at (place_for u) s.files ≡ none = is_some-none _ (ground arith) in
              elim (Bool-cases faults.close) [
                | inl c ↦ file_left archive_close u refl known free (rw (h, w, c) refl)
                | inr c ↦ elim (Bool-cases faults.manifest) [
                  | inl m ↦ file_left write_manifest u refl known free (rw (h, w, c, m) refl)
                  | inr m ↦ elim (Bool-cases faults.row) [
                    | inl r ↦ file_left upload_row u refl known free (rw (h, w, c, m, r) refl)
                    | inr r ↦ row_added u known free (rw (h, w, c, m, r) refl)
                  ]
                ]
              ]
        ]
      ]

  archive_for-Effect :
      (faults : Faults) (o : Option MoonUser)
      → first (named user) s.users.rows ≡ o
      → Effect (archive_for sha256 faults now user (trim_slashes rel_path) body o s)
  unfolding archive_for
  archive_for-Effect faults none known = unchanged user_lookup refl refl
  archive_for-Effect faults (some u) known = elim (Bool-cases faults.lookup) [
    | inl l ↦ unchanged user_lookup refl (rw l refl)
    | inr l ↦ elim (Bool-cases faults.probe) [
      | inl p ↦ unchanged version_probe refl (rw (l, p) refl)
      | inr p ↦ elim (Bool-cases faults.mkdir) [
        | inl m ↦ unchanged mkdir_archive refl (rw (l, p, m) refl)
        | inr m ↦ rw (l, p, m) (store_body-Effect faults u known)
      ]
    ]
  ]

  pub archive_upload-Effect :
      (faults : Faults) → Effect (archive_upload sha256 faults now user rel_path body s)
  unfolding archive_upload
  archive_upload-Effect faults = elim (Bool-cases (is_empty user)) [
    | inl e ↦ unchanged without_user refl (rw e refl)
    | inr e ↦ elim (Bool-cases (is_empty (trim_slashes rel_path))) [
      | inl p ↦ unchanged empty_path refl (rw (e, p) refl)
      | inr p ↦ rw (e, p) (archive_for-Effect faults (first (named user) s.users.rows) refl)
    ]
  ]
