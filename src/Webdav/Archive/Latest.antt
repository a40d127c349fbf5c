-- ===== src/Webdav/Archive/Latest.antt =====
-- What an upload that is archived adds, and what one that is refused leaves behind.
use readsync.Base.{
  ℕ, ◌+◌, ◌≤◌, ◌<◌, true, false, ◌&&◌, List, [], ◌∷◌, ◌++◌, none, some, ◌≡◌, refl, Text, arith,
  Bool-cases, inl, inr, first, All, All-map, leb, ==_refl, text_eq_refl,
}
use readsync.Base.Table.{insert}
use readsync.Webdav.{trim_slashes}
use readsync.Webdav.Archive.{
  Archive, MoonUser, MoonUpload, UploadEvent, Faults, Archived, refused, archived, of_path, named,
  max_version, newest, latest_version, event_of, content_at, archive_upload,
}
use readsync.Webdav.Archive.Effect.{
  unchanged, file_left, row_added, archive_upload-Effect, row_for, place_for, with_file,
}
use readsync.Webdav.Archive.Immutable.{path_eq_refl}

max_version-cons :
    (user_id : ℕ) (path : Text) (r : MoonUpload) (rs : List MoonUpload)
    → (max_version user_id path rs ≤ max_version user_id path (r ∷ rs))
      × (of_path user_id path r ≡ true → r.version ≤ max_version user_id path (r ∷ rs))
max_version-cons user_id path r rs = ground arith

max_version-All :
    (user_id : ℕ) (path : Text) (rs : List MoonUpload)
    → All (λ r. of_path user_id path r ≡ true → r.version ≤ max_version user_id path rs) rs
max_version-All user_id path [] = tt
max_version-All user_id path (r ∷ rs) =
    let (grows, own) = max_version-cons user_id path r rs in
    (
      own,
      All-map (λ r. of_path user_id path r ≡ true → r.version ≤ max_version user_id path rs)
          (λ r'. of_path user_id path r' ≡ true → r'.version ≤ max_version user_id path (r ∷ rs))
          (λ r' h of. omega (arith, grows, h of)) rs (max_version-All user_id path rs),
    )

newest-append :
    (user_id : ℕ) (path : Text) (rs : List MoonUpload) (r : MoonUpload)
    → of_path user_id path r ≡ true
    → max_version user_id path rs < r.version
    → newest user_id path (rs ++ r ∷ []) ≡ some r
newest-append user_id path [] r of h = rw of (ground (arith, h))
newest-append user_id path (r' ∷ rs) r of h =
    let (grows, own) = max_version-cons user_id path r' rs in
    let rest = newest-append user_id path rs r of (omega (arith, grows, h)) in
    let older : (of_path user_id path r' && leb r.version r'.version) ≡ false =
      elim (Bool-cases (of_path user_id path r')) [
        | inl k ↦
            let below : r'.version < r.version = omega (arith, own k, h) in
            rw k (ground (arith, below))
        | inr k ↦ rw k refl
      ] in
    rw (rest, older) refl

module _ (sha256 : List ℕ → Text) (now : ℕ) (user rel_path : Text) (body : List ℕ)
    (s : Archive) where
  -- What an archived upload is.
  pub record IsLatest (e : UploadEvent) (s' : Archive) : Type 0 where
    pub owner : MoonUser
    pub known : first (named user) s.users.rows ≡ some owner
    pub stored : content_at e.archive_path s'.files ≡ some body
    pub was_free : content_at e.archive_path s.files ≡ none
    pub latest : latest_version user rel_path s' ≡ some e
    pub newer :
        All
          (λ r. of_path owner.id (trim_slashes rel_path) r ≡ true → r.version < e.version)
          s.uploads.rows

  row_added-IsLatest :
      (u : MoonUser)
      → first (named user) s.users.rows ≡ some u
      → content_at (place_for sha256 now user rel_path body s u) s.files ≡ none
      → IsLatest
          (event_of user (row_for sha256 now user rel_path body s u (s.uploads.seq + 1)))
          (record (with_file sha256 now user rel_path body s u) {
            uploads = insert (row_for sha256 now user rel_path body s u) s.uploads;
          })
  row_added-IsLatest u known free =
      let row = row_for sha256 now user rel_path body s u (s.uploads.seq + 1) in
      let path = trim_slashes rel_path in
      let own : of_path u.id path row ≡ true = rw (==_refl u.id, text_eq_refl path) refl in
      record {
        owner = u;
        known = known;
        stored = rw (path_eq_refl row.archive_path) refl;
        was_free = free;
        latest =
            rw (known, latest_version, newest-append u.id path s.uploads.rows row own (omega arith))
              refl;
        newer =
            All-map
              (λ r. of_path u.id path r ≡ true → r.version ≤ max_version u.id path s.uploads.rows)
              (λ r. of_path u.id path r ≡ true → r.version < row.version)
              (λ r h of. omega (arith, h of)) s.uploads.rows
              (max_version-All u.id path s.uploads.rows);
      }

  -- The end of an upload: an archived one is the latest, a refused one adds no row.
  unfoldable pub Ends : Archived → Archive → Type 0
  Ends (archived e) s' = IsLatest e s'
  Ends (refused e) s' = s'.uploads ≡ s.uploads

  -- Whatever is refused to an upload: if it is archived, its bytes stand at a place of the archive
  -- where there were none, its version is above those of all earlier rows of the user's path, and it
  -- is what `LatestVersion` then gives for the user and the path. If it is not, no row is added.
  pub archive_upload-Ends :
      (faults : Faults)
      → let r = archive_upload sha256 faults now user rel_path body s in Ends r.0 r.1
  unfolding Ends
  archive_upload-Ends faults = elim (archive_upload-Effect sha256 now user rel_path body s faults) [
    | unchanged e _ h ↦ rw h refl
    | file_left e u _ known free h ↦ rw h refl
    | row_added u known free h ↦ rw h (row_added-IsLatest u known free)
  ]
