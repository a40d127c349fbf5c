-- ===== src/Webdav/Archive/Retry.antt =====
-- What a client that tries again gets, once an upload was refused.
use mathlib.Core.Bool.{true≢false}
use mathlib.Core.Option.{some-injective, none-ne-some}
use readsync.Base.{
  subst, ℕ, true, false, List, [], none, some, ◌≡◌, refl, sym, ap, ◌∙◌, Text, first, Bool,
}
use readsync.Webdav.Archive.{
  Archive, MoonUser, Faults, Archived, ArchiveError, refused, archived, named, content_at,
  archive_upload,
}
use readsync.Webdav.Archive.Effect.{
  unchanged, file_left, row_added, archive_upload-Effect, place_for, leaves_file,
}
use readsync.Webdav.Archive.Immutable.{path_eq_refl}

module _ (sha256 : List ℕ → Text) (user rel_path : Text) where
  -- A file stands where the upload would put its own.
  pub record IsTaken (s : Archive) : Type 0 where
    pub owner : MoonUser
    pub known : first (named user) s.users.rows ≡ some owner
    pub content : List ℕ
    pub taken : content_at (place_for sha256 0 user rel_path [] s owner) s.files ≡ some content

  -- Where a file stands at the place of the next version, every upload of the path is refused.
  archive_upload-IsTaken :
      (faults : Faults) (now : ℕ) (body : List ℕ) (s : Archive)
      → IsTaken s
      → (e : ArchiveError) × (archive_upload sha256 faults now user rel_path body s
          ≡ (refused e, s))
  archive_upload-IsTaken faults now body s t =
      elim (archive_upload-Effect sha256 now user rel_path body s faults) [
        | unchanged e _ h ↦ (e, h)
        | file_left e u _ known free h ↦ absurd (clash u known free)
        | row_added u known free h ↦ absurd (clash u known free)
      ]
    where
      clash :
          (u : MoonUser)
          → first (named user) s.users.rows ≡ some u
          → content_at (place_for sha256 now user rel_path body s u) s.files ≡ none
          → ⊥
      clash u known free =
          let same : u ≡ t.owner = some-injective u t.owner (sym known ∙ t.known) in
          let bad : none ≡ some t.content =
            sym free
            ∙ ap (λ x. content_at (place_for sha256 now user rel_path body s x) s.files) same
            ∙ t.taken in
          absurd (none-ne-some t.content bad)

  abbrev leaves : Archived → Bool
  leaves (refused e) = leaves_file e
  leaves (archived e) = false

  left-IsTaken :
      (faults : Faults) (now : ℕ) (body : List ℕ) (s : Archive)
      → let r = archive_upload sha256 faults now user rel_path body s in
        leaves r.0 ≡ true → IsTaken r.1
  left-IsTaken faults now body s l =
      elim (archive_upload-Effect sha256 now user rel_path body s faults) [
        | unchanged e k h ↦ absurd (true≢false (sym l ∙ ap (λ r. leaves r.0) h ∙ k))
        | file_left e u _ known free h ↦ rw h (record {
          owner = u;
          known = known;
          content = body;
          taken = rw (path_eq_refl (place_for sha256 now user rel_path body s u)) refl;
        })
        | row_added u known free h ↦ absurd (true≢false (sym l ∙ ap (λ r. leaves r.0) h))
      ]

  -- Once an upload of a path is refused because its file is not closed, its manifest not written or
  -- its row not inserted, no later upload of the path by the user is archived, whether anything is
  -- refused to it or not: each is refused and changes nothing.
  pub archive_upload-retry :
      (faults : Faults) (now : ℕ) (body : List ℕ) (s s' : Archive) (e : ArchiveError)
      → leaves_file e ≡ true
      → archive_upload sha256 faults now user rel_path body s ≡ (refused e, s')
      → (faults' : Faults) (now' : ℕ) (body' : List ℕ)
      → (e' : ArchiveError) × (archive_upload sha256 faults' now' user rel_path body' s'
          ≡ (refused e', s'))
  archive_upload-retry faults now body s s' e l h faults' now' body' =
      let left = left-IsTaken faults now body s (ap (λ r. leaves r.0) h ∙ l) in
      archive_upload-IsTaken faults' now' body' s' (subst IsTaken (ap (λ r. r.1) h) left)
