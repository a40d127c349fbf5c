-- ===== src/Webdav/Archive/Immutable.antt =====
-- What is in the archive stays there.
use readsync.Base.{
  ℕ, true, List, [], ◌∷◌, none, some, ◌≡◌, refl, sym, ap, ◌∙◌, Text, text_eq, text_eq→≡, Bool-cases,
  inl, inr, &&-true, ==→≡, ==_refl, text_eq_refl, ◌+◌, length, All, All-map, All-append, ◌==◌,
}
use readsync.Webdav.Archive.{
  ArchivePath, File, Archive, MoonUpload, Faults, names_eq, path_eq, content_at, archive_upload,
}
use readsync.Webdav.Archive.Effect.{
  unchanged, file_left, row_added, archive_upload-Effect, row_for, place_for,
}

names_eq→≡ : (xs ys : List Text) → names_eq xs ys ≡ true → xs ≡ ys
names_eq→≡ [] [] h = refl
names_eq→≡ [] (y ∷ ys) h = cc
names_eq→≡ (x ∷ xs) [] h = cc
names_eq→≡ (x ∷ xs) (y ∷ ys) h =
    let (one, rest) = &&-true (text_eq x y) (names_eq xs ys) h in
    rw (text_eq→≡ x y one, names_eq→≡ xs ys rest) refl

path_eq→≡ : (p q : ArchivePath) → path_eq p q ≡ true → p ≡ q
path_eq→≡ p q h =
    let (version, dir) = &&-true (p.version == q.version) (names_eq p.dir q.dir) h in
    let same = ==→≡ p.version q.version version in
    let same' = names_eq→≡ p.dir q.dir dir in λ i. record { dir = same' i; version = same i }

names_eq_refl : (xs : List Text) → names_eq xs xs ≡ true
names_eq_refl [] = refl
names_eq_refl (x ∷ xs) = rw (text_eq_refl x, names_eq_refl xs) refl

pub path_eq_refl : (p : ArchivePath) → path_eq p p ≡ true
path_eq_refl p = rw (==_refl p.version, names_eq_refl p.dir) refl

-- A file where none was shadows no other.
pub content_at-add_file :
    (p q : ArchivePath) (body c : List ℕ) (fs : List File)
    → content_at q fs ≡ none
    → content_at p fs ≡ some c
    → content_at p (record { path = q; content = body } ∷ fs) ≡ some c
content_at-add_file p q body c fs free found = elim (Bool-cases (path_eq p q)) [
  | inl h ↦
      let same : p ≡ q = path_eq→≡ p q h in
      let bad : none ≡ some c = sym free ∙ ap (λ x. content_at x fs) (sym same) ∙ found in cc
  | inr h ↦ rw h found
]

module _ (sha256 : List ℕ → Text) where
  pub Keeps-content :
      (faults : Faults) (now : ℕ) (user rel_path : Text) (body : List ℕ) (s : Archive)
      (p : ArchivePath) (c : List ℕ)
      → content_at p s.files ≡ some c
      → content_at p (archive_upload sha256 faults now user rel_path body s).1.files ≡ some c
  Keeps-content faults now user rel_path body s p c found =
      elim (archive_upload-Effect sha256 now user rel_path body s faults) [
        | unchanged e _ h ↦ rw h found
        | file_left e u _ known free h ↦ rw h (
            content_at-add_file p (place_for sha256 now user rel_path body s u) body c s.files free
              found)
        | row_added u known free h ↦ rw h (
            content_at-add_file p (place_for sha256 now user rel_path body s u) body c s.files free
              found)
      ]

  -- A row says of its file what the file is.
  pub record IsKept (fs : List File) (r : MoonUpload) : Type 0 where
    pub content : List ℕ
    pub stored : content_at r.archive_path fs ≡ some content
    pub size : r.size_bytes ≡ length content
    pub digest : r.sha256 ≡ sha256 content

  unfoldable pub IsBacked : Archive → Type 0
  IsBacked s = All (IsKept s.files) s.uploads.rows

  IsKept-add_file :
      (p : ArchivePath) (body : List ℕ) (fs : List File)
      → content_at p fs ≡ none
      → (rs : List MoonUpload) → All (IsKept fs) rs
      → All (IsKept (record { path = p; content = body } ∷ fs)) rs
  IsKept-add_file p body fs free rs h =
      All-map (IsKept fs) (IsKept (record { path = p; content = body } ∷ fs))
        (λ r k. record {
          content = k.content;
          stored = content_at-add_file r.archive_path p body k.content fs free k.stored;
          size = k.size;
          digest = k.digest;
        })
        rs h

  pub Keeps-IsBacked :
      (faults : Faults) (now : ℕ) (user rel_path : Text) (body : List ℕ) (s : Archive)
      → IsBacked s
      → IsBacked (archive_upload sha256 faults now user rel_path body s).1
  unfolding IsBacked
  Keeps-IsBacked faults now user rel_path body s backed =
      elim (archive_upload-Effect sha256 now user rel_path body s faults) [
        | unchanged e _ h ↦ rw h backed
        | file_left e u _ known free h ↦ rw h (
            IsKept-add_file (place_for sha256 now user rel_path body s u) body s.files free
              s.uploads.rows backed)
        | row_added u known free h ↦
            let p = place_for sha256 now user rel_path body s u in
            let old = IsKept-add_file p body s.files free s.uploads.rows backed in
            let row = row_for sha256 now user rel_path body s u (s.uploads.seq + 1) in
            let fs = record { path = p; content = body } ∷ s.files in
            let new : IsKept fs row = record {
              content = body;
              stored = rw (path_eq_refl p) refl;
              size = refl;
              digest = refl;
            } in
            rw h (All-append (IsKept fs) s.uploads.rows (row ∷ []) old (new, tt))
      ]

  -- An upload, with what is refused to it.
  pub record Put : Type 0 where
    pub faults : Faults
    pub now : ℕ
    pub user : Text
    pub rel_path : Text
    pub body : List ℕ

  abbrev pub put : Put → Archive → Archive
  put r s = (archive_upload sha256 r.faults r.now r.user r.rel_path r.body s).1

  abbrev pub puts : List Put → Archive → Archive
  puts [] s = s
  puts (r ∷ rs) s = puts rs (put r s)

  -- Over any sequence of uploads, whatever is refused to each, a file of the archive keeps its bytes,
  -- and every row has its file with the size and the digest that the row gives, if the rows had so
  -- before.
  pub puts-IsBacked :
      (rs : List Put) (s : Archive)
      → IsBacked s
      → IsBacked (puts rs s)
        × ((p : ArchivePath) (c : List ℕ)
            → content_at p s.files ≡ some c
            → content_at p (puts rs s).files ≡ some c)
  puts-IsBacked [] s backed = (backed, λ p c h. h)
  puts-IsBacked (r ∷ rs) s backed =
      let (later, keeps) =
        puts-IsBacked rs (put r s)
          (Keeps-IsBacked r.faults r.now r.user r.rel_path r.body s backed) in
      (later, λ p c h. keeps p c (Keeps-content r.faults r.now r.user r.rel_path r.body s p c h))
