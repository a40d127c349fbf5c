-- ===== src/Webdav/Files.antt =====
-- internal/adapters/webdav/versioned_fs.go: the file system that the server serves. The in-memory
-- file system of golang.org/x/net/webdav that it wraps is a parameter, given as its operations.
pub mod Parents
pub mod Closing
pub mod Tests
use readsync.Base.{
  ℕ, zero, suc, ◌+◌, ◌==◌, Bool, true, false, not, ◌&&◌, ◌||◌, List, [], ◌∷◌, ◌++◌, Option, none,
  some, Text, codes, is_empty, if◌then◌else◌,
}
use readsync.Model.{AdapterHealthState}
use readsync.Webdav.{scoped_name, rooted}
use readsync.Webdav.Archive.{Archive, Faults, Archived, refused, archived, archive_upload}

-- An error of the inner file system: one that says that the file exists is let pass when directories
-- are made.
pub data FsError : Type 0 where
  exists_already other_error anonymous : FsError

-- The flags of `OpenFile` that open a file to be written.
pub record OpenFlags : Type 0 where
  pub wronly : Bool
  pub rdwr : Bool
  pub create : Bool
  pub trunc : Bool
  pub append : Bool

abbrev pub is_write : OpenFlags → Bool
is_write f = f.wronly || f.rdwr || f.create || f.trunc || f.append

-- The inner file system: `S` is its state and `H` an open file. A path is its names.
pub record InnerFs (S H : Type 0) : Type 0 where
  pub stat : List Text → S → Bool
  pub mkdir : List Text → S → Option FsError × S
  pub remove_all : List Text → S → Option FsError × S
  pub rename : List Text → List Text → S → Option FsError × S
  pub open_file : List Text → OpenFlags → S → Option H × S
  -- How many bytes are written, and whether there is an error.
  pub write : H → List ℕ → S → ℕ × (Bool × S)
  pub close : H → S → Option FsError × S

-- An error that says that the directory exists is none.
abbrev pub pass_exists : Option FsError → Option FsError
pass_exists (some exists_already) = none
pass_exists o = o

-- What an error keeps from being done.
abbrev pub and_then : {S : Type 0} → Option FsError → S → Option FsError × S → Option FsError × S
and_then none s rest = rest
and_then (some e) s rest = (some e, s)

-- `path.Dir`, of names.
abbrev pub dir_of : List Text → List Text
dir_of [] = []
dir_of (p ∷ []) = []
dir_of (p ∷ q ∷ ps) = p ∷ dir_of (q ∷ ps)

module _ {S H : Type 0} (fs : InnerFs S H) where
  -- One directory of a loop: made where there is none.
  pub ensure_dir : List Text → S → Option FsError × S
  ensure_dir p s = if fs.stat p s then (none, s) else let r = fs.mkdir p s in (pass_exists r.0, r.1)

  -- The loop of `ensureParent`, with the directory reached.
  pub ensure_dirs : List Text → List Text → S → Option FsError × S
  unfolding ensure_dir
  ensure_dirs cur [] s = (none, s)
  ensure_dirs cur (p ∷ ps) s =
      let next = cur ++ p ∷ [] in
      let r = ensure_dir next s in let rest = ensure_dirs next ps r.1 in and_then r.0 r.1 rest

  -- `ensureParent` and `ensureUserRoot`, which stops at an anonymous request.
  pub ensure_parent : List Text → S → Option FsError × S
  unfolding ensure_dirs
  ensure_parent scoped s = ensure_dirs [] (dir_of scoped) s

  pub ensure_user_root : Text → S → Option FsError × S
  unfolding ensure_dirs
  ensure_user_root user s =
      if is_empty user then (some anonymous, s) else ensure_dirs [] (codes "u" ∷ user ∷ []) s

-- The server: the inner file system, the archive, and the health of the adapter.
pub record Server (S : Type 0) : Type 0 where
  pub inner : S
  pub archive : Archive
  pub health : AdapterHealthState

-- `capturingFile`, the inner file and the bytes written to it.
pub record CapturingFile (H : Type 0) : Type 0 where
  pub file : H
  pub user : Text
  pub rel_path : Text
  pub buf : List ℕ
  pub dirty : Bool
  pub closed : Bool
  pub write_failed : Bool

-- `p[:n]`.
abbrev pub take : ℕ → List ℕ → List ℕ
take zero p = []
take (suc n) [] = []
take (suc n) (x ∷ p) = x ∷ take n p

abbrev pub after_write : {H : Type 0} → ℕ → List ℕ → CapturingFile H → CapturingFile H
after_write n p c = if n == 0 then c else record c { buf = c.buf ++ take n p; dirty = true }

abbrev pub note_failure : {H : Type 0} → Bool → CapturingFile H → CapturingFile H
note_failure false c = c
note_failure true c = record c { write_failed = true }

-- The archive and the health after `archiveUpload`.
abbrev pub after_archive : AdapterHealthState → Archived × Archive → Archive × AdapterHealthState
after_archive health (archived e, a) = (a, health)
after_archive health (refused e, a) = (a, AdapterHealthState.degraded)

module _ {S H : Type 0} (fs : InnerFs S H) where
  -- `OpenFile`. A file opened to be read has no wrapper.
  pub open_file :
      Text → Text → OpenFlags → Server S → Option (H × Option (CapturingFile H)) × Server S
  unfolding ensure_user_root ensure_parent
  open_file user name flags s = elim (scoped_name user name) [
    | none ↦ (none, s)
    | some (scoped, clean_name) ↦
        let root = ensure_user_root fs user s.inner in
        elim root.0 [
          | some e ↦ (none, record s { inner = root.1 })
          | none ↦
              let parents =
                if is_write flags then ensure_parent fs scoped root.1 else (none, root.1) in
              elim parents.0 [
                | some e ↦ (none, record s { inner = parents.1 })
                | none ↦
                    let opened = fs.open_file scoped flags parents.1 in
                    elim opened.0 [
                      | none ↦ (none, record s { inner = opened.1 })
                      | some h ↦ (
                        some (
                          h,
                          if is_write flags
                              then some (record {
                                file = h;
                                user = user;
                                rel_path = rooted clean_name;
                                buf = [];
                                dirty = false;
                                closed = false;
                                write_failed = false;
                              })
                              else none,
                        ),
                        record s { inner = opened.1 },
                      )
                    ]
              ]
        ]
  ]

  -- `Write`.
  abbrev pub write : List ℕ → CapturingFile H → S → CapturingFile H × S
  write p c s = let r = fs.write c.file p s in (note_failure r.1.0 (after_write r.0 p c), r.1.1)

  abbrev pub writes : List (List ℕ) → CapturingFile H → S → CapturingFile H × S
  writes [] c s = (c, s)
  writes (p ∷ ps) c s = let r = write p c s in writes ps r.0 r.1

  -- `Close`.
  pub close :
      (List ℕ → Text)
      → Faults
      → ℕ
      → CapturingFile H
      → Server S
      → Option FsError × (CapturingFile H × Server S)
  close sha256 faults now c s =
      let c' = record c { closed = true } in
      let r = fs.close c.file s.inner in
      let (archive, health) =
        after_archive s.health
          (archive_upload sha256 faults now c.user c.rel_path c.buf s.archive) in
      if c.closed
      then (none, (c, s))
      else if c.dirty && not c.write_failed
      then (r.0, (c', record { inner = r.1; archive = archive; health = health }))
      else (r.0, (c', record s { inner = r.1 }))

  -- `Mkdir`.
  pub mkdir : Text → Text → S → Option FsError × S
  unfolding ensure_user_root ensure_parent
  mkdir user name s = elim (scoped_name user name) [
    | none ↦ (some anonymous, s)
    | some (scoped, _) ↦
        let root = ensure_user_root fs user s in
        elim root.0 [
          | some e ↦ (some e, root.1)
          | none ↦
              let parents = ensure_parent fs scoped root.1 in
              elim parents.0 [ some e ↦ (some e, parents.1) | none ↦ fs.mkdir scoped parents.1 ]
        ]
  ]

  -- `Stat`: whether there is something.
  pub stat : Text → Text → S → Option FsError × (Bool × S)
  unfolding ensure_user_root
  stat user name s = elim (scoped_name user name) [
    | none ↦ (some anonymous, (false, s))
    | some (scoped, _) ↦
        let root = ensure_user_root fs user s in
        elim root.0 [
          | some e ↦ (some e, (false, root.1))
          | none ↦ (none, (fs.stat scoped root.1, root.1))
        ]
  ]

  -- `RemoveAll` and `Rename`.
  pub remove_all : Text → Text → S → Option FsError × S
  remove_all user name s = elim (scoped_name user name) [
    | none ↦ (some anonymous, s)
    | some (scoped, _) ↦ fs.remove_all scoped s
  ]

  pub rename : Text → Text → Text → S → Option FsError × S
  rename user old_name new_name s = elim (scoped_name user old_name) [
    | none ↦ (some anonymous, s)
    | some (old_scoped, _) ↦ elim (scoped_name user new_name) [
      | none ↦ (some anonymous, s)
      | some (new_scoped, _) ↦ fs.rename old_scoped new_scoped s
    ]
  ]
