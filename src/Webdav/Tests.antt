-- ===== src/Webdav/Tests.antt =====
-- Uploads to a small archive.
use mathlib.Core.Option.{some-injective}
use readsync.Base.{
  ℕ, Bool, true, false, List, [], ◌∷◌, some, ◌≡◌, ◌≢◌, refl, Text, codes, All, select, text_eq,
  text_eq_refl, subst,
}
use readsync.Base.Table.{empty_table}
use readsync.Webdav.{archive_dir, clean, safe_name, scoped_name}
use readsync.Webdav.Names.{has_dots}
use readsync.Webdav.Clean.{IsName, scoped_name-user, archive_dir-inside, inside, not_blank}
use readsync.Webdav.Archive.{
  Archive, ArchivePath, ArchiveError, MoonUser, Faults, no_faults, refused, upload_row,
  archive_create, archive_upload, content_at, store_body, archive_for,
}
use readsync.Webdav.Archive.Immutable.{Put, puts, IsBacked, puts-IsBacked}
use readsync.Webdav.Archive.Latest.{Ends, archive_upload-Ends}
use readsync.Webdav.Archive.Retry.{archive_upload-retry}
use readsync.Webdav.Users.{Bcrypt, create_user, authenticate, authenticate-create_user}

-- A name with parts that lead up, and one with a character that Windows takes for a separator.
archive_dir_run :
    archive_dir (codes "mia") (codes "../../etc/a:b")
    ≡ codes "raw" ∷ codes "mia" ∷ codes "_" ∷ codes "_" ∷ codes "etc" ∷ codes "a_b" ∷ []
unfolding safe_name
archive_dir_run = refl

archive_dir-inside_example :
    (archive_dir (codes "mia") (codes "../a.po")
      ≡ codes "raw" ∷ select not_blank (inside (codes "mia") (codes "../a.po")))
    × All (λ part. has_dots part ≡ false) (archive_dir (codes "mia") (codes "../a.po"))
archive_dir-inside_example = archive_dir-inside (codes "mia") (codes "../a.po")

scoped_name-user_example :
    (scoped_name (codes "mia") (codes "../../leo/a.po")
      ≡ some (
        codes "u" ∷ codes "mia" ∷ clean (codes "../../leo/a.po"),
        clean (codes "../../leo/a.po"),
      ))
    × All IsName (clean (codes "../../leo/a.po"))
scoped_name-user_example =
    scoped_name-user (codes "mia") (codes "../../leo/a.po")
      (record { not_blank = refl; not_parent = refl; one = refl })

-- The digest is the body itself.
abbrev sha : List ℕ → Text
sha body = body

abbrev mia : MoonUser
mia = record { id = 1; username = codes "mia"; password_hash = codes "h"; created_at = 1 }

abbrev archive : Archive
archive = record { users = record { rows = mia ∷ []; seq = 1 }; uploads = empty_table; files = [] }

abbrev row_fault : Faults
row_fault = record no_faults { row = true }

abbrev first_put : Put sha
first_put = record {
  faults = no_faults;
  now = 5;
  user = codes "mia";
  rel_path = codes "/a.po";
  body = codes "one";
}

abbrev second_put : Put sha
second_put = record {
  faults = row_fault;
  now = 6;
  user = codes "mia";
  rel_path = codes "/a.po";
  body = codes "two";
}

puts-IsBacked_example :
    IsBacked sha (puts sha (first_put ∷ second_put ∷ []) archive)
    × ((p : ArchivePath) (c : List ℕ)
        → content_at p archive.files ≡ some c
        → content_at p (puts sha (first_put ∷ second_put ∷ []) archive).files ≡ some c)
unfolding IsBacked
puts-IsBacked_example = puts-IsBacked sha (first_put ∷ second_put ∷ []) archive tt

archive_upload-Ends_example :
    let r = archive_upload sha no_faults 5 (codes "mia") (codes "/a.po") (codes "one") archive in
    Ends sha 5 (codes "mia") (codes "/a.po") (codes "one") archive r.0 r.1
archive_upload-Ends_example =
    archive_upload-Ends sha 5 (codes "mia") (codes "/a.po") (codes "one") archive no_faults

archive_upload-retry_example :
    let r = archive_upload sha row_fault 5 (codes "mia") (codes "/a.po") (codes "one") archive in
    (e' : ArchiveError) × (archive_upload sha no_faults 6
        (codes "mia")
        (codes "/a.po")
        (codes "two")
        r.1
      ≡ (refused e', r.1))
unfolding archive_upload archive_for store_body
archive_upload-retry_example =
    archive_upload-retry sha (codes "mia") (codes "/a.po") row_fault 5 (codes "one") archive
      (archive_upload sha row_fault 5 (codes "mia") (codes "/a.po") (codes "one") archive).1
      upload_row refl refl no_faults 6 (codes "two")

-- Two paths that differ only in an unsafe character have one directory, and the second upload is
-- refused, though its path has no version.
clash_run :
    let r = archive_upload sha no_faults 5 (codes "mia") (codes "a:b") (codes "one") archive in
    (archive_upload sha no_faults 6 (codes "mia") (codes "a_b") (codes "two") r.1).0
    ≡ refused archive_create
unfolding archive_upload archive_for store_body safe_name
clash_run = refl

abbrev bcrypt : Bcrypt
bcrypt = record { hash_password = λ p. some p; matches = text_eq }

authenticate-create_user_example :
    let users = (create_user bcrypt false 5 (codes "leo") (codes "pw") archive.users).1 in
    (authenticate bcrypt false (some (codes "leo", codes "pw")) users ≡ some (codes "leo"))
    × ((fault' : Bool) (user pass : Text)
        → user ≢ codes "leo"
        → authenticate bcrypt fault' (some (user, pass)) users
          ≡ authenticate bcrypt fault' (some (user, pass)) archive.users)
authenticate-create_user_example =
    authenticate-create_user bcrypt false 5 (codes "leo") (codes "pw") archive.users
      (create_user bcrypt false 5 (codes "leo") (codes "pw") archive.users).1
      (record {
        own = λ pass hash e.
            subst (λ x. text_eq x pass ≡ true) (some-injective pass hash e) (text_eq_refl pass);
      })
      refl
