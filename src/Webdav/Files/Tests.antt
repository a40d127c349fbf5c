-- ===== src/Webdav/Files/Tests.antt =====
-- A file system that is the list of its directories, where a directory needs no parent.
use readsync.Base.{
  true, false, List, [], ◌∷◌, none, some, ◌≡◌, refl, Text, codes, length, if◌then◌else◌, exists,
  text_eq_refl, arith,
}
use readsync.Base.Table.{empty_table}
use readsync.Model.{AdapterHealthState}
use readsync.Webdav.Archive.{no_faults, names_eq, archive_upload}
use readsync.Webdav.Files.{InnerFs, Server, exists_already, writes, close}
use readsync.Webdav.Files.Parents.{IsFs}
use readsync.Webdav.Files.Closing.{concat, is_empty_body, fresh, close-writes}

abbrev Dirs : Type 0
Dirs = List (List Text)

abbrev listed : InnerFs Dirs (Unit {0})
listed = record {
  stat = λ p s. exists (names_eq p) s;
  mkdir = λ p s. (if exists (names_eq p) s then some exists_already else none, p ∷ s);
  remove_all = λ p s. (none, s);
  rename = λ p q s. (none, s);
  open_file = λ p flags s. (some tt, s);
  write = λ h p s. (length p, (false, s));
  close = λ h s. (none, s);
}

names_eq_refl : (p : List Text) → names_eq p p ≡ true
names_eq_refl [] = refl
names_eq_refl (x ∷ p) = rw (text_eq_refl x, names_eq_refl p) refl

listed-IsFs : IsFs listed
listed-IsFs = record {
  made = λ p s h. rw (names_eq_refl p) refl;
  there = λ p s h. rw (names_eq_refl p) refl;
  keeps = λ p q s h. ground (arith, h);
}

abbrev file : List Text
file = codes "u" ∷ codes "mia" ∷ codes "Books" ∷ codes "a.po" ∷ []

abbrev server : Server Dirs
server = record {
  inner = [];
  archive = record {
    users = record {
      rows =
          record { id = 1; username = codes "mia"; password_hash = codes "h"; created_at = 1 } ∷ [];
      seq = 1;
    };
    uploads = empty_table;
    files = [];
  };
  health = AdapterHealthState.ok;
}

close-writes_example :
    let chunks = codes "1*2@3#4:" ∷ codes "50%" ∷ [] in
    let w = writes listed chunks (fresh listed tt (codes "mia") (codes "/a.po")) server.inner in
    let r = close listed (λ body. body) no_faults 5 w.0 (record server { inner = w.1 }) in
    let r' = close listed (λ body. body) no_faults 6 r.1.0 r.1.1 in
    (r.1.1.archive ≡ (
      if is_empty_body (concat chunks)
      then server.archive
      else (archive_upload
          (λ body. body)
          no_faults
          5
          (codes "mia")
          (codes "/a.po")
          (concat chunks)
          server.archive).1))
    × (r'.1.1 ≡ r.1.1)
close-writes_example =
    close-writes listed (λ body. body) no_faults no_faults 5 6 (codes "mia") (codes "/a.po") tt
      (codes "1*2@3#4:" ∷ codes "50%" ∷ []) server refl
