-- ===== src/Webdav/Files/Closing.antt =====
-- What of a file that is uploaded reaches the archive.
use readsync.Base.{
  ℕ, suc, Bool, true, false, not, ◌&&◌, ◌||◌, ◌==◌, List, [], ◌∷◌, ◌++◌, ◌≡◌, refl, sym, ap, ◌∙◌,
  length, append_assoc, append-nil, if◌then◌else◌, arith, Text, Bool-cases, inl, inr, &&-true, ==→≡,
}
use readsync.Model.{AdapterHealthState}
use readsync.Webdav.Archive.{refused, archived, Archive, Faults, Archived, archive_upload}
use readsync.Webdav.Files.{
  InnerFs, Server, CapturingFile, take, after_write, note_failure, writes, close, after_archive,
}

abbrev pub concat : List (List ℕ) → List ℕ
concat [] = []
concat (p ∷ ps) = p ++ concat ps

abbrev pub is_empty_body : List ℕ → Bool
is_empty_body [] = true
is_empty_body (x ∷ p) = false

off_of_not : (b : Bool) → not b ≡ true → b ≡ false
off_of_not b h = ground arith

take-length : (p : List ℕ) → take (length p) p ≡ p
take-length [] = refl
take-length (x ∷ p) = ap (λ q. x ∷ q) (take-length p)

module _ {S H : Type 0} (fs : InnerFs S H) where
  -- Every write takes all its bytes, without an error.
  abbrev pub all_written : H → List (List ℕ) → S → Bool
  all_written h [] s = true
  all_written h (p ∷ ps) s =
      let (n, (failed, s')) = fs.write h p s in
      let rest = all_written h ps s' in (n == length p) && (not failed && rest)

  -- The wrapper that `OpenFile` gives.
  abbrev pub fresh : H → Text → Text → CapturingFile H
  fresh h user rel_path = record {
    file = h;
    user = user;
    rel_path = rel_path;
    buf = [];
    dirty = false;
    closed = false;
    write_failed = false;
  }

  -- What the file holds after some bytes.
  abbrev after_bytes : CapturingFile H → List ℕ → CapturingFile H
  after_bytes c p = record c { buf = c.buf ++ p; dirty = c.dirty || not (is_empty_body p) }

  -- Files that differ at most in what they hold.
  same_file :
      (c : CapturingFile H) (p q : List ℕ) (b b' : Bool)
      → p ≡ q
      → b ≡ b'
      → ◌≡◌ {A = CapturingFile H}
          (record c { buf = p; dirty = b })
          (record c { buf = q; dirty = b' })
  same_file c p q b b' e e' = λ i. record c { buf = e i; dirty = e' i }

  after_write-length :
      (p : List ℕ) (c : CapturingFile H) → after_write (length p) p c ≡ after_bytes c p
  after_write-length [] c =
      same_file c c.buf (c.buf ++ []) c.dirty (c.dirty || false) (sym (append-nil c.buf))
        (ground arith)
  after_write-length (x ∷ p) c =
      let some_bytes : (suc (length p) == 0) ≡ false = ground arith in
      rw some_bytes (
        same_file c (c.buf ++ x ∷ take (length p) p) (c.buf ++ x ∷ p) true (c.dirty || true)
          (ap (λ q. c.buf ++ x ∷ q) (take-length p)) (ground arith))

  empty-append :
      (p q : List ℕ) (b : Bool)
      → ((b || not (is_empty_body p)) || not (is_empty_body q))
        ≡ (b || not (is_empty_body (p ++ q)))
  empty-append [] q b = ground arith
  empty-append (x ∷ p) q b = ground arith

  after_bytes-append :
      (p q : List ℕ) (c : CapturingFile H)
      → after_bytes (after_bytes c p) q ≡ after_bytes c (p ++ q)
  after_bytes-append p q c =
      same_file c ((c.buf ++ p) ++ q) (c.buf ++ (p ++ q))
        ((c.dirty || not (is_empty_body p)) || not (is_empty_body q))
        (c.dirty || not (is_empty_body (p ++ q))) (append_assoc c.buf p q)
        (empty-append p q c.dirty)

  writes-concat :
      (ps : List (List ℕ)) (c : CapturingFile H) (s : S)
      → all_written c.file ps s ≡ true
      → (writes fs ps c s).0 ≡ after_bytes c (concat ps)
  writes-concat [] c s h = after_write-length [] c
  writes-concat (p ∷ ps) c s h =
      let r = fs.write c.file p s in
      let rest = all_written c.file ps r.1.1 in
      let (count, ok) = &&-true (r.0 == length p) (not r.1.0 && rest) h in
      let (clean, later) = &&-true (not r.1.0) rest ok in
      let one : note_failure r.1.0 (after_write r.0 p c) ≡ after_bytes c p =
        rw (off_of_not r.1.0 clean, ==→≡ r.0 (length p) count) (after_write-length p c) in
      ap (λ x. (writes fs ps x r.1.1).0) one
      ∙ writes-concat ps (after_bytes c p) r.1.1 later
      ∙ after_bytes-append p (concat ps) c

  module _ (sha256 : List ℕ → Text) (faults : Faults) (now : ℕ) where
    after_archive-archive :
        (health : AdapterHealthState) (r : Archived × Archive) → (after_archive health r).0 ≡ r.1
    after_archive-archive health (archived e, a) = refl
    after_archive-archive health (refused e, a) = refl

    close-archive :
        (h : H) (user rel_path : Text) (body : List ℕ) (s : Server S)
        → (close fs sha256 faults now (after_bytes (fresh h user rel_path) body) s).1.1.archive ≡ (
            if is_empty_body body
            then s.archive
            else (archive_upload sha256 faults now user rel_path body s.archive).1)
    unfolding close
    close-archive h user rel_path [] s = refl
    close-archive h user rel_path (x ∷ p) s =
        after_archive-archive s.health
          (archive_upload sha256 faults now user rel_path (x ∷ p) s.archive)

    close-closed :
        (c : CapturingFile H) (s : Server S)
        → c.closed ≡ false
        → (close fs sha256 faults now c s).1.0.closed ≡ true
    unfolding close
    close-closed c s h = elim (Bool-cases (c.dirty && not c.write_failed)) [
      | inl e ↦ rw (h, e) refl
      | inr e ↦ rw (h, e) refl
    ]

    close_twice :
        (c : CapturingFile H) (s : Server S)
        → c.closed ≡ true
        → (close fs sha256 faults now c s).1.1 ≡ s
    unfolding close
    close_twice c s h = rw h refl

  -- Let a file be opened to be written, its user and path `user` and `rel_path`, let every write take
  -- all its bytes, and let the file be closed. If there is at least one byte, the archive is what
  -- `archiveUpload` makes of all the bytes in their order; if there is none, it is unchanged. A second
  -- `Close` does nothing.
  pub close-writes :
      (sha256 : List ℕ → Text) (faults faults' : Faults) (now now' : ℕ) (user rel_path : Text)
      (h : H) (ps : List (List ℕ)) (s : Server S)
      → all_written h ps s.inner ≡ true
      → let w = writes fs ps (fresh h user rel_path) s.inner in
        let (_, (c, s')) = close fs sha256 faults now w.0 (record s { inner = w.1 }) in
        let (_, (c', s'')) = close fs sha256 faults' now' c s' in
        (s'.archive ≡ (
          if is_empty_body (concat ps)
          then s.archive
          else (archive_upload sha256 faults now user rel_path (concat ps) s.archive).1))
        × (s'' ≡ s')
  close-writes sha256 faults faults' now now' user rel_path h ps s e =
      let same = writes-concat ps (fresh h user rel_path) s.inner e in
      let w = writes fs ps (fresh h user rel_path) s.inner in
      let written : Server S = record s { inner = w.1 } in
      (
        ap (λ c. (close fs sha256 faults now c written).1.1.archive) same
            ∙ close-archive sha256 faults now h user rel_path (concat ps) written,
        close_twice sha256 faults' now' (close fs sha256 faults now w.0 written).1.0
            (close fs sha256 faults now w.0 written).1.1
            (close-closed sha256 faults now w.0 written (ap (λ c. c.closed) same)),
      )
