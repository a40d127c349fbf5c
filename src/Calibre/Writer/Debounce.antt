-- ===== src/Calibre/Writer/Debounce.antt =====
-- What the debounce of writes keeps and drops.
use readsync.Base.{ℕ, ◌+◌, ◌<◌, Bool, true, false, some, ◌≡◌, refl, ap, ◌∙◌, arith, ==_refl}
use readsync.Base.Double.{Double}
use readsync.Model.{OutboxJob}
use readsync.Calibre.{Calibredb}
use readsync.Calibre.Writer.{Adapter, Texts, last_write, is_recent, write_progress}

module _ {L : Type 0} (db : Calibredb L) {W : Type 0} ⦃d : Double W⦄ (t : Texts W) (delay : ℕ) where
  -- A write that is no repetition leaves the time of the book.
  noted_lem :
      (now : ℕ) (gui_running : Bool) (job : OutboxJob) (a : Adapter L)
      → is_recent delay now (last_write job.book_id a.debounce) ≡ false
      → last_write job.book_id (write_progress db t delay now gui_running job a).1.debounce
        ≡ some now
  unfolding write_progress
  noted_lem now true job a h = rw (h, ==_refl job.book_id) refl
  noted_lem now false job a h = rw (h, ==_refl job.book_id) refl

  dropped :
      (now : ℕ) (gui_running : Bool) (job : OutboxJob) (a : Adapter L)
      → is_recent delay now (last_write job.book_id a.debounce) ≡ true
      → write_progress db t delay now gui_running job a ≡ (false, a)
  unfolding write_progress
  dropped now gui_running job a h = rw h refl

  -- After a write of a book, done, queued or failed, a second job of the book within the delay is
  -- answered without an error, though it is neither applied nor queued: the library, the queue and the
  -- times are as before it.
  pub write_progress-dropped :
      (now now' : ℕ) (gui_running gui_running' : Bool) (job job' : OutboxJob) (a : Adapter L)
      → job'.book_id ≡ job.book_id
      → is_recent delay now (last_write job.book_id a.debounce) ≡ false
      → now' < now + delay
      → let a' = (write_progress db t delay now gui_running job a).1 in
        write_progress db t delay now' gui_running' job' a' ≡ (false, a')
  write_progress-dropped now now' gui_running gui_running' job job' a same h soon =
      let a' = (write_progress db t delay now gui_running job a).1 in
      let last : last_write job'.book_id a'.debounce ≡ some now =
        ap (λ b. last_write b a'.debounce) same ∙ noted_lem now gui_running job a h in
      let recent : is_recent delay now' (last_write job'.book_id a'.debounce) ≡ true =
        ap (is_recent delay now') last ∙ ground (arith, soon) in
      dropped now' gui_running' job' a' recent
