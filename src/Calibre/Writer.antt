-- ===== src/Calibre/Writer.antt =====
-- internal/adapters/calibre/write.go, and of calibre.go `WriteProgress` with its debounce and the queue of
-- writes that wait for the Calibre window to be closed.
pub mod Debounce
use readsync.Base.{
  ℕ, ◌+◌, Bool, true, false, not, ◌&&◌, ◌||◌, List, [], ◌∷◌, ◌++◌, Option, none, some, Text, codes,
  is_empty, ◌==◌, ltb, if◌then◌else◌,
}
use readsync.Base.Double.{Double}
use readsync.Model.{OutboxJob}
use readsync.Calibre.{Calibredb, go_on}

-- `writePayload`, the fields that are written.
pub record WritePayload (W : Type 0) : Type 0 where
  pub calibre_id : Text
  pub percent_complete : W
  pub read_status : Text
  pub raw_locator : Text
  pub locator_type : Text
  pub goodreads_id : Text

-- `json.Unmarshal` of a payload; the text of `int(math.Round(x))`; a time as RFC 3339.
pub record Texts (W : Type 0) : Type 0 where
  pub unmarshal : OutboxJob → Option (WritePayload W)
  pub rounded : W → Text
  pub stamp : ℕ → Text

abbrev or_percent : Text → Text
or_percent mode = if is_empty mode then codes "percent" else mode

-- The values that `applyWrite` sets, in the order of the code.
abbrev raw_field : Text → List (Text × Text)
raw_field locator = if is_empty locator then [] else (codes "readsync_last_position", locator) ∷ []

abbrev pub field_values : Text → Text → Text → Text → Text → List (Text × Text)
field_values progress mode status locator synced =
    ((codes "readsync_progress", progress)
      ∷ (codes "readsync_progress_mode", or_percent mode)
      ∷ (codes "readsync_status", status)
      ∷ [])
    ++ raw_field locator
    ++ ((codes "readsync_last_source", codes "calibre")
        ∷ (codes "readsync_last_synced", synced)
        ∷ [])

abbrev pub fields : {W : Type 0} ⦃d : Double W⦄ → Texts W → ℕ → WritePayload W → List (Text × Text)
fields {W} ⦃d⦄ t now p =
    field_values (t.rounded (d.mul p.percent_complete (d.lit 100 0))) p.locator_type p.read_status
      p.raw_locator (t.stamp now)

module _ {L : Type 0} (db : Calibredb L) where
  -- The calls of `setCustomField`, up to the first error.
  unfoldable pub set_fields : Text → List (Text × Text) → L → Bool × L
  set_fields book [] l = (false, l)
  set_fields book ((name, value) ∷ fs) l =
      let r = db.set_custom name book value l in
      let rest = set_fields book fs r.1 in go_on r.0 r.1 rest

  -- An error of the identifier is only logged.
  abbrev pub set_goodreads : Text → Text → L → Bool × L
  set_goodreads book id l =
      if is_empty id
      then (false, l)
      else (false, (db.set_identifier (codes "goodreads") book id l).1)

  module _ {W : Type 0} ⦃d : Double W⦄ (t : Texts W) where
    unfoldable pub write_payload : ℕ → WritePayload W → L → Bool × L
    unfolding set_fields
    write_payload now p l =
        let r = set_fields p.calibre_id (fields t now p) l in
        let rest = set_goodreads p.calibre_id p.goodreads_id r.1 in
        if is_empty p.calibre_id then (true, l) else go_on r.0 r.1 rest

    abbrev pub apply_payload : ℕ → Option (WritePayload W) → L → Bool × L
    apply_payload now none l = (true, l)
    apply_payload now (some p) l = write_payload now p l

    -- `applyWrite`: whether there is an error.
    pub apply_write : ℕ → OutboxJob → L → Bool × L
    unfolding write_payload
    apply_write now job l = apply_payload now (t.unmarshal job) l

-- What the adapter keeps: when a book was last written, and the jobs that wait.
pub record Adapter (L : Type 0) : Type 0 where
  pub library : L
  pub debounce : List (ℕ × ℕ)
  pub queue : List OutboxJob

-- The time of the last write of a book: the newest entry stands first; without one it is the zero time.
abbrev pub last_write : ℕ → List (ℕ × ℕ) → Option ℕ
last_write book [] = none
last_write book ((b, at_time) ∷ entries) =
    if b == book then some at_time else last_write book entries

-- `time.Since(…) < WriteDelay`.
abbrev pub is_recent : ℕ → ℕ → Option ℕ → Bool
is_recent delay now none = false
is_recent delay now (some at_time) = ltb now (at_time + delay)

module _ {L : Type 0} (db : Calibredb L) {W : Type 0} ⦃d : Double W⦄ (t : Texts W) (delay : ℕ) where
  abbrev pub with_library : Adapter L → Bool × L → Bool × Adapter L
  with_library a r = (r.0, record a { library = r.1 })

  -- `WriteProgress` of an adapter that is ready: whether there is an error.
  pub write_progress : ℕ → Bool → OutboxJob → Adapter L → Bool × Adapter L
  unfolding apply_write
  write_progress now gui_running job a =
      let noted = record a { debounce = (job.book_id, now) ∷ a.debounce } in
      if is_recent delay now (last_write job.book_id a.debounce)
      then (false, a)
      else if gui_running
      then (false, record noted { queue = a.queue ++ job ∷ [] })
      else with_library noted (apply_write db t now job a.library)

  -- The loop of `drainWriteQueue`, over the jobs that it has taken from the queue.
  pub drain : ℕ → List OutboxJob → Adapter L → Adapter L
  unfolding apply_write
  drain now [] a = a
  drain now (job ∷ jobs) a =
      let r = apply_write db t now job a.library in
      drain now jobs
        (record a { library = r.1; queue = if r.0 then a.queue ++ job ∷ [] else a.queue })

  -- `drainWriteQueue`.
  pub drain_write_queue : ℕ → Adapter L → Adapter L
  unfolding drain
  drain_write_queue now a = drain now a.queue (record a { queue = [] })
