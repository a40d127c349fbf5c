-- ===== src/Core/Pipeline/Contents.antt =====
-- What an event leaves in the tables, with every new row written out column by column.
pub mod Steps
pub mod Cases
use readsync.Base.{
  ℕ, ◌+◌, Bool, true, false, List, [], ◌∷◌, ◌++◌, append_assoc, append-nil, Option, none, some,
  codes, ◌≡◌, refl, sym, ◌∙◌, ap, subst, arith, ◌⊎◌, first, leb, ◌==◌, if◌then◌else◌, Bool-cases,
  Option-cases, inl, inr,
}
use mathlib.Core.Bool.{true≢false}
use mathlib.Core.Option.{some-injective}
use readsync.Base.Double.{Double}
use readsync.Model.{
  Source, ProgressEvent, CanonicalProgress, Conflict, ConflictStatus, OutboxJob, OutboxStatus,
}
use readsync.Conflicts.{JumpReason, detect_suspicious_jump}
use readsync.Core.Event.{AdapterEvent, Invalid, validate_event, normalize_event}
use readsync.Core.Db.{
  Db, event_row, put_event, put_conflict, of_book, upsert, put_canonical, put_job, job_row,
}
use readsync.Core.Resolve.{Env, resolve_book}
use readsync.Core.Resolve.Frame.{SameProgress, resolve_book-Keeps}
use readsync.Core.Pipeline.{
  Outcome, done, failed, invalid, process, writeback_targets, jump_of, is_pinned, event_id_of,
}
use readsync.Core.Pipeline.Effect.{settled, jump_in, with_jobs}
use readsync.Core.Pipeline.Refinement.{
  open_session, Effect, rejected, unresolved, accepted, process-Effect,
}
use readsync.Core.Pipeline.Rules.{settled_conflict, settled_agreement, process_accepted}
use readsync.Core.Pipeline.Pinned.{first-upsert, with_jobs-canonical}

-- The four targets but the one that the event comes from.
abbrev pub targets_but : Source → List Source
targets_but Source.calibre = Source.koreader ∷ Source.moon ∷ Source.goodreads_bridge ∷ []
targets_but Source.koreader = Source.calibre ∷ Source.moon ∷ Source.goodreads_bridge ∷ []
targets_but Source.moon = Source.calibre ∷ Source.koreader ∷ Source.goodreads_bridge ∷ []
targets_but Source.goodreads_bridge = Source.calibre ∷ Source.koreader ∷ Source.moon ∷ []
targets_but _ = Source.calibre ∷ Source.koreader ∷ Source.moon ∷ Source.goodreads_bridge ∷ []

pub targets_lem : (s : Source) → writeback_targets s ≡ targets_but s
unfolding writeback_targets
targets_lem Source.calibre = refl
targets_lem Source.koreader = refl
targets_lem Source.moon = refl
targets_lem Source.goodreads_bridge = refl
targets_lem Source.kindle_via_goodreads = refl
targets_lem Source.unset = refl
targets_lem (Source.other s) = refl

-- Rows for some targets, with the ids that follow `seq`.
abbrev pub numbered : (ℕ → Source → OutboxJob) → ℕ → List Source → List OutboxJob
numbered row seq [] = []
numbered row seq (target ∷ targets) = row (seq + 1) target ∷ numbered row (seq + 1) targets

-- A new job with its status and the conflict that blocks it.
abbrev pub new_job : ℕ → ℕ → ℕ → OutboxStatus → Option ℕ → ℕ → Source → OutboxJob
new_job now book event status blocking id target = record {
  id = id;
  created_at = now;
  updated_at = now;
  book_id = book;
  target_source = target;
  status = status;
  attempts = 0;
  next_retry_at = none;
  last_error = none;
  payload = (codes "book_id", book) ∷ (codes "event_id", event) ∷ [];
  blocking_conflict_id = blocking;
}

module _ {W : Type 0} ⦃d : Double W⦄ (now book confidence : ℕ) (ev : AdapterEvent W) where
  -- The event as it is stored.
  abbrev pub new_event : ℕ → ProgressEvent W
  new_event id = record {
    id = id;
    book_id = book;
    source = ev.source;
    received_at = now;
    device_ts = ev.device_ts;
    percent_complete = ev.percent_complete;
    page_number = ev.page_number;
    total_pages = ev.total_pages;
    raw_locator = ev.raw_locator;
    locator_type = ev.locator_type;
    read_status = ev.read_status;
    identity_confidence = confidence;
  }

  -- The rows that a suspicious jump against the canonical row `canon` adds, and what stays.
  pub record InConflict (canon : CanonicalProgress W) (reason : JumpReason W) (db db' : Db W)
      : Type 0 where
    pub events : db'.events.rows ≡ db.events.rows ++ new_event (db.events.seq + 1) ∷ []
    pub conflicts :
        db'.conflicts.rows
        ≡ db.conflicts.rows
          ++ record {
            id = db.conflicts.seq + 1;
            book_id = book;
            detected_at = now;
            resolved_at = none;
            status = ConflictStatus.open_conflict;
            event_a_id = canon.event_id;
            event_b_id = db.events.seq + 1;
            winner_event_id = none;
            reason = reason;
            resolved_by = none;
          }
            ∷ []
    pub jobs :
        db'.outbox.rows
        ≡ db.outbox.rows
          ++ numbered
              (new_job now book
                (db.events.seq + 1)
                OutboxStatus.blocked_by_conflict
                (some (db.conflicts.seq + 1)))
              db.outbox.seq
              (targets_but ev.source)
    pub canonical : db'.canonical ≡ db.canonical
    pub books : db'.books ≡ db.books
    pub aliases : db'.aliases ≡ db.aliases

  -- The rows that any other event adds, and what becomes of the canonical progress.
  pub record InAgreement (db db' : Db W) : Type 0 where
    pub events : db'.events.rows ≡ db.events.rows ++ new_event (db.events.seq + 1) ∷ []
    pub conflicts : db'.conflicts ≡ db.conflicts
    pub jobs :
        db'.outbox.rows
        ≡ db.outbox.rows
          ++ numbered
              (new_job now book (db.events.seq + 1) OutboxStatus.queued none)
              db.outbox.seq
              (if leb 60 confidence then targets_but ev.source else [])
    pub pinned :
        (c : CanonicalProgress W)
        → first (of_book book) db.canonical ≡ some c
        → c.user_pinned ≡ true
        → db'.canonical ≡ db.canonical
    pub updated :
        ((c : CanonicalProgress W)
          → first (of_book book) db.canonical ≡ some c
          → c.user_pinned ≡ false)
        → first (of_book book) db'.canonical
          ≡ some (record {
            book_id = book;
            updated_at = now;
            updated_by = ev.source;
            event_id = db.events.seq + 1;
            percent_complete = ev.percent_complete;
            page_number = ev.page_number;
            total_pages = ev.total_pages;
            raw_locator = ev.raw_locator;
            locator_type = ev.locator_type;
            read_status = ev.read_status;
            user_pinned = false;
          })
    pub others :
        (k : ℕ)
        → (k == book) ≡ false
        → first (of_book k) db'.canonical ≡ first (of_book k) db.canonical
    pub books : db'.books ≡ db.books
    pub aliases : db'.aliases ≡ db.aliases

  -- The event is a suspicious jump against an unpinned canonical row of its book.
  pub record IsJump (canon : CanonicalProgress W) (reason : JumpReason W) (db : Db W) : Type 0 where
    pub row : first (of_book book) db.canonical ≡ some canon
    pub unpinned : canon.user_pinned ≡ false
    pub jump : detect_suspicious_jump (some canon) (new_event (db.events.seq + 1)) ≡ some reason

  -- It is none.
  abbrev pub NoJump : Db W → Type 0
  NoJump db =
      (canon : CanonicalProgress W)
      → first (of_book book) db.canonical ≡ some canon
      → canon.user_pinned ≡ false
      → detect_suspicious_jump (some canon) (new_event (db.events.seq + 1)) ≡ none
