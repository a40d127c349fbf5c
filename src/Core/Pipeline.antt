-- ===== src/Core/Pipeline.antt =====
-- internal/core/pipeline.go: `process`, the whole way of one event through one transaction.
pub mod Effect
pub mod Refinement
pub mod Rules
pub mod Pinned
pub mod Contents
pub mod Integrity
use readsync.Base.{
  ℕ, ◌+◌, Bool, true, false, not, ◌&&◌, ◌||◌, List, [], ◌∷◌, Option, none, some, leb, if◌then◌else◌,
  first, is_some,
}
use readsync.Base.Double.{Double}
use readsync.Model.{Source, ProgressEvent, CanonicalProgress, source_eq}
use readsync.Conflicts.{JumpReason, detect_suspicious_jump, can_auto_resolve}
use readsync.Resolver.Bands.{writeback_enabled}
use readsync.Core.Event.{AdapterEvent, Invalid, validate_event, normalize_event}
use readsync.Core.Db.{Db, event_row, put_event, put_conflict, of_book, put_canonical, put_job}
use readsync.Core.Tx.{Session, Tx, ◌>>=◌, ◌>>◌, ret, exec}
use readsync.Core.Resolve.{Env, resolve_book}

abbrev pub all_targets : List Source
all_targets = Source.calibre ∷ Source.koreader ∷ Source.moon ∷ Source.goodreads_bridge ∷ []

abbrev pub without : Source → List Source → List Source
without originator [] = []
without originator (s ∷ ss) =
    let rest = without originator ss in if source_eq s originator then rest else s ∷ rest

-- `writebackTargets`.
unfoldable pub writeback_targets : Source → List Source
writeback_targets originator = without originator all_targets

-- The answer to the adapter; which stage failed is not kept.
pub data Outcome : Type 0 where
  done : Outcome
  invalid : Invalid → Outcome
  failed : Outcome

module _ {W : Type 0} ⦃d : Double W⦄ where
  -- `insertEvent`: the id of the new row.
  insert_event : ℕ → ℕ → ℕ → AdapterEvent W → Tx W ℕ
  insert_event now book confidence ev =
      exec (λ db. (db.events.seq + 1, put_event now book confidence ev db))

  load_canonical : ℕ → Tx W (Option (CanonicalProgress W))
  load_canonical book = exec (λ db. (first (of_book book) db.canonical, db))

  -- Whether the event is in conflict: only an unpinned canonical row can make it so.
  abbrev pub jump_of : Option (CanonicalProgress W) → ProgressEvent W → Option (JumpReason W)
  jump_of none ev = none
  jump_of (some canon) ev =
      if canon.user_pinned then none else detect_suspicious_jump (some canon) ev

  abbrev pub event_id_of : Option (CanonicalProgress W) → ℕ
  event_id_of none = 0
  event_id_of (some canon) = canon.event_id

  abbrev pub is_pinned : Option (CanonicalProgress W) → Bool
  is_pinned none = false
  is_pinned (some canon) = canon.user_pinned

  -- The id of the conflict, if there is one.
  record_conflict :
      ℕ → ℕ → ℕ → Option (CanonicalProgress W) → Option (JumpReason W) → Tx W (Option ℕ)
  record_conflict now book event canon none = ret none
  record_conflict now book event canon (some reason) = exec (λ db.
      (some (db.conflicts.seq + 1), put_conflict now book (event_id_of canon) event reason db))

  -- `updateCanon`, with the test for a pin that follows it.
  abbrev pub updates_canonical : AdapterEvent W → ℕ → Option (CanonicalProgress W) → Option ℕ → Bool
  updates_canonical ev confidence canon conflict =
      (if is_some conflict
        then can_auto_resolve (record {
          trustworthy_timestamps = is_some ev.device_ts;
          confidence_high = leb 80 confidence;
          plausible_movement = false;
          writeback_enabled = writeback_enabled confidence;
          no_user_pin = not (is_pinned canon);
        })
        else true)
      && not (is_pinned canon)

  upsert_canonical : Bool → ℕ → ℕ → ℕ → AdapterEvent W → Tx W (Unit {0})
  upsert_canonical false now book event ev = ret tt
  upsert_canonical true now book event ev = exec (λ db. (tt, put_canonical now book event ev db))

  -- The loops of `enqueueWritebacks` (no conflict) and `enqueueBlockedJobs`.
  enqueue_jobs : ℕ → ℕ → ℕ → Option ℕ → List Source → Tx W (Unit {0})
  enqueue_jobs now book event conflict [] = ret tt
  enqueue_jobs now book event conflict (target ∷ targets) =
      exec (λ db. (tt, put_job now book event conflict target db))
      >> enqueue_jobs now book event conflict targets

  -- Which targets get a job.
  abbrev pub job_targets : AdapterEvent W → ℕ → Option ℕ → List Source
  job_targets ev confidence conflict =
      if writeback_enabled confidence || is_some conflict then writeback_targets ev.source else []

  -- What follows the resolution of the book.
  pub apply_event : ℕ → ℕ → ℕ → AdapterEvent W → Tx W (Unit {0})
  unfolding insert_event load_canonical record_conflict upsert_canonical enqueue_jobs
  apply_event now book confidence ev = do
    event ← insert_event now book confidence ev
    canon ← load_canonical book
    conflict ←
        record_conflict now book event canon
          (jump_of canon (event_row now book confidence ev event))
    upsert_canonical (updates_canonical ev confidence canon conflict) now book event ev
    enqueue_jobs now book event conflict (job_targets ev confidence conflict)

  begin : Tx W (Unit {0})
  begin = exec (λ db. (tt, db))

  commit : Tx W (Unit {0})
  commit = exec (λ db. (tt, db))

  pub transaction : Env → ℕ → AdapterEvent W → Tx W (Unit {0})
  unfolding apply_event begin commit resolve_book
  transaction env now ev = do
    begin
    (book, confidence) ← resolve_book env now ev.book_evidence
    apply_event now book confidence ev
    commit

  -- `process`: the answer to the adapter and the tables. A transaction that does not commit is
  -- rolled back.
  unfoldable pub process : Env → ℕ → List Bool → AdapterEvent W → Db W → Outcome × Db W
  unfolding transaction
  process env now faults ev db = elim (validate_event ev) [
    | some e ↦ (invalid e, db)
    | none ↦ elim (transaction env now (normalize_event ev) (record { db = db; faults = faults })) [
      | none ↦ (failed, db)
      | some (_, s) ↦ (done, s.db)
    ]
  ]
