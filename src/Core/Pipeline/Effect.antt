-- ===== src/Core/Pipeline/Effect.antt =====
-- `process` is atomic, and what it does is a function of the tables and the event.
use readsync.Base.{
  ℕ, ◌+◌, Bool, true, false, List, [], ◌∷◌, Option, none, some, ◌≡◌, refl, ◌⊎◌, inl, inr,
  if◌then◌else◌, first,
}
use readsync.Base.Double.{Double}
use readsync.Model.{Source, CanonicalProgress}
use readsync.Conflicts.{JumpReason}
use readsync.Core.Event.{AdapterEvent, Invalid, validate_event, normalize_event}
use readsync.Core.Db.{Db, event_row, put_event, put_conflict, of_book, put_canonical, put_job}
use readsync.Core.Tx.{◌>>=◌, ◌>>◌, exec}
use readsync.Core.Tx.Steady.{refused, passed, IsSteady, ret-IsSteady, exec-IsSteady, bind-IsSteady}
use readsync.Core.Resolve.{Env}
use readsync.Core.Resolve.Steady.{resolve_book-IsSteady}
use readsync.Core.Pipeline.{
  insert_event, load_canonical, jump_of, event_id_of, record_conflict, updates_canonical,
  upsert_canonical, enqueue_jobs, job_targets, apply_event, begin, commit, transaction, failed,
  process,
}

-- The specification: what an accepted event does to the tables, once its book is known.
module _ {W : Type 0} ⦃d : Double W⦄ where
  abbrev pub with_conflict :
      ℕ → ℕ → ℕ → Option (CanonicalProgress W) → Option (JumpReason W) → Db W → Db W
  with_conflict now book event canon none db = db
  with_conflict now book event canon (some reason) db =
      put_conflict now book (event_id_of canon) event reason db

  abbrev pub conflict_id : Db W → Option (JumpReason W) → Option ℕ
  conflict_id db none = none
  conflict_id db (some reason) = some (db.conflicts.seq + 1)

  abbrev pub with_jobs : ℕ → ℕ → ℕ → Option ℕ → List Source → Db W → Db W
  with_jobs now book event conflict [] db = db
  with_jobs now book event conflict (target ∷ targets) db =
      with_jobs now book event conflict targets (put_job now book event conflict target db)

  -- The jump that the event is, against the canonical row of its book.
  unfoldable pub jump_in : ℕ → ℕ → ℕ → AdapterEvent W → Db W → Option (JumpReason W)
  jump_in now book confidence ev db =
      jump_of (first (of_book book) db.canonical)
        (event_row now book confidence ev (db.events.seq + 1))

  unfoldable pub settled : ℕ → ℕ → ℕ → AdapterEvent W → Db W → Db W
  settled now book confidence ev db =
      let event = db.events.seq + 1 in
      let canon = first (of_book book) db.canonical in
      let jump = jump_in now book confidence ev db in
      let conflict = conflict_id db jump in
      let db' = with_conflict now book event canon jump (put_event now book confidence ev db) in
      let db'' =
        if updates_canonical ev confidence canon conflict
        then put_canonical now book event ev db'
        else db' in
      with_jobs now book event conflict (job_targets ev confidence conflict) db''

  enqueue_lem :
      (now book event : ℕ) (conflict : Option ℕ) (targets : List Source) (db : Db W)
      → enqueue_jobs now book event conflict targets (record { db = db; faults = [] })
        ≡ some (tt, record { db = with_jobs now book event conflict targets db; faults = [] })
  unfolding enqueue_jobs exec
  enqueue_lem now book event conflict [] db = refl
  enqueue_lem now book event conflict (target ∷ targets) db =
      enqueue_lem now book event conflict targets (put_job now book event conflict target db)

  abbrev with_canonical : Bool → ℕ → ℕ → ℕ → AdapterEvent W → Db W → Db W
  with_canonical b now book event ev db = if b then put_canonical now book event ev db else db

  upsert_lem :
      (b : Bool) (now book event : ℕ) (ev : AdapterEvent W) (db : Db W)
      → upsert_canonical b now book event ev (record { db = db; faults = [] })
        ≡ some (tt, record { db = with_canonical b now book event ev db; faults = [] })
  unfolding upsert_canonical exec
  upsert_lem true now book event ev db = refl
  upsert_lem false now book event ev db = refl

  last_steps :
      (now book event confidence : ℕ) (ev : AdapterEvent W) (canon : Option (CanonicalProgress W))
      (conflict : Option ℕ) (db : Db W)
      → (upsert_canonical (updates_canonical ev confidence canon conflict) now book event ev
            >> enqueue_jobs now book event conflict (job_targets ev confidence conflict))
          (record { db = db; faults = [] })
        ≡ some (
          tt,
          record {
            db = with_jobs now book event conflict (job_targets ev confidence conflict) (
                with_canonical
                  (updates_canonical ev confidence canon conflict)
                  now
                  book
                  event
                  ev
                  db);
            faults = [];
          },
        )
  last_steps now book event confidence ev canon conflict db =
      rw (upsert_lem (updates_canonical ev confidence canon conflict) now book event ev db, ◌>>=◌)
        (enqueue_lem now book event conflict (job_targets ev confidence conflict) _)

  conflict_steps :
      (now book event confidence : ℕ) (ev : AdapterEvent W) (canon : Option (CanonicalProgress W))
      (jump : Option (JumpReason W)) (db : Db W)
      → let conflict = conflict_id db jump in
        (record_conflict now book event canon jump >>= λ conflict.
        upsert_canonical (updates_canonical ev confidence canon conflict) now book event ev
        >> enqueue_jobs now book event conflict (job_targets ev confidence conflict))
          (record { db = db; faults = [] })
        ≡ some (
          tt,
          record {
            db = with_jobs now book event conflict (job_targets ev confidence conflict) (
                with_canonical
                  (updates_canonical ev confidence canon conflict)
                  now
                  book
                  event
                  ev
                  (with_conflict now book event canon jump db));
            faults = [];
          },
        )
  unfolding record_conflict exec
  conflict_steps now book event confidence ev canon none db =
      last_steps now book event confidence ev canon none db
  conflict_steps now book event confidence ev canon (some reason) db =
      last_steps now book event confidence ev canon (some (db.conflicts.seq + 1))
        (put_conflict now book (event_id_of canon) event reason db)

  pub apply_lem :
      (now book confidence : ℕ) (ev : AdapterEvent W) (db : Db W)
      → apply_event now book confidence ev (record { db = db; faults = [] })
        ≡ some (tt, record { db = settled now book confidence ev db; faults = [] })
  unfolding apply_event settled jump_in exec
  apply_lem now book confidence ev db =
      conflict_steps now book (db.events.seq + 1) confidence ev (first (of_book book) db.canonical)
        (jump_in now book confidence ev db) (put_event now book confidence ev db)

  -- No refused statement changes what the steps do.
  enqueue-IsSteady :
      (now book event : ℕ) (conflict : Option ℕ) (targets : List Source)
      → IsSteady {W = W} (enqueue_jobs now book event conflict targets)
  unfolding enqueue_jobs
  enqueue-IsSteady now book event conflict [] = ret-IsSteady tt
  enqueue-IsSteady now book event conflict (target ∷ targets) =
      bind-IsSteady _ _ (exec-IsSteady _) λ _. enqueue-IsSteady now book event conflict targets

  record-IsSteady :
      (now book event : ℕ) (canon : Option (CanonicalProgress W)) (jump : Option (JumpReason W))
      → IsSteady {W = W} (record_conflict now book event canon jump)
  unfolding record_conflict
  record-IsSteady now book event canon none = ret-IsSteady none
  record-IsSteady now book event canon (some reason) = exec-IsSteady _

  upsert-IsSteady :
      (b : Bool) (now book event : ℕ) (ev : AdapterEvent W)
      → IsSteady {W = W} (upsert_canonical b now book event ev)
  unfolding upsert_canonical
  upsert-IsSteady true now book event ev = exec-IsSteady _
  upsert-IsSteady false now book event ev = ret-IsSteady tt

  apply-IsSteady :
      (now book confidence : ℕ) (ev : AdapterEvent W)
      → IsSteady {W = W} (apply_event now book confidence ev)
  unfolding apply_event insert_event load_canonical
  apply-IsSteady now book confidence ev = bind-IsSteady _ _ (exec-IsSteady _) λ event.
      bind-IsSteady _ _ (exec-IsSteady _) λ canon.
        bind-IsSteady _ _
          (record-IsSteady now book event canon
            (jump_of canon (event_row now book confidence ev event)))
          λ conflict.
            bind-IsSteady _ _
              (upsert-IsSteady (updates_canonical ev confidence canon conflict) now book event ev)
              λ _. enqueue-IsSteady now book event conflict (job_targets ev confidence conflict)

  transaction-IsSteady :
      (env : Env) (now : ℕ) (ev : AdapterEvent W) → IsSteady {W = W} (transaction env now ev)
  unfolding transaction begin commit
  transaction-IsSteady env now ev = bind-IsSteady _ _ (exec-IsSteady _) λ _.
      bind-IsSteady _ _ (resolve_book-IsSteady env now ev.book_evidence)
        λ r. bind-IsSteady _ _ (apply-IsSteady now r.0 r.1 ev) λ _. exec-IsSteady _

  -- Whatever statements the database refuses, an event is processed as if none were, or it is
  -- answered by an error and no table changes.
  pub process_atomic :
      (env : Env) (now : ℕ) (faults : List Bool) (ev : AdapterEvent W) (db : Db W)
      → (process env now faults ev db ≡ (failed, db))
        ⊎ (process env now faults ev db ≡ process env now [] ev db)
  unfolding process
  process_atomic env now faults ev db = go (validate_event ev) refl
    where
      go :
          (v : Option Invalid)
          → validate_event ev ≡ v
          → (process env now faults ev db ≡ (failed, db))
            ⊎ (process env now faults ev db ≡ process env now [] ev db)
      go (some x) e = inr (rw (e, process))
      go none e = elim (transaction-IsSteady env now (normalize_event ev) db faults) [
        | refused r ↦ inl (rw (e, r, process))
        | passed a db' rest r r' ↦ inr (rw (e, r, r', process))
      ]
