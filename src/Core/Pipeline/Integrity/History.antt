-- ===== src/Core/Pipeline/Integrity/History.antt =====
-- Any history of events, with whatever statements the database refuses.
use readsync.Base.{ℕ, Bool, List, [], ◌∷◌, Option, none, some, ◌≡◌, refl, inl, inr, arith}
use readsync.Base.Double.{Double}
use readsync.Core.Event.{AdapterEvent, Invalid, validate_event, normalize_event}
use readsync.Core.Db.{Db, empty_db}
use readsync.Core.Resolve.{Env, resolve_book}
use readsync.Core.Resolve.Frame.{resolve_book-Keeps}
use readsync.Core.Resolve.Fresh.{Resolved, resolve_book-Resolved}
use readsync.Core.Pipeline.{done, process}
use readsync.Core.Pipeline.Effect.{process_atomic}
use readsync.Core.Pipeline.Rules.{process_accepted}
use readsync.Core.Pipeline.Integrity.{IsWhole, settled-IsWhole}

-- An event that reaches the pipeline, the time, and the statements that are refused.
pub record Arrival (W : Type 0) : Type 0 where
  pub now : ℕ
  pub faults : List Bool
  pub event : AdapterEvent W

module _ {W : Type 0} ⦃d : Double W⦄ where
  -- The resolution of a book keeps the tables whole.
  Resolved-IsWhole :
      (env : Env) (now : ℕ) (ev : AdapterEvent W) (db : Db W)
      → IsWhole db
      → (r : Resolved db (resolve_book env now ev.book_evidence)) × IsWhole r.db'
  Resolved-IsWhole env now ev db w =
      let r = resolve_book-Resolved env now ev.book_evidence db w.linked in
      let same = resolve_book-Keeps env now ev.book_evidence _ _ _ r.runs in
      (
        r,
        record {
          linked = r.linked;
          event_ids = rw same.events w.event_ids;
          conflict_ids = rw same.conflicts w.conflict_ids;
          job_ids = rw same.outbox w.job_ids;
          canonical = rw (same.events, same.canonical) w.canonical;
          conflicts = rw (same.events, same.conflicts) w.conflicts;
        },
      )

  accepted-IsWhole :
      (env : Env) (now : ℕ) (ev : AdapterEvent W) (db : Db W)
      → IsWhole db
      → validate_event ev ≡ none
      → ((process env now [] ev db).0 ≡ done) × IsWhole (process env now [] ev db).1
  accepted-IsWhole env now ev db w v =
      let (r, w') = Resolved-IsWhole env now ev db w in
      rw (process_accepted env now ev db r.db' r.book r.confidence v r.runs)
        (refl, settled-IsWhole now r.book r.confidence (normalize_event ev) r.db' w')

  unhindered-IsWhole :
      (env : Env) (now : ℕ) (ev : AdapterEvent W) (db : Db W)
      → IsWhole db
      → IsWhole (process env now [] ev db).1
  unfolding process
  unhindered-IsWhole env now ev db w = go (validate_event ev) refl
    where
      go : (v : Option Invalid) → validate_event ev ≡ v → IsWhole (process env now [] ev db).1
      go none v = (accepted-IsWhole env now ev db w v).1
      go (some x) v = rw (v, process) w

  process-IsWhole :
      (env : Env) (now : ℕ) (faults : List Bool) (ev : AdapterEvent W) (db : Db W)
      → IsWhole db
      → IsWhole (process env now faults ev db).1
  process-IsWhole env now faults ev db w = elim (process_atomic env now faults ev db) [
    | inl f ↦ rw f w
    | inr same ↦ rw same (unhindered-IsWhole env now ev db w)
  ]

  unfoldable pub arrived : Env → List (Arrival W) → Db W → Db W
  arrived env [] db = db
  arrived env (a ∷ as') db = arrived env as' (process env a.now a.faults a.event db).1

  empty-IsWhole : IsWhole {W = W} empty_db
  empty-IsWhole = record {
    linked = record { positive = tt; linked = tt };
    event_ids = omega arith;
    conflict_ids = omega arith;
    job_ids = omega arith;
    canonical = tt;
    conflicts = tt;
  }

  -- After any history of events from the empty tables, whatever statements were refused: no book
  -- has the id 0, every alias names a book, the ids of events, conflicts and jobs rise within their
  -- sequences, every canonical row has an event id that was given out, and every conflict has two
  -- such ids, the second above the first.
  pub arrived-IsWhole : (env : Env) (as' : List (Arrival W)) → IsWhole (arrived env as' empty_db)
  unfolding arrived
  arrived-IsWhole env as' = go as' empty_db empty-IsWhole
    where
      go : (as' : List (Arrival W)) (db : Db W) → IsWhole db → IsWhole (arrived env as' db)
      go [] db w = w
      go (a ∷ as') db w =
          go as' (process env a.now a.faults a.event db).1
            (process-IsWhole env a.now a.faults a.event db w)

  -- After any history of events from the empty tables, whatever statements were refused, a valid
  -- event for which no statement is refused is accepted: its book is found, or the row of a new one
  -- breaks no UNIQUE index, and no step fails.
  pub process-done :
      (env : Env) (as' : List (Arrival W)) (now : ℕ) (ev : AdapterEvent W)
      → validate_event ev ≡ none
      → (process env now [] ev (arrived env as' empty_db)).0 ≡ done
  process-done env as' now ev v =
      (accepted-IsWhole env now ev (arrived env as' empty_db) (arrived-IsWhole env as') v).0
