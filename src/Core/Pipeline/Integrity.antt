-- ===== src/Core/Pipeline/Integrity.antt =====
-- The tables as every event leaves them.
pub mod History
use readsync.Base.{
  ℕ, ◌+◌, ◌≤◌, ◌<◌, Bool, true, false, List, [], ◌∷◌, ◌++◌, Option, none, some, ◌≡◌, refl, ◌⊎◌, inl,
  inr, arith, ap, sym, subst, if◌then◌else◌, first, leb, All, All-append, All-map, Bool-cases,
  Option-cases, ◌==◌,
}
use readsync.Base.Double.{Double}
use readsync.Base.Table.{Table}
use readsync.Base.Table.Rows.{Rising, Rising-append}
use readsync.Model.{Source, ProgressEvent, CanonicalProgress, Conflict, OutboxJob}
use readsync.Conflicts.{JumpReason}
use readsync.Core.Event.{AdapterEvent, Invalid, validate_event, normalize_event}
use readsync.Core.Db.{
  Db, empty_db, event_row, put_event, put_conflict, of_book, upsert, put_canonical, put_job,
  job_row,
}
use readsync.Core.Resolve.{Env, resolve_book}
use readsync.Core.Resolve.Frame.{SameProgress, resolve_book-Keeps}
use readsync.Core.Resolve.Lookup.{IsLinked}
use readsync.Core.Resolve.Fresh.{Resolved, resolve_book-Resolved}
use readsync.Core.Pipeline.{
  jump_of, event_id_of, is_pinned, writeback_targets, Outcome, done, invalid, failed, process,
}
use readsync.Core.Pipeline.Effect.{settled, jump_in, with_jobs, process_atomic}
use readsync.Core.Pipeline.Refinement.{Effect, rejected, unresolved, accepted, process-Effect}
use readsync.Core.Pipeline.Rules.{settled_conflict, settled_agreement, process_accepted}

module _ {W : Type 0} where
  abbrev pub Names : ℕ → CanonicalProgress W → Type 0
  Names seq c = (0 < c.event_id) × (c.event_id ≤ seq)

  abbrev pub Follows : ℕ → Conflict (JumpReason W) → Type 0
  Follows seq c = (0 < c.event_a_id) × (c.event_a_id < c.event_b_id) × (c.event_b_id ≤ seq)

  -- The ids of each table rise, a canonical row names a stored event, a conflict names two, the new
  -- one behind the canonical one.
  pub record IsWhole (db : Db W) : Type 0 where
    pub linked : IsLinked db
    pub event_ids : Rising (λ (e : ProgressEvent W). e.id) 0 db.events.seq db.events.rows
    pub conflict_ids :
        Rising (λ (c : Conflict (JumpReason W)). c.id) 0 db.conflicts.seq db.conflicts.rows
    pub job_ids : Rising (λ (j : OutboxJob). j.id) 0 db.outbox.seq db.outbox.rows
    pub canonical : All (Names db.events.seq) db.canonical
    pub conflicts : All (Follows db.events.seq) db.conflicts.rows

  first-All :
      (P : CanonicalProgress W → Type 0) (p : CanonicalProgress W → Bool)
      (cs : List (CanonicalProgress W)) (c : CanonicalProgress W)
      → All P cs
      → first p cs ≡ some c
      → P c
  first-All P p [] c h e = cc
  first-All P p (x ∷ cs) c h e = elim (Bool-cases (p x)) [
    | inl k ↦ let same : x ≡ c = ground arith in subst P same h.0
    | inr k ↦ first-All P p cs c h.1 (ground arith)
  ]

module _ {W : Type 0} ⦃d : Double W⦄ where
  with_jobs-IsWhole :
      (now book event : ℕ) (conflict : Option ℕ) (targets : List Source) (db : Db W)
      → IsWhole db
      → IsWhole (with_jobs now book event conflict targets db)
  with_jobs-IsWhole now book event conflict [] db w = w
  with_jobs-IsWhole now book event conflict (target ∷ targets) db w =
      with_jobs-IsWhole now book event conflict targets (put_job now book event conflict target db)
        (record {
          linked = record { positive = w.linked.positive; linked = w.linked.linked };
          event_ids = w.event_ids;
          conflict_ids = w.conflict_ids;
          job_ids =
              Rising-append _ 0 db.outbox.seq _ db.outbox.rows _ w.job_ids (omega arith)
                (omega arith);
          canonical = w.canonical;
          conflicts = w.conflicts;
        })

  put_event-IsWhole :
      (now book confidence : ℕ) (ev : AdapterEvent W) (db : Db W)
      → IsWhole db
      → IsWhole (put_event now book confidence ev db)
  put_event-IsWhole now book confidence ev db w = record {
    linked = record { positive = w.linked.positive; linked = w.linked.linked };
    event_ids =
        Rising-append _ 0 db.events.seq _ db.events.rows _ w.event_ids (omega arith) (omega arith);
    conflict_ids = w.conflict_ids;
    job_ids = w.job_ids;
    canonical =
        All-map (Names db.events.seq) _ (λ c h. (h.0, omega (arith, h.1))) db.canonical w.canonical;
    conflicts =
        All-map (Follows db.events.seq) _ (λ c h. (h.0, h.1, omega (arith, h.2))) db.conflicts.rows
          w.conflicts;
  }

  put_conflict-IsWhole :
      (now book a b : ℕ) (reason : JumpReason W) (db : Db W)
      → 0 < a
      → a < b
      → b ≤ db.events.seq
      → IsWhole db
      → IsWhole (put_conflict now book a b reason db)
  put_conflict-IsWhole now book a b reason db p q r w = record {
    linked = record { positive = w.linked.positive; linked = w.linked.linked };
    event_ids = w.event_ids;
    conflict_ids =
        Rising-append _ 0 db.conflicts.seq _ db.conflicts.rows _ w.conflict_ids (omega arith)
          (omega arith);
    job_ids = w.job_ids;
    canonical = w.canonical;
    conflicts = All-append _ db.conflicts.rows _ w.conflicts ((p, q, r), tt);
  }

  upsert-Names :
      (now book event seq : ℕ) (ev : AdapterEvent W) (cs : List (CanonicalProgress W))
      → 0 < event
      → event ≤ seq
      → All (Names seq) cs
      → All (Names seq) (upsert now book event ev cs)
  upsert-Names now book event seq ev [] p q h = ((p, q), tt)
  upsert-Names now book event seq ev (c ∷ cs) p q h = elim (Bool-cases (c.book_id == book)) [
    | inl e ↦ rw e ((p, q), h.1)
    | inr e ↦ rw e (h.0, upsert-Names now book event seq ev cs p q h.1)
  ]

  put_canonical-IsWhole :
      (now book event : ℕ) (ev : AdapterEvent W) (db : Db W)
      → 0 < event
      → event ≤ db.events.seq
      → IsWhole db
      → IsWhole (put_canonical now book event ev db)
  put_canonical-IsWhole now book event ev db p q w = record {
    linked = record { positive = w.linked.positive; linked = w.linked.linked };
    event_ids = w.event_ids;
    conflict_ids = w.conflict_ids;
    job_ids = w.job_ids;
    canonical = upsert-Names now book event db.events.seq ev db.canonical p q w.canonical;
    conflicts = w.conflicts;
  }

  if-IsWhole : (b : Bool) (x y : Db W) → IsWhole x → IsWhole y → IsWhole (if b then x else y)
  if-IsWhole true x y h k = h
  if-IsWhole false x y h k = k

  -- Only a book with a canonical row can be in conflict.
  jump-canonical :
      (now book confidence : ℕ) (ev : AdapterEvent W) (db : Db W) (reason : JumpReason W)
      → jump_in now book confidence ev db ≡ some reason
      → (c : CanonicalProgress W) × (first (of_book book) db.canonical ≡ some c)
  unfolding jump_in
  jump-canonical now book confidence ev db reason e =
      elim (Option-cases (first (of_book book) db.canonical)) [
        | inl n ↦
            let row = event_row now book confidence ev (db.events.seq + 1) in
            let quiet : jump_of (first (of_book book) db.canonical) row ≡ none = rw (n, jump_of) in
            cc
        | inr f ↦ f
      ]

  pub settled-IsWhole :
      (now book confidence : ℕ) (ev : AdapterEvent W) (db : Db W)
      → IsWhole db
      → IsWhole (settled now book confidence ev db)
  settled-IsWhole now book confidence ev db w = go (jump_in now book confidence ev db) refl
    where
      stored : IsWhole (put_event now book confidence ev db)
      stored = put_event-IsWhole now book confidence ev db w

      go :
          (j : Option (JumpReason W))
          → jump_in now book confidence ev db ≡ j
          → IsWhole (settled now book confidence ev db)
      go none j = rw (settled_agreement now book confidence ev db j) (
          with_jobs-IsWhole now book (db.events.seq + 1) none
            (if leb 60 confidence then writeback_targets ev.source else []) _
            (if-IsWhole (is_pinned (first (of_book book) db.canonical))
              (put_event now book confidence ev db) _ stored
              (put_canonical-IsWhole now book (db.events.seq + 1) ev
                (put_event now book confidence ev db) (omega arith) (omega arith) stored)))
      go (some reason) j =
          let (c, found) = jump-canonical now book confidence ev db reason j in
          let named =
            first-All (Names db.events.seq) (of_book book) db.canonical c w.canonical found in
          rw (settled_conflict now book confidence ev reason db j, found, event_id_of)
            (with_jobs-IsWhole now book (db.events.seq + 1) (some (db.conflicts.seq + 1))
              (writeback_targets ev.source)
              (put_conflict now book c.event_id (db.events.seq + 1) reason
                (put_event now book confidence ev db))
              (put_conflict-IsWhole now book c.event_id (db.events.seq + 1) reason
                (put_event now book confidence ev db) named.0 (omega (arith, named.1)) (omega arith)
                stored))
