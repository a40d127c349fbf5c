-- ===== src/Core/Pipeline/Rules.antt =====
-- What an accepted event does to the canonical progress, the conflicts and the outbox.
use readsync.Base.{
  ℕ, ◌+◌, false, not, ◌&&◌, [], Option, none, some, ◌≡◌, inl, inr, arith, if◌then◌else◌, first,
  exists, leb, Bool-cases, ap, ◌∙◌,
}
use readsync.Base.Double.{Double}
use readsync.Model.{Source, CanonicalProgress, source_eq}
use readsync.Conflicts.{JumpReason, can_auto_resolve}
use readsync.Resolver.Bands.{band, writeback_enabled}
use readsync.Core.Event.{AdapterEvent, validate_event, normalize_event}
use readsync.Core.Db.{Db, put_event, put_conflict, of_book, put_canonical}
use readsync.Core.Resolve.{Env, resolve_book}
use readsync.Core.Pipeline.{
  event_id_of, is_pinned, updates_canonical, job_targets, all_targets, writeback_targets, done,
  process,
}
use readsync.Core.Pipeline.Effect.{settled, jump_in, with_conflict, with_jobs, conflict_id}
use readsync.Core.Pipeline.Refinement.{open_session, transaction_accepted}

-- An event of an adapter is passed on to every target but the adapter itself, and to no other.
pub writeback_targets_lem :
    (originator target : Source)
    → exists (source_eq target) (writeback_targets originator)
      ≡ (exists (source_eq target) all_targets && not (source_eq target originator))
unfolding writeback_targets
writeback_targets_lem originator target = ground arith

module _ {W : Type 0} ⦃d : Double W⦄ where
  -- No conflict is resolved by the pipeline itself.
  conflict_keeps :
      (ev : AdapterEvent W) (confidence : ℕ) (canon : Option (CanonicalProgress W)) (id : ℕ)
      → updates_canonical ev confidence canon (some id) ≡ false
  unfolding can_auto_resolve
  conflict_keeps ev confidence canon id = ground arith

  agreement_updates :
      (ev : AdapterEvent W) (confidence : ℕ) (canon : Option (CanonicalProgress W))
      → updates_canonical ev confidence canon none ≡ not (is_pinned canon)
  agreement_updates ev confidence canon = ground arith

  conflict_targets :
      (ev : AdapterEvent W) (confidence id : ℕ)
      → job_targets ev confidence (some id) ≡ writeback_targets ev.source
  conflict_targets ev confidence id = ground arith

  agreement_targets :
      (ev : AdapterEvent W) (confidence : ℕ)
      → job_targets ev confidence none
        ≡ (if leb 60 confidence then writeback_targets ev.source else [])
  unfolding writeback_enabled band
  agreement_targets ev confidence = ground arith

  pub settled_conflict :
      (now book confidence : ℕ) (ev : AdapterEvent W) (reason : JumpReason W) (db : Db W)
      → jump_in now book confidence ev db ≡ some reason
      → let event = db.events.seq + 1 in
        let canon = first (of_book book) db.canonical in
        settled now book confidence ev db
        ≡ with_jobs now book event (some (db.conflicts.seq + 1)) (writeback_targets ev.source) (
            put_conflict now book
              (event_id_of canon)
              event
              reason
              (put_event now book confidence ev db))
  unfolding settled
  settled_conflict now book confidence ev reason db e =
      let canon = first (of_book book) db.canonical in
      let keeps = conflict_keeps ev confidence canon (db.conflicts.seq + 1) in
      rw (
        e,
        conflict_id,
        with_conflict,
        keeps,
        conflict_targets ev confidence (db.conflicts.seq + 1),
      )

  pub settled_agreement :
      (now book confidence : ℕ) (ev : AdapterEvent W) (db : Db W)
      → jump_in now book confidence ev db ≡ none
      → let event = db.events.seq + 1 in
        let db' = put_event now book confidence ev db in
        settled now book confidence ev db
        ≡ with_jobs now book event none
            (if leb 60 confidence then writeback_targets ev.source else [])
            (if is_pinned (first (of_book book) db.canonical)
              then db'
              else put_canonical now book event ev db')
  unfolding settled
  settled_agreement now book confidence ev db e =
      let canon = first (of_book book) db.canonical in
      elim (Bool-cases (is_pinned canon)) [
        | inl p ↦ rw (e, conflict_id, with_conflict, p, agreement_targets ev confidence)
        | inr p ↦ rw (e, conflict_id, with_conflict, p, agreement_targets ev confidence)
      ]

  pub process_accepted :
      (env : Env) (now : ℕ) (ev : AdapterEvent W) (db db' : Db W) (book confidence : ℕ)
      → validate_event ev ≡ none
      → resolve_book env now ev.book_evidence (open_session db)
        ≡ some ((book, confidence), open_session db')
      → process env now [] ev db ≡ (done, settled now book confidence (normalize_event ev) db')
  unfolding process normalize_event
  process_accepted env now ev db db' book confidence v e =
      rw (v, transaction_accepted env now (normalize_event ev) db db' book confidence e, process)

  -- The tables behind an event that is in no conflict, by the statements that it leads to.
  pub agreement_result :
      (env : Env) (now : ℕ) (ev : AdapterEvent W) (db db' : Db W) (book confidence : ℕ)
      → validate_event ev ≡ none
      → resolve_book env now ev.book_evidence (open_session db)
        ≡ some ((book, confidence), open_session db')
      → jump_in now book confidence (normalize_event ev) db' ≡ none
      → let event = db'.events.seq + 1 in
        let stored = put_event now book confidence (normalize_event ev) db' in
        process env now [] ev db ≡ (
          done,
          with_jobs now book event none
              (if leb 60 confidence then writeback_targets ev.source else [])
              (if is_pinned (first (of_book book) db'.canonical)
                then stored
                else put_canonical now book event (normalize_event ev) stored),
        )
  unfolding normalize_event
  agreement_result env now ev db db' book confidence v e j =
      process_accepted env now ev db db' book confidence v e
      ∙ ap (λ x. (done, x)) (settled_agreement now book confidence (normalize_event ev) db' j)
