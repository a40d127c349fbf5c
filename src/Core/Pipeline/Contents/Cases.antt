-- ===== src/Core/Pipeline/Contents/Cases.antt =====
-- internal/core/pipeline.go: `process`, by the cases of its specification.
use readsync.Base.{
  ℕ, ◌+◌, [], none, some, ◌≡◌, refl, sym, ◌∙◌, ap, subst, ◌⊎◌, first, Bool-cases, Option-cases, inl,
  inr,
}
use mathlib.Core.Bool.{true≢false}
use mathlib.Core.Option.{some-injective}
use readsync.Base.Double.{Double}
use readsync.Model.{CanonicalProgress}
use readsync.Conflicts.{JumpReason, detect_suspicious_jump}
use readsync.Core.Event.{AdapterEvent, Invalid, validate_event, normalize_event}
use readsync.Core.Db.{Db, of_book}
use readsync.Core.Resolve.{Env, resolve_book}
use readsync.Core.Resolve.Frame.{SameProgress, resolve_book-Keeps}
use readsync.Core.Pipeline.{Outcome, done, failed, invalid, process}
use readsync.Core.Pipeline.Refinement.{
  open_session, Effect, rejected, unresolved, accepted, process-Effect,
}
use readsync.Core.Pipeline.Rules.{process_accepted}
use readsync.Core.Pipeline.Contents.{new_event, InConflict, InAgreement, IsJump, NoJump}
use readsync.Core.Pipeline.Contents.Steps.{settled-InConflict, settled-InAgreement}

module _ {W : Type 0} ⦃d : Double W⦄ where
  -- With no statement refused, a valid event that is a suspicious jump against its book's unpinned canonical
  -- progress is answered by success. The tables are those that the resolution of the book leaves, and
  -- behind their rows: the event; one open conflict of the book, between the event of the canonical row
  -- and the new one; and for each of the four targets but the source of the event a job with no attempt used
  -- that this conflict blocks. The canonical progress of every book stays.
  pub process_conflict :
      (env : Env) (now : ℕ) (ev : AdapterEvent W) (db db' : Db W) (book confidence : ℕ)
      (canon : CanonicalProgress W) (reason : JumpReason W)
      → validate_event ev ≡ none
      → resolve_book env now ev.book_evidence (open_session db)
        ≡ some ((book, confidence), open_session db')
      → IsJump now book confidence (normalize_event ev) canon reason db'
      → ((process env now [] ev db).0 ≡ done)
        × InConflict now book confidence
            (normalize_event ev)
            canon
            reason
            db'
            (process env now [] ev db).1
  process_conflict env now ev db db' book confidence canon reason v e h =
      rw (process_accepted env now ev db db' book confidence v e)
        (refl, settled-InConflict now book confidence (normalize_event ev) canon reason db' h)

  -- With no statement refused, a valid event that is no suspicious jump against an unpinned canonical progress
  -- of its book is answered by success. The tables are those that the resolution of the book leaves, and
  -- behind their rows the event and, from a confidence of 60 on, for each of the four targets but the source
  -- of the event a queued job that no conflict blocks and with no attempt used. No conflict is recorded.
  -- Where the canonical progress of the book is pinned, no row of canonical progress changes; where it is
  -- not or there is none, the row of the book holds the event, and the row of every other book stays.
  pub process_agreement :
      (env : Env) (now : ℕ) (ev : AdapterEvent W) (db db' : Db W) (book confidence : ℕ)
      → validate_event ev ≡ none
      → resolve_book env now ev.book_evidence (open_session db)
        ≡ some ((book, confidence), open_session db')
      → NoJump now book confidence (normalize_event ev) db'
      → ((process env now [] ev db).0 ≡ done)
        × InAgreement now book confidence (normalize_event ev) db' (process env now [] ev db).1
  process_agreement env now ev db db' book confidence v e h =
      rw (process_accepted env now ev db db' book confidence v e)
        (refl, settled-InAgreement now book confidence (normalize_event ev) db' h)

  -- The specification of an event, by the answer to the adapter and the tables.
  pub data Result (env : Env) (now : ℕ) (ev : AdapterEvent W) (db : Db W)
      : Outcome × Db W → Type 0 where
    rejecting : (x : Invalid) → validate_event ev ≡ some x → Result env now ev db (invalid x, db)
    unresolving :
        validate_event ev ≡ none
        → resolve_book env now ev.book_evidence (open_session db) ≡ none
        → Result env now ev db (failed, db)
    conflicting :
        (book confidence : ℕ) (canon : CanonicalProgress W) (reason : JumpReason W)
        (db' db'' : Db W)
        → validate_event ev ≡ none
        → resolve_book env now ev.book_evidence (open_session db)
          ≡ some ((book, confidence), open_session db')
        → SameProgress db db'
        → IsJump now book confidence (normalize_event ev) canon reason db
        → InConflict now book confidence (normalize_event ev) canon reason db' db''
        → Result env now ev db (done, db'')
    agreeing :
        (book confidence : ℕ) (db' db'' : Db W)
        → validate_event ev ≡ none
        → resolve_book env now ev.book_evidence (open_session db)
          ≡ some ((book, confidence), open_session db')
        → SameProgress db db'
        → NoJump now book confidence (normalize_event ev) db
        → InAgreement now book confidence (normalize_event ev) db' db''
        → Result env now ev db (done, db'')

  missing : (c : CanonicalProgress W) → none ≡ some c → ⊥
  missing c e = cc

  -- The canonical row of the book and the jump that the event is against it, or that it is none.
  find-IsJump :
      (now book confidence : ℕ) (ev : AdapterEvent W) (db : Db W)
      → ((canon : CanonicalProgress W) × (reason : JumpReason W) × IsJump now book confidence ev
            canon reason db)
        ⊎ NoJump now book confidence ev db
  find-IsJump now book confidence ev db = elim (Option-cases (first (of_book book) db.canonical)) [
    | inl e ↦ inr (λ c e' q. absurd (missing c (sym e ∙ e')))
    | inr (c, e) ↦ elim (Bool-cases c.user_pinned) [
      | inl p ↦ inr (λ c' e' q.
          absurd
            (true≢false (sym p ∙ ap (λ r. r.user_pinned) (some-injective c c' (sym e ∙ e')) ∙ q)))
      | inr p ↦
          elim (Option-cases (
            detect_suspicious_jump (some c)
              (new_event now book confidence ev (db.events.seq + 1)))) [
                | inl quiet ↦ inr (λ c' e' q.
                    subst
                      (λ r.
                        detect_suspicious_jump (some r)
                          (new_event now book confidence ev (db.events.seq + 1))
                        ≡ none)
                      (some-injective c c' (sym e ∙ e')) quiet)
                | inr (reason, j) ↦ inl (c, reason, record { row = e; unpinned = p; jump = j })
              ]
    ]
  ]

  IsJump-at :
      (now book confidence : ℕ) (ev : AdapterEvent W) (canon : CanonicalProgress W)
      (reason : JumpReason W) (db db' : Db W)
      → SameProgress db db'
      → IsJump now book confidence ev canon reason db
      → IsJump now book confidence ev canon reason db'
  IsJump-at now book confidence ev canon reason db db' same h = record {
    row = rw same.canonical h.row;
    unpinned = h.unpinned;
    jump = rw same.events h.jump;
  }

  NoJump-at :
      (now book confidence : ℕ) (ev : AdapterEvent W) (db db' : Db W)
      → SameProgress db db'
      → NoJump now book confidence ev db
      → NoJump now book confidence ev db'
  NoJump-at now book confidence ev db db' same h canon e p =
      rw same.events (h canon (sym (ap (first (of_book book)) same.canonical) ∙ e) p)

  -- `process` with no statement refused, against the specification: an invalid event and one whose book
  -- cannot be resolved are answered so and change nothing; any other is answered by success, after the
  -- resolution of its book, which leaves the events, conflicts, jobs and canonical progress alone. If it is
  -- a suspicious jump against the unpinned canonical row of its book, it adds itself, an open conflict
  -- and the jobs that this blocks; if not, it adds itself and, from a confidence of 60 on, queued jobs,
  -- and replaces the canonical row of its book unless that is pinned.
  pub process-Result :
      (env : Env) (now : ℕ) (ev : AdapterEvent W) (db : Db W)
      → Result env now ev db (process env now [] ev db)
  process-Result env now ev db = go _ (process-Effect env now ev db)
    where
      go : (r : Outcome × Db W) → Effect env now ev db r → Result env now ev db r
      go _ (rejected x v) = rejecting x v
      go _ (unresolved v e) = unresolving v e
      go _ (accepted book confidence db' v e) =
          let same = resolve_book-Keeps env now ev.book_evidence _ _ _ e in
          let ev' = normalize_event ev in
          elim (find-IsJump now book confidence ev' db) [
            | inl (canon, reason, h) ↦ conflicting book confidence canon reason db' _ v e same h (
                settled-InConflict now book confidence ev' canon reason db'
                  (IsJump-at now book confidence ev' canon reason db db' same h))
            | inr h ↦ agreeing book confidence db' _ v e same h (
                settled-InAgreement now book confidence ev' db'
                  (NoJump-at now book confidence ev' db db' same h))
          ]
