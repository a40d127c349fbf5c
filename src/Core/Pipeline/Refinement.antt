-- ===== src/Core/Pipeline/Refinement.antt =====
-- `process` refines its specification: the resolution of the book, then `settled`.
use readsync.Base.{ℕ, [], Option, none, some, ◌≡◌, refl}
use readsync.Base.Double.{Double}
use readsync.Core.Event.{AdapterEvent, Invalid, validate_event, normalize_event}
use readsync.Core.Db.{Db}
use readsync.Core.Tx.{Session, ◌>>=◌, exec}
use readsync.Core.Tx.Steady.{Steady, refused, passed}
use readsync.Core.Resolve.{Env, resolve_book}
use readsync.Core.Resolve.Steady.{resolve_book-IsSteady}
use readsync.Core.Pipeline.{Outcome, done, invalid, failed, begin, commit, transaction, process}
use readsync.Core.Pipeline.Effect.{settled, apply_lem}

module _ {W : Type 0} ⦃d : Double W⦄ where
  abbrev pub open_session : Db W → Session W
  open_session db = record { db = db; faults = [] }

  -- The specification, by the answer to the adapter.
  pub data Effect (env : Env) (now : ℕ) (ev : AdapterEvent W) (db : Db W)
      : Outcome × Db W → Type 0 where
    rejected : (x : Invalid) → validate_event ev ≡ some x → Effect env now ev db (invalid x, db)
    unresolved :
        validate_event ev ≡ none
        → resolve_book env now ev.book_evidence (open_session db) ≡ none
        → Effect env now ev db (failed, db)
    accepted :
        (book confidence : ℕ) (db' : Db W)
        → validate_event ev ≡ none
        → resolve_book env now ev.book_evidence (open_session db)
          ≡ some ((book, confidence), open_session db')
        → Effect env now ev db (done, settled now book confidence (normalize_event ev) db')

  pub transaction_accepted :
      (env : Env) (now : ℕ) (ev : AdapterEvent W) (db db' : Db W) (book confidence : ℕ)
      → resolve_book env now ev.book_evidence (open_session db)
        ≡ some ((book, confidence), open_session db')
      → transaction env now ev (open_session db)
        ≡ some (tt, open_session (settled now book confidence ev db'))
  unfolding transaction begin commit exec
  transaction_accepted env now ev db db' book confidence e =
      rw (e, ◌>>=◌, apply_lem now book confidence ev db')

  transaction_unresolved :
      (env : Env) (now : ℕ) (ev : AdapterEvent W) (db : Db W)
      → resolve_book env now ev.book_evidence (open_session db) ≡ none
      → transaction env now ev (open_session db) ≡ none
  unfolding transaction begin commit exec
  transaction_unresolved env now ev db e = rw (e, ◌>>=◌)

  -- With no statement refused, `process` does what the specification says: an invalid event and one
  -- whose book cannot be resolved change nothing and are answered so, and any other is answered by
  -- success and leaves the tables that `settled` describes.
  pub process-Effect :
      (env : Env) (now : ℕ) (ev : AdapterEvent W) (db : Db W)
      → Effect env now ev db (process env now [] ev db)
  unfolding process normalize_event
  process-Effect env now ev db = go (validate_event ev) refl
    where
      resolved :
          validate_event ev ≡ none
          → Steady (resolve_book env now ev.book_evidence) db []
          → Effect env now ev db (process env now [] ev db)
      resolved v (refused e) =
          rw (v, transaction_unresolved env now (normalize_event ev) db e, process) (unresolved v e)
      resolved v (passed (book, confidence) db' rest _ e) =
          rw
            (v, transaction_accepted env now (normalize_event ev) db db' book confidence e, process)
            (accepted book confidence db' v e)

      go :
          (v : Option Invalid)
          → validate_event ev ≡ v
          → Effect env now ev db (process env now [] ev db)
      go (some x) v = rw (v, process) (rejected x v)
      go none v = resolved v (resolve_book-IsSteady env now ev.book_evidence db [])
