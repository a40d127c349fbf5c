-- ===== src/Koreader/Refusal.antt =====
-- internal/adapters/koreader/handlers.go and `Submit` of internal/core/pipeline.go: how a push ends.
use readsync.Base.{
  ℕ, ◌/◌, Bool, true, false, List, Option, none, some, ◌≡◌, ◌≢◌, sym, ◌∙◌, refl, ◌⊎◌, inl, inr, ap,
  not, ◌||◌, if◌then◌else◌,
}
use readsync.Base.Double.{Double}
use readsync.Base.Stamp.{second}
use readsync.Core.Event.{AdapterEvent}
use readsync.Core.Db.{Db}
use readsync.Core.Resolve.{Env}
use readsync.Core.Pipeline.{Outcome, done, failed, invalid, process}
use readsync.Core.Pipeline.Effect.{process_atomic}
use readsync.Core.Pipeline.Refinement.{Effect, rejected, unresolved, accepted, process-Effect}
use readsync.Koreader.{
  PushRequest, Answer, pushed, Server, is_sha256_hex, to_adapter_event, canonical_by_doc_hash,
  newer_canonical, Wait, answered, not_taken, not_awaited, internal_error, answer_push, submit_push,
  handle_push,
}

refused_done : failed ≡ done → ⊥
refused_done e = cc

module _ {W : Type 0} ⦃d : Double W⦄ (env : Env) (now : ℕ) where
  Effect-kept :
      (ev : AdapterEvent W) (db : Db W) (r : Outcome × Db W)
      → Effect env now ev db r
      → (r.0 ≡ done) ⊎ ((r.0 ≢ done) × (r.1 ≡ db))
  Effect-kept ev db _ (rejected x v) = inr ((λ e. cc), refl)
  Effect-kept ev db _ (unresolved v e) = inr ((λ e. cc), refl)
  Effect-kept ev db _ (accepted book confidence db' v e) = inl refl

  process_kept :
      (faults : List Bool) (ev : AdapterEvent W) (db : Db W)
      → ((process env now faults ev db).0 ≡ done)
        ⊎ (((process env now faults ev db).0 ≢ done) × ((process env now faults ev db).1 ≡ db))
  process_kept faults ev db = elim (process_atomic env now faults ev db) [
    | inl f ↦ inr ((λ e. refused_done (sym (ap (λ r. r.0) f) ∙ e)), ap (λ r. r.1) f)
    | inr same ↦ rw same (Effect-kept ev db _ (process-Effect env now ev db))
  ]

  module _ (user : ℕ) (req : PushRequest W) (s : Server W) (faults : List Bool) where
    -- What the writer makes of the event of the push.
    abbrev pub processed : Outcome × Db W
    processed = process env now faults (to_adapter_event req) s.db

    -- How a push ends, by the answer and the tables of the pipeline.
    pub data Ending (wait : Wait) (r : Answer W × Server W) : Type 0 where
      recorded :
          wait ≡ answered
          → r.0 ≡ pushed req.document (now / second)
          → processed ≡ (done, r.1.db)
          → Ending wait r
      unchanged : r.0 ≢ pushed req.document (now / second) → r.1.db ≡ s.db → Ending wait r
      late : wait ≡ not_awaited → r.0 ≡ internal_error → processed ≡ (done, r.1.db) → Ending wait r

    other_answer :
        (o : Outcome) → o ≢ done → answer_push now req (some o) ≢ pushed req.document (now / second)
    other_answer done h e = h refl
    other_answer failed h e = cc
    other_answer (invalid x) h e = cc

    submitted-Ending :
        (device_fault : Bool) (wait : Wait)
        → (processed.0 ≡ done) ⊎ ((processed.0 ≢ done) × (processed.1 ≡ s.db))
        → Ending wait (submit_push env now user device_fault faults wait req none s)
    unfolding submit_push
    submitted-Ending device_fault not_taken k = unchanged (λ e. cc) refl
    submitted-Ending device_fault not_awaited (inl ok) =
        late refl refl (ap (λ o. (o, processed.1)) ok)
    submitted-Ending device_fault not_awaited (inr (bad, same)) = unchanged (λ e. cc) same
    submitted-Ending device_fault answered (inl ok) =
        recorded refl (ap (λ o. answer_push now req (some o)) ok) (ap (λ o. (o, processed.1)) ok)
    submitted-Ending device_fault answered (inr (bad, same)) =
        unchanged (other_answer processed.0 bad) same

    submit_push-Ending :
        (device_fault : Bool) (wait : Wait) (newest : Option ℕ)
        → Ending wait (submit_push env now user device_fault faults wait req newest s)
    unfolding submit_push
    submit_push-Ending device_fault wait (some stamp) = unchanged (λ e. cc) refl
    submit_push-Ending device_fault wait none =
        submitted-Ending device_fault wait (process_kept faults (to_adapter_event req) s.db)

    if-Ending :
        (wait : Wait) (b : Bool) (x y : Answer W × Server W)
        → Ending wait x
        → Ending wait y
        → Ending wait (if b then x else y)
    if-Ending wait true x y h k = h
    if-Ending wait false x y h k = k

    -- Whatever the request, whichever statements are refused and whenever its context ends, a push ends in one
    -- of three ways. It is answered by success, and then the writer accepted the event and the tables are
    -- those that it left. Or it is not, and the tables are what they were. Or its context ended while the
    -- writer had the event: it is answered by an error, and the event is recorded all the same.
    pub handle_push-Ending :
        (load_fault device_fault : Bool) (wait : Wait)
        → Ending wait (handle_push env now user load_fault device_fault faults wait req s)
    unfolding handle_push
    handle_push-Ending load_fault device_fault wait =
        if-Ending wait (not (is_sha256_hex req.document)) _ _ (unchanged (λ e. cc) refl) (
          if-Ending wait (d.lt req.percentage (d.lit 0 0) || d.lt (d.lit 101 2) req.percentage) _ _
            (unchanged (λ e. cc) refl)
            (submit_push-Ending device_fault wait (
              if load_fault
              then none
              else newer_canonical now req (canonical_by_doc_hash req.document s.db))))
