-- ===== src/Outbox/Worker.antt =====
-- The states and attempts of jobs over a round of a worker and a new job.
use readsync.Base.{
  is_some, ℕ, ◌+◌, ◌≤◌, ◌<◌, Bool, true, false, List, ◌∷◌, ◌++◌, Text, ◌≡◌, sym, subst, inl, inr,
  arith, All, All-at, All-replace, All-append, first, Bool-cases, Option-cases,
}
use readsync.Base.Table.{Table}
use readsync.Base.Table.Rows.{Rising, Found, first-Found, first-none, Rising-replace, Rising-append}
use readsync.Model.{Source, OutboxJob, OutboxStatus}
use readsync.Outbox.{max_attempts, is_eligible, Round, process_one, enqueue, HasIds}
use readsync.Outbox.Store.{id_of, outcome, process_one-first, process_one-idle, process_one-seq}

abbrev pub is_live : OutboxStatus → Bool
is_live OutboxStatus.queued = true
is_live OutboxStatus.running = true
is_live OutboxStatus.retrying = true
is_live _ = false

-- A job that can still be worked on has an attempt left, unless no conflict blocks it any more: then one
-- more than all may have been used, since the resolution of a conflict keeps the attempts.
pub record IsBounded (job : OutboxJob) : Type 0 where
  pub live : is_live job.status ≡ true → job.attempts ≤ max_attempts
  pub blocked :
      is_some job.blocking_conflict_id ≡ true
      → (job.attempts ≤ max_attempts) × (is_live job.status ≡ true → job.attempts < max_attempts)
  pub dead : job.status ≡ OutboxStatus.dead_letter → max_attempts ≤ job.attempts
  pub bounded : job.attempts ≤ max_attempts + 1

outcome-IsBounded :
    (r : Round) (target : Source) (job : OutboxJob)
    → is_eligible r.now target job ≡ true
    → IsBounded job
    → IsBounded (outcome r job)
unfolding is_eligible
outcome-IsBounded r target job e b = ground arith

-- The table as the rounds keep it.
pub record IsSound (t : Table OutboxJob) : Type 0 where
  pub ids : HasIds t
  pub jobs : All IsBounded t.rows

pub outcome-id : (r : Round) (job : OutboxJob) → id_of (outcome r job) ≡ id_of job
outcome-id r job = ground arith

IsSound-idle :
    (r : Round) (target : Source) (t : Table OutboxJob)
    → IsSound t
    → process_one r target t ≡ t
    → IsSound (process_one r target t)
IsSound-idle r target t s e = subst IsSound (sym e) s

IsSound-first :
    (r : Round) (target : Source) (t : Table OutboxJob) (job : OutboxJob)
    → IsSound t
    → r.claim_fault ≡ false
    → Found (is_eligible r.now target) t.rows job
    → IsSound (process_one r target t)
IsSound-first r target t job s ready f =
    let after = process_one-first r target t job s.ids f ready in
    let risen : Rising id_of 0 t.seq (f.before ++ job ∷ f.after) = rw f.rows at s.ids in
    let kept : All IsBounded (f.before ++ job ∷ f.after) = rw f.rows at s.jobs in
    let settled =
      outcome-IsBounded r target job f.hit (All-at IsBounded f.before f.after job kept) in
    record {
      ids =
          rw (after, process_one-seq r target t)
            (Rising-replace id_of 0 t.seq f.before f.after job (outcome r job) (outcome-id r job)
              risen);
      jobs = rw after (All-replace IsBounded f.before f.after job (outcome r job) settled kept);
    }

pub process_one-IsSound :
    (r : Round) (target : Source) (t : Table OutboxJob)
    → IsSound t
    → IsSound (process_one r target t)
process_one-IsSound r target t s = elim (Bool-cases r.claim_fault) [
  | inl bad ↦ IsSound-idle r target t s (process_one-idle r target t (inr bad))
  | inr ready ↦ elim (Option-cases (first (is_eligible r.now target) t.rows)) [
    | inl quiet ↦
        IsSound-idle r target t s
          (process_one-idle r target t (inl (first-none (is_eligible r.now target) t.rows quiet)))
    | inr (job, e) ↦
        IsSound-first r target t job s ready (first-Found (is_eligible r.now target) t.rows job e)
  ]
]

pub enqueue-IsSound :
    (fault : Bool) (now book : ℕ) (target : Source) (payload : List (Text × ℕ))
    (t : Table OutboxJob)
    → IsSound t
    → IsSound (enqueue fault now book target payload t)
unfolding enqueue
enqueue-IsSound true now book target payload t s = s
enqueue-IsSound false now book target payload t s = record {
  ids = Rising-append id_of 0 t.seq (t.seq + 1) t.rows _ s.ids (omega arith) (omega arith);
  jobs = All-append IsBounded t.rows _ s.jobs (ground arith, tt);
}
