-- ===== src/Outbox/Exhaustion.antt =====
-- How often the jobs of a table are executed before nothing is left to do.
use readsync.Base.{
  ltb, sym, subst, ℕ, suc, ◌+◌, ◌-◌, ◌*◌, ◌≤◌, Bool, true, false, List, [], ◌∷◌, ◌++◌, none, ◌≡◌,
  refl, ap, inl, inr, arith, first, Bool-cases, Option-cases, is_some, if◌then◌else◌, length,
}
use readsync.Base.Table.{Table}
use readsync.Base.Table.Rows.{Rising, Rising-replace, first-Found, first-none}
use readsync.Model.{Source, OutboxJob, OutboxStatus}
use readsync.Outbox.{HasIds, max_attempts, is_eligible, Round, claim_job, take, process_one}
use readsync.Outbox.Store.{id_of, process_one-seq, outcome, process_one-first, process_one-idle}
use readsync.Outbox.Worker.{outcome-id}

abbrev is_waiting : OutboxStatus → Bool
is_waiting OutboxStatus.queued = true
is_waiting OutboxStatus.retrying = true
is_waiting _ = false

-- The executions that a job, and a table, may still have: a job that waits with all its attempts used, as
-- the resolution of a conflict leaves it, is executed once more.
abbrev pub remaining : OutboxJob → ℕ
remaining job =
    if is_waiting job.status
    then if ltb job.attempts max_attempts then max_attempts - job.attempts else 1
    else 0

abbrev pub work : List OutboxJob → ℕ
work [] = 0
work (job ∷ jobs) = remaining job + work jobs

work-append : (xs ys : List OutboxJob) → work (xs ++ ys) ≡ work xs + work ys
work-append [] ys = omega arith
work-append (x ∷ xs) ys = omega (arith, work-append xs ys)

outcome-remaining :
    (r : Round) (target : Source) (job : OutboxJob)
    → is_eligible r.now target job ≡ true
    → suc (remaining (outcome r job)) ≤ remaining job
unfolding is_eligible
outcome-remaining r target job e = ground arith

remaining_le : (job : OutboxJob) → remaining job ≤ max_attempts
remaining_le job = ground arith

pub work_le : (jobs : List OutboxJob) → work jobs ≤ max_attempts * length jobs
work_le [] = omega arith
work_le (job ∷ jobs) = omega (arith, work_le jobs, remaining_le job)

-- Whether a round claims a job, which it then executes.
abbrev pub claims : Round → Source → Table OutboxJob → ℕ
claims r target t = if is_some (claim_job r.claim_fault r.now target t).0 then 1 else 0

-- A round is what a worker does for its target.
pub executions : List (Round × Source) → Table OutboxJob → ℕ
executions [] t = 0
executions ((r, target) ∷ rs) t = claims r target t + executions rs (process_one r target t)

pub after_rounds : List (Round × Source) → Table OutboxJob → Table OutboxJob
after_rounds [] t = t
after_rounds ((r, target) ∷ rs) t = after_rounds rs (process_one r target t)

claims-idle :
    (r : Round) (target : Source) (t : Table OutboxJob)
    → first (is_eligible r.now target) t.rows ≡ none
    → claims r target t ≡ 0
unfolding claim_job take
claims-idle r target t e = go r.claim_fault
  where
    go : (b : Bool) → ◌≡◌ {A = ℕ} (if is_some (claim_job b r.now target t).0 then 1 else 0) 0
    go true = refl
    go false = ap (λ o. if is_some (take r.now t o).0 then 1 else 0) e

claims-fault :
    (r : Round) (target : Source) (t : Table OutboxJob)
    → r.claim_fault ≡ true
    → claims r target t ≡ 0
unfolding claim_job
claims-fault r target t e = ap (λ b. if is_some (claim_job b r.now target t).0 then 1 else 0) e

claims_le : (r : Round) (target : Source) (t : Table OutboxJob) → claims r target t ≤ 1
claims_le r target t = ground arith

round-work :
    (r : Round) (target : Source) (t : Table OutboxJob)
    → HasIds t
    → claims r target t + work (process_one r target t).rows ≤ work t.rows
round-work r target t s = elim (Bool-cases r.claim_fault) [
  | inl bad ↦
      let idle = process_one-idle r target t (inr bad) in
      omega (arith, claims-fault r target t bad, ap (λ x. work x.rows) idle)
  | inr ready ↦ elim (Option-cases (first (is_eligible r.now target) t.rows)) [
    | inl quiet ↦
        let idle =
          process_one-idle r target t (inl (first-none (is_eligible r.now target) t.rows quiet)) in
        omega (arith, claims-idle r target t quiet, ap (λ x. work x.rows) idle)
    | inr (job, e) ↦
        let f = first-Found (is_eligible r.now target) t.rows job e in
        let after = ap work (process_one-first r target t job s f ready) in
        let before = ap work f.rows in
        let less = outcome-remaining r target job f.hit in
        omega (
          arith,
          claims_le r target t,
          after,
          before,
          less,
          work-append f.before (job ∷ f.after),
          work-append f.before (outcome r job ∷ f.after),
        )
  ]
]

process_one-HasIds :
    (r : Round) (target : Source) (t : Table OutboxJob) → HasIds t → HasIds (process_one r target t)
process_one-HasIds r target t s = elim (Bool-cases r.claim_fault) [
  | inl bad ↦ subst HasIds (sym (process_one-idle r target t (inr bad))) s
  | inr ready ↦ elim (Option-cases (first (is_eligible r.now target) t.rows)) [
    | inl quiet ↦
        subst HasIds
          (sym (
            process_one-idle r target t (inl (first-none (is_eligible r.now target) t.rows quiet))))
          s
    | inr (job, e) ↦
        let f = first-Found (is_eligible r.now target) t.rows job e in
        let after = process_one-first r target t job s f ready in
        let risen : Rising id_of 0 t.seq (f.before ++ job ∷ f.after) = rw f.rows at s in
        rw (after, process_one-seq r target t)
          (Rising-replace id_of 0 t.seq f.before f.after job (outcome r job) (outcome-id r job)
            risen)
  ]
]

-- Over any sequence of rounds, of whatever targets and whatever the adapters answer, on a table in which
-- the ids rise and whatever the states and attempts of its jobs, no more jobs are executed than ten for each
-- job of the table, less what is still left to do at the end: without new jobs and requests of the
-- user the retries come to an end.
pub executions_bound :
    (rs : List (Round × Source)) (t : Table OutboxJob)
    → HasIds t
    → executions rs t + work (after_rounds rs t).rows ≤ max_attempts * length t.rows
unfolding executions after_rounds
executions_bound rs t s = omega (arith, go rs t s, work_le t.rows)
  where
    go :
        (rs : List (Round × Source)) (t : Table OutboxJob)
        → HasIds t
        → executions rs t + work (after_rounds rs t).rows ≤ work t.rows
    go [] t s = omega arith
    go ((r, target) ∷ rs) t s = omega (
      arith,
      round-work r target t s,
      go rs (process_one r target t) (process_one-HasIds r target t s),
    )
