-- ===== src/Outbox.antt =====
-- internal/outbox/worker.go: the worker of one target and its store, the table sync_outbox.
-- A statement that the database refuses is a flag `fault`; the clock and the random number of the
-- jitter are arguments. The jitter is computed exactly, where the code rounds to `float64`.
pub mod Delay
pub mod Eligible
pub mod Store
pub mod Worker
pub mod Exhaustion
pub mod Scheduler
pub mod Tests
use readsync.Base.{
  ℕ, zero, suc, ◌+◌, ◌-◌, ◌*◌, ◌/◌, ◌^◌, Bool, true, false, not, ◌&&◌, ◌||◌, List, [], ◌∷◌, Option,
  none, some, Text, leb, ltb, ◌==◌, if◌then◌else◌, first,
}
use readsync.Base.Stamp.{second, stamp_le}
use readsync.Base.Table.{Table, update, insert}
use readsync.Base.Table.Rows.{Rising}
use readsync.Model.{Source, OutboxJob, OutboxStatus, source_eq, outbox_status_eq}

abbrev pub max_attempts : ℕ
max_attempts = 10

abbrev pub base_delay : ℕ
base_delay = 5 * second

abbrev pub max_delay : ℕ
max_delay = 7200 * second

-- The delay before the jitter. All numbers of the code here are whole and exact in `float64`.
unfoldable pub retry_delay : ℕ → ℕ
retry_delay attempt =
    let exp = 2 ^ (attempt - 1) in
    let delay =
      if leb attempt 1
      then base_delay
      else if leb (max_delay / base_delay) exp
      then max_delay
      else base_delay * exp in
    if ltb max_delay delay then max_delay else delay

-- `NextRetry` at the time `now`, where `rand.Float64()` gives k / 2^53: a fifth of the delay times
-- a number from -1 to 1, cut to whole nanoseconds, is added.
unfoldable pub next_retry : ℕ → ℕ → ℕ → ℕ
unfolding retry_delay
next_retry k now attempt =
    let delay = retry_delay attempt in
    if leb (2 ^ 53) (2 * k)
    then now + (delay + delay * (2 * k - 2 ^ 53) / (5 * 2 ^ 53))
    else now + (delay - delay * (2 ^ 53 - 2 * k) / (5 * 2 ^ 53))

-- The WHERE clause of `ClaimJob`.
unfoldable pub is_eligible : ℕ → Source → OutboxJob → Bool
is_eligible now target job =
    source_eq job.target_source target
    && (outbox_status_eq job.status OutboxStatus.queued
        || outbox_status_eq job.status OutboxStatus.retrying)
    && elim job.next_retry_at [ none ↦ true | some t ↦ stamp_le t now ]

-- The columns that `ClaimJob` scans; the other fields keep their zero values.
abbrev pub scanned : OutboxJob → OutboxJob
scanned job = record job {
  created_at = 0;
  updated_at = 0;
  next_retry_at = none;
  last_error = none;
  blocking_conflict_id = none;
}

abbrev pub has_id : ℕ → OutboxJob → Bool
has_id id job = job.id == id

abbrev pub mark_running : ℕ → OutboxJob → OutboxJob
mark_running now job = record job { status = OutboxStatus.running; updated_at = now }

-- The UPDATE of `ClaimJob`, on the row that its SELECT found.
take : ℕ → Table OutboxJob → Option OutboxJob → Option OutboxJob × Table OutboxJob
take now t none = (none, t)
take now t (some job) = (some (scanned job), update (has_id job.id) (mark_running now) t)

-- `ClaimJob`: SELECT … ORDER BY id LIMIT 1 and UPDATE, in a transaction that a fault rolls back.
pub claim_job : Bool → ℕ → Source → Table OutboxJob → Option OutboxJob × Table OutboxJob
unfolding take
claim_job true now target t = (none, t)
claim_job false now target t = take now t (first (is_eligible now target) t.rows)

abbrev pub succeed : ℕ → OutboxJob → OutboxJob
succeed now job = record job { status = OutboxStatus.succeeded; updated_at = now }

pub mark_succeeded : Bool → ℕ → ℕ → Table OutboxJob → Table OutboxJob
mark_succeeded true now id t = t
mark_succeeded false now id t = update (has_id id) (succeed now) t

abbrev pub fail : Text → ℕ → Bool → ℕ → OutboxJob → OutboxJob
fail msg next dead now job = record job {
  status = if dead then OutboxStatus.dead_letter else OutboxStatus.retrying;
  attempts = job.attempts + 1;
  last_error = some msg;
  next_retry_at = some next;
  updated_at = now;
}

pub mark_failed : Bool → ℕ → ℕ → Text → ℕ → Bool → Table OutboxJob → Table OutboxJob
mark_failed true now id msg next dead t = t
mark_failed false now id msg next dead t = update (has_id id) (fail msg next dead now) t

-- What a round of a worker meets: the faults, the clock, the random number and the adapter, whose
-- answer is an error text or none.
pub record Round : Type 0 where
  pub claim_fault : Bool
  pub mark_fault : Bool
  pub now : ℕ
  pub random : ℕ
  pub execute : OutboxJob → Option Text

pub settle : Round → OutboxJob → Table OutboxJob → Table OutboxJob
unfolding mark_succeeded mark_failed
settle r job t = elim (r.execute job) [
  | none ↦ mark_succeeded r.mark_fault r.now job.id t
  | some msg ↦
      let attempts = job.attempts + 1 in
      mark_failed r.mark_fault r.now job.id msg (next_retry r.random r.now attempts)
        (leb max_attempts attempts) t
]

-- Execution and settlement of what was claimed.
resume : Round → Option OutboxJob × Table OutboxJob → Table OutboxJob
unfolding settle
resume r (none, t) = t
resume r (some job, t) = settle r job t

unfoldable pub process_one : Round → Source → Table OutboxJob → Table OutboxJob
unfolding resume claim_job
process_one r target t = resume r (claim_job r.claim_fault r.now target t)

-- `Enqueue`.
unfoldable pub enqueue : Bool → ℕ → ℕ → Source → List (Text × ℕ) → Table OutboxJob → Table OutboxJob
enqueue true now book_id target payload t = t
enqueue false now book_id target payload t =
    insert
      (λ id. record {
        id = id;
        created_at = now;
        updated_at = now;
        book_id = book_id;
        target_source = target;
        status = OutboxStatus.queued;
        attempts = 0;
        next_retry_at = none;
        last_error = none;
        payload = payload;
        blocking_conflict_id = none;
      })
      t

-- The ids of the table rise and never pass the sequence.
abbrev pub HasIds : Table OutboxJob → Type 0
HasIds t = Rising (λ (j : OutboxJob). j.id) 0 t.seq t.rows
