-- ===== src/Outbox/Tests.antt =====
-- Runs of the worker on concrete tables.
use readsync.Base.{
  ℕ, ◌+◌, ◌*◌, ◌≤◌, true, false, List, [], ◌∷◌, none, some, ◌≡◌, refl, arith, codes, length,
}
use readsync.Base.Stamp.{second}
use readsync.Outbox.Eligible.{is_eligible-fraction}
use readsync.Base.Table.{Table}
use readsync.Base.Table.Rows.{Found}
use readsync.Model.{Source, OutboxJob, OutboxStatus}
use readsync.Outbox.{
  max_attempts, base_delay, max_delay, retry_delay, next_retry, is_eligible, Round, scanned,
  claim_job,
}
use readsync.Outbox.Exhaustion.{work, executions, after_rounds, executions_bound}
use readsync.Outbox.Delay.{next_retry_window}
use readsync.Outbox.Scheduler.{Fleet, Step, claim, here, next, IsExclusive, Reach-IsExclusive}

abbrev job : ℕ → OutboxStatus → OutboxJob
job id status = record {
  id = id;
  created_at = 0;
  updated_at = 0;
  book_id = 1;
  target_source = Source.moon;
  status = status;
  attempts = 9;
  next_retry_at = none;
  last_error = none;
  payload = [];
  blocking_conflict_id = none;
}

abbrev jobs : Table OutboxJob
jobs = record {
  rows =
      job 1 OutboxStatus.succeeded ∷ job 2 OutboxStatus.retrying ∷ job 3 OutboxStatus.queued ∷ [];
  seq = 3;
}

-- The adapter refuses, so the tenth attempt makes a dead letter.
abbrev failing : Round
failing = record {
  claim_fault = false;
  mark_fault = false;
  now = 5 * second;
  random = 0;
  execute = λ _. some (codes "offline");
}

second_job : Found (is_eligible failing.now Source.moon) jobs.rows (job 2 OutboxStatus.retrying)
unfolding is_eligible
second_job = record {
  before = job 1 OutboxStatus.succeeded ∷ [];
  after = job 3 OutboxStatus.queued ∷ [];
  rows = refl;
  skipped = refl;
  hit = refl;
}

next_retry_window_example :
    let delay = retry_delay 4 in
    (5 * second * 5 + 4 * delay ≤ 5 * next_retry 77 (5 * second) 4)
    × (5 * next_retry 77 (5 * second) 4 ≤ 5 * (5 * second) + 6 * delay)
    × (base_delay ≤ delay)
    × (delay ≤ max_delay)
next_retry_window_example = next_retry_window 77 (5 * second) 4 (omega arith)

abbrev fleet : Fleet
fleet = record { table = jobs; in_flight = [] }

abbrev claimed : Fleet
unfolding claim_job
claimed = record {
  table = (claim_job false failing.now Source.moon jobs).1;
  in_flight = scanned (job 2 OutboxStatus.retrying) ∷ [];
}

claiming : Step fleet claimed
unfolding claim_job is_eligible
claiming = claim fleet failing Source.moon (scanned (job 2 OutboxStatus.retrying)) _ refl

Reach-IsExclusive_example : IsExclusive claimed
Reach-IsExclusive_example =
    Reach-IsExclusive {f = fleet} {g = claimed} (omega arith) refl (next here claiming)

is_eligible-fraction_example :
    (is_eligible (3 * second) Source.moon (record (job 2 OutboxStatus.dead_letter) {
      status = OutboxStatus.retrying;
      next_retry_at = some (3 * second + 5);
    })
      ≡ true)
    × (is_eligible (3 * second + 5) Source.moon (record (job 2 OutboxStatus.dead_letter) {
      status = OutboxStatus.retrying;
      next_retry_at = some (3 * second);
    })
        ≡ false)
is_eligible-fraction_example =
    is_eligible-fraction 3 5 (job 2 OutboxStatus.dead_letter) (omega arith) (omega arith)

abbrev rounds : List (Round × Source)
rounds = (failing, Source.moon) ∷ (failing, Source.moon) ∷ (failing, Source.moon) ∷ []

executions_bound_example :
    executions rounds jobs + work (after_rounds rounds jobs).rows ≤ max_attempts * length jobs.rows
executions_bound_example = executions_bound rounds jobs (omega arith)
