-- ===== src/Api/History.antt =====
-- The outbox over any history of what the program does to it: rounds of the workers (internal/outbox), new jobs
-- of `Enqueue` and of the pipeline (internal/core), requests of the user (internal/api), and
-- `ClearDeadletter` (internal/repair).
use readsync.Base.{
  ℕ, ◌+◌, Bool, true, false, not, List, [], ◌∷◌, Option, Text, ◌≡◌, inl, inr, arith, All,
  All-append, select, Bool-cases,
}
use readsync.Base.Table.{Table, insert, update_where, empty_table}
use readsync.Base.Table.Rows.{Rising, Rising-append}
use readsync.Model.{Source, OutboxJob}
use readsync.Core.Db.{job_row}
use readsync.Outbox.{HasIds, Round, process_one, enqueue, has_id}
use readsync.Outbox.Store.{id_of}
use readsync.Outbox.Worker.{IsBounded, IsSound, process_one-IsSound, enqueue-IsSound}
use readsync.Repair.Actions.{is_dead}
use readsync.Api.{
  Tables, Request, resolving, dismissing, retrying, dropping, winner_a, winner_b, other_winner,
  blocked_by, release, requeue, delete_where, serve, serve_tables, unblock, resolve_with,
  resolve_conflict, dismiss_conflict, retry_outbox, drop_outbox,
}
use readsync.Api.Handlers.{Rising-weaken, serve-HasIds}

-- What happens to the tables, one thing after the other.
pub data Happening : Type 0 where
  round : Round → Source → Happening
  enqueued : Bool → ℕ → ℕ → Source → List (Text × ℕ) → Happening
  event_job : ℕ → ℕ → ℕ → Option ℕ → Source → Happening
  requested : Request → Happening
  dead_cleared : Happening

-- `ClearDeadletter`, on the table of jobs.
abbrev without_dead : Table OutboxJob → Table OutboxJob
without_dead t = record t { rows = select (λ j. not (is_dead j)) t.rows }

module _ {R : Type 0} where
  abbrev on_outbox : (Table OutboxJob → Table OutboxJob) → Tables R → Tables R
  on_outbox f s = record s { outbox = f s.outbox }

  happen : Happening → Tables R → Tables R
  unfolding serve_tables
  happen (round r target) s = on_outbox (process_one r target) s
  happen (enqueued fault now book target payload) s =
      on_outbox (enqueue fault now book target payload) s
  happen (event_job now book event conflict target) s =
      on_outbox (insert (job_row now book event conflict target)) s
  happen (requested request) s = (serve_tables request s).1
  happen dead_cleared s = on_outbox without_dead s

  pub history : List Happening → Tables R → Tables R
  unfolding happen
  history [] s = s
  history (h ∷ hs) s = history hs (happen h s)

All-update_where :
    (p : OutboxJob → Bool) (f : OutboxJob → OutboxJob)
    → ((j : OutboxJob) → p j ≡ true → IsBounded j → IsBounded (f j))
    → (rows : List OutboxJob) → All IsBounded rows
    → All IsBounded (update_where p f rows)
All-update_where p f step [] h = tt
All-update_where p f step (r ∷ rs) (h, hs) = elim (Bool-cases (p r)) [
  | inl e ↦ rw e (step r e h, All-update_where p f step rs hs)
  | inr e ↦ rw e (h, All-update_where p f step rs hs)
]

All-delete_where :
    (p : OutboxJob → Bool) (rows : List OutboxJob)
    → All IsBounded rows
    → All IsBounded (delete_where p rows)
All-delete_where p [] h = tt
All-delete_where p (r ∷ rs) (h, hs) = elim (Bool-cases (p r)) [
  | inl e ↦ rw e (All-delete_where p rs hs)
  | inr e ↦ rw e (h, All-delete_where p rs hs)
]

-- The jobs that are no dead letters stay, in their order.
select-IsSound :
    (lo hi : ℕ) (rows : List OutboxJob)
    → Rising id_of lo hi rows
    → All IsBounded rows
    → Rising id_of lo hi (select (λ j. not (is_dead j)) rows)
      × All IsBounded (select (λ j. not (is_dead j)) rows)
select-IsSound lo hi [] ids h = (ids, tt)
select-IsSound lo hi (r ∷ rs) ids (h, hs) =
    let rest = select-IsSound r.id hi rs ids.1 hs in
    elim (Bool-cases (is_dead r)) [
      | inl e ↦ rw e (Rising-weaken lo r.id hi _ (omega (arith, ids.0)) rest.0, rest.1)
      | inr e ↦ rw e ((ids.0, rest.0), (h, rest.1))
    ]

release-IsBounded :
    (id : ℕ) (j : OutboxJob) → blocked_by id j ≡ true → IsBounded j → IsBounded (release j)
release-IsBounded id j e h = ground arith

requeue-IsBounded : (now : ℕ) (j : OutboxJob) → IsBounded (requeue now j)
requeue-IsBounded now j = ground arith

event_job-IsSound :
    (now book event : ℕ) (conflict : Option ℕ) (target : Source) (t : Table OutboxJob)
    → IsSound t
    → IsSound (insert (job_row now book event conflict target) t)
event_job-IsSound now book event conflict target t s = record {
  ids = Rising-append id_of 0 t.seq (t.seq + 1) t.rows _ s.ids (omega arith) (omega arith);
  jobs = All-append IsBounded t.rows _ s.jobs (ground arith, tt);
}

module _ {R : Type 0} where
  serve_tables-All :
      (request : Request) (s : Tables R)
      → All IsBounded s.outbox.rows
      → All IsBounded (serve_tables request s).1.outbox.rows
  unfolding serve_tables resolve_conflict resolve_with unblock dismiss_conflict retry_outbox
      drop_outbox
  serve_tables-All (resolving f f' now id other_winner) s h = h
  serve_tables-All (resolving true f' now id winner_a) s h = h
  serve_tables-All (resolving true f' now id winner_b) s h = h
  serve_tables-All (resolving false true now id winner_a) s h = h
  serve_tables-All (resolving false true now id winner_b) s h = h
  serve_tables-All (resolving false false now id winner_a) s h =
      All-update_where (blocked_by id) release (release-IsBounded id) s.outbox.rows h
  serve_tables-All (resolving false false now id winner_b) s h =
      All-update_where (blocked_by id) release (release-IsBounded id) s.outbox.rows h
  serve_tables-All (dismissing true now id) s h = h
  serve_tables-All (dismissing false now id) s h = h
  serve_tables-All (retrying true now id) s h = h
  serve_tables-All (retrying false now id) s h =
      All-update_where (has_id id) (requeue now) (λ j e k. requeue-IsBounded now j) s.outbox.rows h
  serve_tables-All (dropping true id) s h = h
  serve_tables-All (dropping false id) s h = All-delete_where (has_id id) s.outbox.rows h

  serve_tables-HasIds :
      (request : Request) (s : Tables R)
      → HasIds s.outbox
      → HasIds (serve_tables request s).1.outbox
  unfolding serve
  serve_tables-HasIds request s h = serve-HasIds request s h

  happen-IsSound : (h : Happening) (s : Tables R) → IsSound s.outbox → IsSound (happen h s).outbox
  unfolding happen
  happen-IsSound (round r target) s k = process_one-IsSound r target s.outbox k
  happen-IsSound (enqueued fault now book target payload) s k =
      enqueue-IsSound fault now book target payload s.outbox k
  happen-IsSound (event_job now book event conflict target) s k =
      event_job-IsSound now book event conflict target s.outbox k
  happen-IsSound (requested request) s k = record {
    ids = serve_tables-HasIds request s k.ids;
    jobs = serve_tables-All request s k.jobs;
  }
  happen-IsSound dead_cleared s k =
      let rest = select-IsSound 0 s.outbox.seq s.outbox.rows k.ids k.jobs in
      record { ids = rest.0; jobs = rest.1 }

  -- After any history of rounds of the workers, new jobs of `Enqueue` and of the pipeline, requests of the user
  -- for conflicts and jobs, and removals of the dead letters, one after the other and from tables without
  -- jobs, whatever the adapters answer and the database refuses: the ids of the jobs rise; a job that is
  -- queued, retrying or running has used at most ten attempts, and at most nine while a conflict is noted as
  -- blocking it; a dead letter has used ten or more, and no job more than eleven.
  pub history-IsSound :
      (hs : List Happening) (s : Tables R) → s.outbox ≡ empty_table → IsSound (history hs s).outbox
  unfolding history
  history-IsSound hs s none_yet = go hs s (rw none_yet (record { ids = omega arith; jobs = tt }))
    where
      go : (hs : List Happening) (s : Tables R) → IsSound s.outbox → IsSound (history hs s).outbox
      go [] s k = k
      go (h ∷ hs) s k = go hs (happen h s) (happen-IsSound h s k)
