-- ===== src/Api.antt =====
-- internal/api/conflicts_outbox.go: what the user does to a conflict or to a job of the outbox.
-- Each statement may be refused; a server without a database has no tables.
pub mod Handlers
pub mod Routes
pub mod History
pub mod Tests
use readsync.Base.{
  ℕ, ◌+◌, ◌*◌, ◌/◌, Bool, true, false, not, List, [], ◌∷◌, Option, none, some, Text, codes, ◌==◌,
  if◌then◌else◌,
}
use readsync.Base.Stamp.{second}
use readsync.Base.Table.{Table, update, update_where}
use readsync.Model.{OutboxJob, OutboxStatus, Conflict, ConflictStatus}
use readsync.Outbox.{has_id}

pub record Tables (R : Type 0) : Type 0 where
  pub conflicts : Table (Conflict R)
  pub outbox : Table OutboxJob

-- The answer: its status and the fields of its object.
pub data Response : Type 0 where
  success no_database bad_request server_error : Response
  rows_affected : ℕ → Response

-- The parameter `winner`, a text.
pub data Winner : Type 0 where
  winner_a winner_b other_winner : Winner

-- `time.RFC3339` prints whole seconds.
abbrev pub whole_seconds : ℕ → ℕ
whole_seconds now = now / second * second

abbrev pub blocked_by : ℕ → OutboxJob → Bool
blocked_by id job = elim job.blocking_conflict_id [ none ↦ false | some k ↦ k == id ]

abbrev pub release : OutboxJob → OutboxJob
release job = record job { status = OutboxStatus.queued; blocking_conflict_id = none }

abbrev pub requeue : ℕ → OutboxJob → OutboxJob
requeue now job = record job {
  status = OutboxStatus.queued;
  attempts = 0;
  next_retry_at = none;
  last_error = none;
  updated_at = whole_seconds now;
}

-- The number of rows that a statement affects.
abbrev pub count_where {ℓ} : {A : Type ℓ} → (A → Bool) → List A → ℕ
count_where p [] = 0
count_where p (x ∷ xs) = let n = count_where p xs in if p x then n + 1 else n

-- DELETE … WHERE.
abbrev pub delete_where {ℓ} : {A : Type ℓ} → (A → Bool) → List A → List A
delete_where p [] = []
delete_where p (x ∷ xs) = let rest = delete_where p xs in if p x then rest else x ∷ rest

-- The second UPDATE of `resolveConflict`, whose error is ignored.
unblock : Bool → ℕ → Table OutboxJob → Table OutboxJob
unblock true id t = t
unblock false id t = update (blocked_by id) release t

-- A request, with the faults of its statements.
pub data Request : Type 0 where
  resolving : Bool → Bool → ℕ → ℕ → Winner → Request
  dismissing : Bool → ℕ → ℕ → Request
  retrying : Bool → ℕ → ℕ → Request
  dropping : Bool → ℕ → Request

module _ {R : Type 0} where
  abbrev pub conflict_has_id : ℕ → Conflict R → Bool
  conflict_has_id id c = c.id == id

  abbrev pub settle_conflict : ℕ → Winner → Conflict R → Conflict R
  settle_conflict now winner c = record c {
    winner_event_id = some (elim winner [ winner_b ↦ c.event_b_id | _ ↦ c.event_a_id ]);
    status = ConflictStatus.auto_resolved;
    resolved_at = some (whole_seconds now);
    resolved_by = some (codes "user");
  }

  abbrev pub dismiss : ℕ → Conflict R → Conflict R
  dismiss now c = record c {
    status = ConflictStatus.dismissed;
    resolved_at = some (whole_seconds now);
    resolved_by = some (codes "user");
  }

  resolve_with : Bool → Bool → ℕ → ℕ → Winner → Tables R → Response × Tables R
  unfolding unblock
  resolve_with true fault' now id winner s = (server_error, s)
  resolve_with false fault' now id winner s = (
    success,
    record {
      conflicts = update (conflict_has_id id) (settle_conflict now winner) s.conflicts;
      outbox = unblock fault' id s.outbox;
    },
  )

  pub resolve_conflict : Bool → Bool → ℕ → ℕ → Winner → Tables R → Response × Tables R
  unfolding resolve_with
  resolve_conflict fault fault' now id other_winner s = (bad_request, s)
  resolve_conflict fault fault' now id winner s = resolve_with fault fault' now id winner s

  pub dismiss_conflict : Bool → ℕ → ℕ → Tables R → Response × Tables R
  dismiss_conflict true now id s = (server_error, s)
  dismiss_conflict false now id s =
      (success, record s { conflicts = update (conflict_has_id id) (dismiss now) s.conflicts })

  pub retry_outbox : Bool → ℕ → ℕ → Tables R → Response × Tables R
  retry_outbox true now id s = (server_error, s)
  retry_outbox false now id s = (
    rows_affected (count_where (has_id id) s.outbox.rows),
    record s { outbox = update (has_id id) (requeue now) s.outbox },
  )

  pub drop_outbox : Bool → ℕ → Tables R → Response × Tables R
  drop_outbox true id s = (server_error, s)
  drop_outbox false id s = (
    rows_affected (count_where (has_id id) s.outbox.rows),
    record s { outbox = record s.outbox { rows = delete_where (has_id id) s.outbox.rows } },
  )

  serve_tables : Request → Tables R → Response × Tables R
  unfolding resolve_conflict dismiss_conflict retry_outbox drop_outbox
  serve_tables (resolving fault fault' now id winner) s =
      resolve_conflict fault fault' now id winner s
  serve_tables (dismissing fault now id) s = dismiss_conflict fault now id s
  serve_tables (retrying fault now id) s = retry_outbox fault now id s
  serve_tables (dropping fault id) s = drop_outbox fault id s

  abbrev found_tables : Response × Tables R → Response × Option (Tables R)
  found_tables (answer, s) = (answer, some s)

  -- The four handlers, each of which first asks whether there is a database.
  pub serve : Request → Option (Tables R) → Response × Option (Tables R)
  unfolding serve_tables
  serve request none = (no_database, none)
  serve request (some s) = found_tables (serve_tables request s)
