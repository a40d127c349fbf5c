-- ===== src/Api/Tests.antt =====
-- Requests on concrete tables.
use readsync.Base.{
  List, All, ◌≢◌, ℕ, Text, codes, Option, text_eq, false, refl, [], ◌∷◌, none, some, ◌≡◌, first,
}
use readsync.Base.Int.{ℤ, pos}
use readsync.Base.Table.{empty_table}
use readsync.Model.{Conflict, Source, OutboxJob, OutboxStatus}
use readsync.Outbox.{has_id, Round}
use readsync.Api.{Tables, retrying, resolving, winner_b, success, winner_a, resolve_conflict}
use readsync.Api.Routes.{HttpRequest, other_method, get, is_read, token_of, route, route-csrf_token}
use readsync.Outbox.Worker.{IsSound}
use readsync.Api.History.{
  Happening, round, event_job, requested, dead_cleared, history, history-IsSound,
}
use readsync.Api.Handlers.{resolve_conflict-releases}

abbrev job : ℕ → ℕ → OutboxJob
job id conflict = record {
  id = id;
  created_at = 0;
  updated_at = 0;
  book_id = 1;
  target_source = Source.moon;
  status = OutboxStatus.blocked_by_conflict;
  attempts = 2;
  next_retry_at = none;
  last_error = none;
  payload = [];
  blocking_conflict_id = some conflict;
}

abbrev tables : Tables ℕ
tables = record {
  conflicts = empty_table;
  outbox = record { rows = job 1 1 ∷ job 2 2 ∷ []; seq = 2 };
}

abbrev chosen : ℕ
chosen = 2

resolve_conflict-releases_example :
    let r = resolve_conflict false false 9 1 winner_a tables in
    (r.0 ≡ success)
    × All (λ j. j.blocking_conflict_id ≢ some 1) r.1.outbox.rows
    × ((k : ℕ) (j : OutboxJob)
        → first (has_id k) tables.outbox.rows ≡ some j
        → (j.blocking_conflict_id ≡ some 1
            → first (has_id k) r.1.outbox.rows
              ≡ some (record j { status = OutboxStatus.queued; blocking_conflict_id = none }))
          × (j.blocking_conflict_id ≢ some 1 → first (has_id k) r.1.outbox.rows ≡ some j))
resolve_conflict-releases_example = resolve_conflict-releases 9 1 winner_a tables (λ h. cc)

-- A request that drops the first job, with a token that is not that of the server.
abbrev forged : HttpRequest
forged = record {
  method = other_method;
  csrf_header = [];
  csrf_field = codes "guess";
  path = codes "/api/outbox/1/drop";
  winner = [];
  fault = false;
  second_fault = false;
}

abbrev one_of : Text → Option ℤ
one_of id = some (pos 1)

route-csrf_token_example :
    ((is_read forged.method ≡ false)
      → (text_eq (token_of forged) (codes "secret") ≡ false)
      → (route one_of 9 (codes "secret") forged (some tables)).1 ≡ some tables)
    × (route one_of 9
          (codes "secret")
          (record forged { method = get; csrf_header = []; csrf_field = [] })
          (some tables)
        ≡ route one_of 9
            (codes "secret")
            (record forged { method = other_method; csrf_header = codes "secret" })
            (some tables))
route-csrf_token_example = route-csrf_token one_of 9 (codes "secret") forged (some tables) refl

abbrev failing : Round
failing = record {
  claim_fault = false;
  mark_fault = false;
  now = 5;
  random = 0;
  execute = λ _. some (codes "offline");
}

-- A job of the pipeline that a conflict blocks, which the user retries, a worker executes, and the user
-- releases by the resolution of the conflict.
abbrev happenings : List Happening
happenings =
    event_job 1 1 1 (some 1) Source.moon
    ∷ requested (retrying false 2 1)
    ∷ round failing Source.moon
    ∷ requested (resolving false false 6 1 winner_b)
    ∷ dead_cleared
    ∷ []

history-IsSound_example :
    IsSound
      (history happenings
        (record { conflicts = empty_table {R = Conflict ℕ}; outbox = empty_table })).outbox
history-IsSound_example =
    history-IsSound happenings
      (record { conflicts = empty_table {R = Conflict ℕ}; outbox = empty_table }) refl
