-- ===== src/Core/Db.antt =====
-- internal/db/migrations.go: the tables that the pipeline writes, and each of its INSERT statements
-- (internal/core/pipeline_db.go, pipeline_helpers.go) as a function on them. The clock `now` is read
-- once for an event.
use readsync.Base.{
  ℕ, Bool, false, ◌||◌, ◌&&◌, List, [], ◌∷◌, Option, none, some, Text, codes, text_eq, is_empty,
  ◌==◌, if◌then◌else◌, exists,
}
use readsync.Base.Table.{Table, insert, empty_table}
use readsync.Model.{
  Book, BookAlias, ProgressEvent, CanonicalProgress, OutboxJob, OutboxStatus, Conflict,
  ConflictStatus, Source, source_eq,
}
use readsync.Conflicts.{JumpReason}
use readsync.Resolver.Bands.{Evidence}
use readsync.Core.Event.{AdapterEvent}

pub record Db (W : Type 0) : Type 0 where
  pub books : Table Book
  pub aliases : Table BookAlias
  pub events : Table (ProgressEvent W)
  pub conflicts : Table (Conflict (JumpReason W))
  pub canonical : List (CanonicalProgress W)
  pub outbox : Table OutboxJob

abbrev pub empty_db : {W : Type 0} → Db W
empty_db = record {
  books = empty_table;
  aliases = empty_table;
  events = empty_table;
  conflicts = empty_table;
  canonical = [];
  outbox = empty_table;
}

-- `nullStr`.
abbrev pub null_str : Text → Option Text
null_str s = if is_empty s then none else some s

-- COALESCE(column, '').
abbrev pub coalesce : Option Text → Text
coalesce none = []
coalesce (some s) = s

-- `column = ?`: NULL equals nothing.
abbrev pub column_is : Option Text → Text → Bool
column_is none v = false
column_is (some s) v = text_eq s v

-- The row of INSERT INTO books; `affinity` is what SQLite stores for a text in an INTEGER column.
abbrev pub book_row : (Text → Text) → ℕ → Evidence → ℕ → Book
book_row affinity now ev id = record {
  id = id;
  created_at = now;
  updated_at = now;
  calibre_id = if is_empty ev.calibre_id then none else some (affinity ev.calibre_id);
  goodreads_id = null_str ev.goodreads_id;
  isbn13 = null_str ev.isbn13;
  isbn10 = null_str ev.isbn10;
  asin = null_str ev.asin;
  epub_id = null_str ev.epub_id;
  file_hash = null_str ev.file_hash;
  title = ev.title;
  author_sort = ev.author_sort;
  page_count = none;
  identity_confidence = 0;
}

-- Both columns hold the same value, and it is not NULL.
abbrev pub same_value : Option Text → Option Text → Bool
same_value none v = false
same_value (some s) v = column_is v s

-- A UNIQUE index that two rows would share: on the file hash, the Calibre id, the Goodreads id, the
-- ISBN-13 or the ASIN.
abbrev pub clashes : Book → Book → Bool
clashes a b =
    same_value a.file_hash b.file_hash
    || same_value a.calibre_id b.calibre_id
    || same_value a.goodreads_id b.goodreads_id
    || same_value a.isbn13 b.isbn13
    || same_value a.asin b.asin

abbrev pub is_alias : Source → Text → BookAlias → Bool
is_alias source key a = source_eq a.source source && text_eq a.adapter_key key

-- The JSON object that `enqueueWritebacks` and `enqueueBlockedJobs` marshal.
abbrev pub payload : ℕ → ℕ → List (Text × ℕ)
payload book event = (codes "book_id", book) ∷ (codes "event_id", event) ∷ []

-- With no conflict a job is queued, with one it is blocked by it.
abbrev pub job_row : ℕ → ℕ → ℕ → Option ℕ → Source → ℕ → OutboxJob
job_row now book event conflict target id = record {
  id = id;
  created_at = now;
  updated_at = now;
  book_id = book;
  target_source = target;
  status = elim conflict [ none ↦ OutboxStatus.queued | some _ ↦ OutboxStatus.blocked_by_conflict ];
  attempts = 0;
  next_retry_at = none;
  last_error = none;
  payload = payload book event;
  blocking_conflict_id = conflict;
}

module _ {W : Type 0} where
  abbrev pub put_book : (Text → Text) → ℕ → Evidence → Db W → Db W
  put_book affinity now ev db = record db { books = insert (book_row affinity now ev) db.books }

  -- INSERT OR IGNORE under UNIQUE(source, adapter_key).
  abbrev pub put_alias : ℕ → ℕ → Source → Text → Db W → Db W
  put_alias now book source key db =
      if exists (is_alias source key) db.aliases.rows then db else record db {
        aliases =
            insert
              (λ id. record {
                id = id;
                book_id = book;
                source = source;
                adapter_key = key;
                created_at = now;
              })
              db.aliases;
      }

  abbrev pub event_row : ℕ → ℕ → ℕ → AdapterEvent W → ℕ → ProgressEvent W
  event_row now book confidence ev id = record {
    id = id;
    book_id = book;
    source = ev.source;
    received_at = now;
    device_ts = ev.device_ts;
    percent_complete = ev.percent_complete;
    page_number = ev.page_number;
    total_pages = ev.total_pages;
    raw_locator = ev.raw_locator;
    locator_type = ev.locator_type;
    read_status = ev.read_status;
    identity_confidence = confidence;
  }

  abbrev pub put_event : ℕ → ℕ → ℕ → AdapterEvent W → Db W → Db W
  put_event now book confidence ev db = record db {
    events = insert (event_row now book confidence ev) db.events;
  }

  abbrev pub put_conflict : ℕ → ℕ → ℕ → ℕ → JumpReason W → Db W → Db W
  put_conflict now book event_a event_b reason db = record db {
    conflicts =
        insert
          (λ id. record {
            id = id;
            book_id = book;
            detected_at = now;
            resolved_at = none;
            status = ConflictStatus.open_conflict;
            event_a_id = event_a;
            event_b_id = event_b;
            winner_event_id = none;
            reason = reason;
            resolved_by = none;
          })
          db.conflicts;
  }

  abbrev pub of_book : ℕ → CanonicalProgress W → Bool
  of_book book c = c.book_id == book

  abbrev pub canonical_row : ℕ → ℕ → ℕ → AdapterEvent W → Bool → CanonicalProgress W
  canonical_row now book event ev pinned = record {
    book_id = book;
    updated_at = now;
    updated_by = ev.source;
    event_id = event;
    percent_complete = ev.percent_complete;
    page_number = ev.page_number;
    total_pages = ev.total_pages;
    raw_locator = ev.raw_locator;
    locator_type = ev.locator_type;
    read_status = ev.read_status;
    user_pinned = pinned;
  }

  -- INSERT … ON CONFLICT(book_id) DO UPDATE: every column but the pin is replaced.
  abbrev pub upsert :
      ℕ → ℕ → ℕ → AdapterEvent W → List (CanonicalProgress W) → List (CanonicalProgress W)
  upsert now book event ev [] = canonical_row now book event ev false ∷ []
  upsert now book event ev (c ∷ cs) =
      if c.book_id == book
      then canonical_row now book event ev c.user_pinned ∷ cs
      else c ∷ upsert now book event ev cs

  abbrev pub put_canonical : ℕ → ℕ → ℕ → AdapterEvent W → Db W → Db W
  put_canonical now book event ev db = record db {
    canonical = upsert now book event ev db.canonical;
  }

  abbrev pub put_job : ℕ → ℕ → ℕ → Option ℕ → Source → Db W → Db W
  put_job now book event conflict target db = record db {
    outbox = insert (job_row now book event conflict target) db.outbox;
  }
