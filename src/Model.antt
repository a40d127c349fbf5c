-- ===== src/Model.antt =====
-- internal/model: the enumerations (model.go) and the entities (types.go). The enumerations are
-- string types in Go: `unset` is the empty string, and `other` any text that no constant has.
-- `W` is `float64`; a time is a count of nanoseconds, `int32` is ℤ, an id is a natural number.
use readsync.Base.{ℕ, Bool, true, false, List, Option, Text, text_eq, text_eq_refl, ◌≡◌, refl}
use readsync.Base.Int.{ℤ}

pub data Source : Type 0 where
  calibre goodreads_bridge koreader moon kindle_via_goodreads unset : Source
  other : Text → Source

pub data ReadStatus : Type 0 where
  not_started reading finished abandoned unknown unset : ReadStatus
  other : Text → ReadStatus

pub data LocationType : Type 0 where
  percent page koreader_xpointer moon_position epub_cfi raw unset : LocationType
  other : Text → LocationType

pub data OutboxStatus : Type 0 where
  queued running succeeded retrying dead_letter : OutboxStatus
  blocked_by_conflict blocked_by_low_confidence blocked_by_adapter_health : OutboxStatus

pub data ConflictStatus : Type 0 where
  open_conflict auto_resolved user_pinned dismissed : ConflictStatus

pub data AdapterHealthState : Type 0 where
  ok degraded needs_user_action failed disabled : AdapterHealthState

-- `==` on these string types.
abbrev pub source_eq : Source → Source → Bool
source_eq Source.calibre Source.calibre = true
source_eq Source.goodreads_bridge Source.goodreads_bridge = true
source_eq Source.koreader Source.koreader = true
source_eq Source.moon Source.moon = true
source_eq Source.kindle_via_goodreads Source.kindle_via_goodreads = true
source_eq Source.unset Source.unset = true
source_eq (Source.other s) (Source.other t) = text_eq s t
source_eq _ _ = false

pub source_eq_refl : (s : Source) → source_eq s s ≡ true
source_eq_refl (Source.other s) = text_eq_refl s
source_eq_refl Source.calibre = refl
source_eq_refl Source.goodreads_bridge = refl
source_eq_refl Source.koreader = refl
source_eq_refl Source.moon = refl
source_eq_refl Source.kindle_via_goodreads = refl
source_eq_refl Source.unset = refl

abbrev pub status_eq : ReadStatus → ReadStatus → Bool
status_eq ReadStatus.not_started ReadStatus.not_started = true
status_eq ReadStatus.reading ReadStatus.reading = true
status_eq ReadStatus.finished ReadStatus.finished = true
status_eq ReadStatus.abandoned ReadStatus.abandoned = true
status_eq ReadStatus.unknown ReadStatus.unknown = true
status_eq ReadStatus.unset ReadStatus.unset = true
status_eq (ReadStatus.other s) (ReadStatus.other t) = text_eq s t
status_eq _ _ = false

abbrev pub location_eq : LocationType → LocationType → Bool
location_eq LocationType.percent LocationType.percent = true
location_eq LocationType.page LocationType.page = true
location_eq LocationType.koreader_xpointer LocationType.koreader_xpointer = true
location_eq LocationType.moon_position LocationType.moon_position = true
location_eq LocationType.epub_cfi LocationType.epub_cfi = true
location_eq LocationType.raw LocationType.raw = true
location_eq LocationType.unset LocationType.unset = true
location_eq (LocationType.other s) (LocationType.other t) = text_eq s t
location_eq _ _ = false

abbrev pub outbox_status_eq : OutboxStatus → OutboxStatus → Bool
outbox_status_eq OutboxStatus.queued OutboxStatus.queued = true
outbox_status_eq OutboxStatus.running OutboxStatus.running = true
outbox_status_eq OutboxStatus.succeeded OutboxStatus.succeeded = true
outbox_status_eq OutboxStatus.retrying OutboxStatus.retrying = true
outbox_status_eq OutboxStatus.dead_letter OutboxStatus.dead_letter = true
outbox_status_eq OutboxStatus.blocked_by_conflict OutboxStatus.blocked_by_conflict = true
outbox_status_eq OutboxStatus.blocked_by_low_confidence OutboxStatus.blocked_by_low_confidence =
    true
outbox_status_eq OutboxStatus.blocked_by_adapter_health OutboxStatus.blocked_by_adapter_health =
    true
outbox_status_eq _ _ = false

-- A nullable column holds `none` for NULL.
pub record Book : Type 0 where
  pub id : ℕ
  pub created_at : ℕ
  pub updated_at : ℕ
  pub calibre_id : Option Text
  pub goodreads_id : Option Text
  pub isbn13 : Option Text
  pub isbn10 : Option Text
  pub asin : Option Text
  pub epub_id : Option Text
  pub file_hash : Option Text
  pub title : Text
  pub author_sort : Text
  pub page_count : Option ℤ
  pub identity_confidence : ℕ

pub record BookAlias : Type 0 where
  pub id : ℕ
  pub book_id : ℕ
  pub source : Source
  pub adapter_key : Text
  pub created_at : ℕ

pub record ProgressEvent (W : Type 0) : Type 0 where
  pub id : ℕ
  pub book_id : ℕ
  pub source : Source
  pub received_at : ℕ
  pub device_ts : Option ℕ
  pub percent_complete : Option W
  pub page_number : Option ℤ
  pub total_pages : Option ℤ
  pub raw_locator : Option Text
  pub locator_type : LocationType
  pub read_status : ReadStatus
  pub identity_confidence : ℕ

pub record CanonicalProgress (W : Type 0) : Type 0 where
  pub book_id : ℕ
  pub updated_at : ℕ
  pub updated_by : Source
  pub event_id : ℕ
  pub percent_complete : Option W
  pub page_number : Option ℤ
  pub total_pages : Option ℤ
  pub raw_locator : Option Text
  pub locator_type : LocationType
  pub read_status : ReadStatus
  pub user_pinned : Bool

-- The payload is the JSON text of an object whose values here are all numbers.
pub record OutboxJob : Type 0 where
  pub id : ℕ
  pub created_at : ℕ
  pub updated_at : ℕ
  pub book_id : ℕ
  pub target_source : Source
  pub status : OutboxStatus
  pub attempts : ℕ
  pub next_retry_at : Option ℕ
  pub last_error : Option Text
  pub payload : List (Text × ℕ)
  pub blocking_conflict_id : Option ℕ

pub record Conflict (R : Type 0) : Type 0 where
  pub id : ℕ
  pub book_id : ℕ
  pub detected_at : ℕ
  pub resolved_at : Option ℕ
  pub status : ConflictStatus
  pub event_a_id : ℕ
  pub event_b_id : ℕ
  pub winner_event_id : Option ℕ
  pub reason : R
  pub resolved_by : Option Text

pub record AdapterHealth : Type 0 where
  pub source : Source
  pub state : AdapterHealthState
  pub updated_at : ℕ
  pub last_error : Option Text
  pub consec_fail : ℕ
  pub notes : Option Text
