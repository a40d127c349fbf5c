-- ===== src/Koreader.antt =====
-- internal/adapters/koreader: the events that a push makes (translate.go), and the handlers of push and
-- pull (handlers.go) over the pipeline. The user is authenticated, the body of a request read. The
-- table koreader_devices (users.go) is a list; a refused statement on it is only logged.
pub mod Refusal
pub mod RoundTrip
pub mod Users
pub mod Tests
use readsync.Base.{
  ℕ, zero, suc, ◌+◌, ◌/◌, Bool, true, false, not, ◌&&◌, ◌||◌, List, [], ◌∷◌, Option, none, some,
  Text, codes, is_empty, text_eq, length, leb, ltb, ◌==◌, if◌then◌else◌, first,
}
use readsync.Base.Double.{Double}
use readsync.Base.Stamp.{second, stamp_le}
use readsync.Model.{Source, ReadStatus, LocationType, CanonicalProgress}
use readsync.Resolver.Bands.{Evidence, no_evidence}
use readsync.Core.Event.{AdapterEvent}
use readsync.Core.Db.{Db, of_book}
use readsync.Core.Resolve.{Env, select_alias}
use readsync.Core.Pipeline.{Outcome, done, invalid, failed, process}

pub record PushRequest (W : Type 0) : Type 0 where
  pub document : Text
  pub progress : Text
  pub percentage : W
  pub device : Text
  pub device_id : Text

pub record PullResponse (W : Type 0) : Type 0 where
  pub document : Text
  pub progress : Text
  pub percentage : W
  pub device : Text
  pub device_id : Text
  pub timestamp : ℕ

-- `strings.HasPrefix`.
abbrev pub has_prefix : Text → Text → Bool
has_prefix s [] = true
has_prefix [] (c ∷ p) = false
has_prefix (d ∷ s) (c ∷ p) = (d == c) && has_prefix s p

abbrev pub locator_type : Text → LocationType
locator_type progress =
    if has_prefix progress (codes "epubcfi(")
    then LocationType.koreader_xpointer
    else LocationType.percent

abbrev pub is_hex : ℕ → Bool
is_hex c = (leb b'0' c && leb c b'9') || (leb b'a' c && leb c b'f') || (leb b'A' c && leb c b'F')

abbrev pub all_hex : Text → Bool
all_hex [] = true
all_hex (c ∷ s) = is_hex c && all_hex s

-- `sha256HexRe`.
abbrev pub is_sha256_hex : Text → Bool
is_sha256_hex s = (length s == 64) && all_hex s

abbrev pub document_evidence : Text → Evidence
document_evidence document = record no_evidence { koreader_doc_hash = document }

pub record Device : Type 0 where
  pub user_id : ℕ
  pub device_id : Text
  pub device_name : Text
  pub last_seen : ℕ

-- INSERT … ON CONFLICT(user_id, device_id) DO UPDATE.
abbrev pub upsert_device : Device → List Device → List Device
upsert_device r [] = r ∷ []
upsert_device r (s ∷ ss) =
    if (s.user_id == r.user_id) && text_eq s.device_id r.device_id
    then r ∷ ss
    else s ∷ upsert_device r ss

-- ORDER BY last_seen DESC LIMIT 1, of the user's devices.
abbrev newer : Device → Option Device → Option Device
newer r none = some r
newer r (some s) = if stamp_le s.last_seen r.last_seen then some r else some s

abbrev pub last_device : ℕ → List Device → Option Device
last_device user [] = none
last_device user (r ∷ rs) =
    let rest = last_device user rs in if r.user_id == user then newer r rest else rest

abbrev pub text_or_empty : Option Text → Text
text_or_empty none = []
text_or_empty (some s) = s

abbrev pub device_fields : Option Device → Text × Text
device_fields none = ([], [])
device_fields (some r) = (r.device_name, r.device_id)

pub data Answer (W : Type 0) : Type 0 where
  invalid_document percentage_out_of_range internal_error no_progress : Answer W
  not_newer : ℕ → Answer W
  pushed : Text → ℕ → Answer W
  pulled : PullResponse W → Answer W

-- How `Submit` ends: with the answer of `process`; by the end of the context (the timeout of ten seconds, or
-- a client that leaves) before the writer takes the event; or by its end before the answer comes, while
-- the writer goes on with the event.
pub data Wait : Type 0 where
  answered not_taken not_awaited : Wait

pub record Server (W : Type 0) : Type 0 where
  pub db : Db W
  pub devices : List Device

module _ {W : Type 0} ⦃d : Double W⦄ where
  abbrev pub read_status : W → ReadStatus
  read_status pct =
      if d.le (d.lit 1 0) pct
      then ReadStatus.finished
      else if d.lt (d.lit 0 0) pct
      then ReadStatus.reading
      else ReadStatus.unknown

  abbrev pub to_adapter_event : PushRequest W → AdapterEvent W
  to_adapter_event req = record {
    book_evidence = document_evidence req.document;
    source = Source.koreader;
    device_ts = none;
    percent_complete = some req.percentage;
    page_number = none;
    total_pages = none;
    raw_locator = some req.progress;
    locator_type = locator_type req.progress;
    read_status = read_status req.percentage;
  }

  -- `loadCanonicalByDocHash`: by its UNIQUE constraint at most one alias has the hash.
  abbrev pub canonical_of : Option ℕ → Db W → Option (CanonicalProgress W)
  canonical_of none db = none
  canonical_of (some book) db = first (of_book book) db.canonical

  abbrev pub canonical_by_doc_hash : Text → Db W → Option (CanonicalProgress W)
  canonical_by_doc_hash document db = canonical_of (select_alias Source.koreader document db) db

  -- Canonical progress of the last second that is ahead of the push.
  abbrev pub is_ahead : Option W → W → Bool
  is_ahead none pct = false
  is_ahead (some p) pct = d.lt (d.add pct (d.lit 1 3)) p

  abbrev pub newer_canonical : ℕ → PushRequest W → Option (CanonicalProgress W) → Option ℕ
  newer_canonical now req none = none
  newer_canonical now req (some canon) =
      if ltb now (canon.updated_at + second) && is_ahead canon.percent_complete req.percentage
      then some (canon.updated_at / second)
      else none

  abbrev pub note_device : Bool → ℕ → ℕ → PushRequest W → List Device → List Device
  note_device fault now user req ds =
      if is_empty req.device_id || fault
      then ds
      else upsert_device
          (record {
            user_id = user;
            device_id = req.device_id;
            device_name = req.device;
            last_seen = now;
          })
          ds

  -- `Submit`: the result of `process`, or none where the context ends before.
  abbrev pub submit : Env → ℕ → List Bool → Wait → AdapterEvent W → Db W → Option Outcome × Db W
  submit env now faults answered ev db = let r = process env now faults ev db in (some r.0, r.1)
  submit env now faults not_taken ev db = (none, db)
  submit env now faults not_awaited ev db = (none, (process env now faults ev db).1)

  abbrev pub answer_push : ℕ → PushRequest W → Option Outcome → Answer W
  answer_push now req (some done) = pushed req.document (now / second)
  answer_push now req _ = internal_error

  -- What follows the look at the canonical progress. Where the answer of `process` is not awaited, the
  -- tables are those after the writer has come to the event.
  pub submit_push :
      Env
      → ℕ
      → ℕ
      → Bool
      → List Bool
      → Wait
      → PushRequest W
      → Option ℕ
      → Server W
      → Answer W × Server W
  submit_push env now user device_fault faults wait req (some stamp) s = (not_newer stamp, s)
  submit_push env now user device_fault faults wait req none s =
      let r = submit env now faults wait (to_adapter_event req) s.db in
      (
        answer_push now req r.0,
        record { db = r.1; devices = note_device device_fault now user req s.devices },
      )

  -- `handlePush`. A refused look at the canonical progress counts as none.
  pub handle_push :
      Env → ℕ → ℕ → Bool → Bool → List Bool → Wait → PushRequest W → Server W → Answer W × Server W
  unfolding submit_push
  handle_push env now user load_fault device_fault faults wait req s =
      if not (is_sha256_hex req.document)
      then (invalid_document, s)
      else if d.lt req.percentage (d.lit 0 0) || d.lt (d.lit 101 2) req.percentage
      then (percentage_out_of_range, s)
      else submit_push env now user device_fault faults wait req
          (if load_fault
            then none
            else newer_canonical now req (canonical_by_doc_hash req.document s.db))
          s

  -- `canonicalToPull`.
  abbrev pub canonical_to_pull : Text → CanonicalProgress W → Text × Text → PullResponse W
  canonical_to_pull document canon (name, id) = record {
    document = document;
    progress = text_or_empty canon.raw_locator;
    percentage = elim canon.percent_complete [ none ↦ d.lit 0 0 | some p ↦ p ];
    device = name;
    device_id = id;
    timestamp = canon.updated_at / second;
  }

  abbrev pub answer_pull : ℕ → Text → Option (CanonicalProgress W) → List Device → Answer W
  answer_pull user document none ds = no_progress
  answer_pull user document (some canon) ds =
      pulled (canonical_to_pull document canon (device_fields (last_device user ds)))

  -- `handlePull`, where no statement is refused.
  pub handle_pull : ℕ → Text → Server W → Answer W
  handle_pull user document s =
      if not (is_sha256_hex document)
      then invalid_document
      else answer_pull user document (canonical_by_doc_hash document s.db) s.devices
