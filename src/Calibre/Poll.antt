-- ===== src/Calibre/Poll.antt =====
-- internal/adapters/calibre/read.go and `doPoll` of calibre.go: the books that calibredb lists, their events,
-- and the hand-over to the pipeline. The program is a parameter, and so are the decoders of JSON and XML.
use readsync.Base.{
  ℕ, true, false, ◌||◌, ltb, List, [], ◌∷◌, Option, none, some, Text, codes, is_empty, text_eq, ◌≡◌,
  refl, arith, Bool-cases, inl, inr, if◌then◌else◌,
}
use mathlib.Core.List.{reverse}
use readsync.Base.Double.{Double}
use readsync.Base.Strings.Split.{split_on}
use readsync.Model.{AdapterHealthState}
use readsync.Resolver.Normalize.{Unicode, trim_space}
use readsync.Repair.{contains_any}
use readsync.Calibre.Opf.{
  OpfEvent, Decoders, JsonValue, Metadata, parse_opf_event, build_col_map, value_at,
}

-- The field up to the first space.
abbrev pub first_field : Unicode → Text → Text
first_field u [] = []
first_field u (c ∷ s) = if u.is_space c then [] else c ∷ first_field u s

-- `strings.Trim` by the characters of `cut`.
abbrev pub trim_left_of : Text → Text → Text
trim_left_of cut [] = []
trim_left_of cut (c ∷ s) = if contains_any (c ∷ []) cut then trim_left_of cut s else c ∷ s

abbrev pub trim_of : Text → Text → Text
trim_of cut s = reverse (trim_left_of cut (reverse (trim_left_of cut s)))

-- The fallback of `listBookIDs`: one id in a line.
abbrev pub line_ids : Unicode → List Text → List Text
line_ids u [] = []
line_ids u (raw ∷ lines) =
    let line = trim_space u raw in
    let id = trim_of (codes "\"[],") (first_field u line) in
    let rest = line_ids u lines in
    if is_empty line || text_eq line (codes "id") || is_empty id || text_eq id (codes "id")
    then rest
    else id ∷ rest

-- What the program answers, and how its output is read: `books` is what `json.Unmarshal` makes of the
-- list, by the value under `id` of each book, and `parse_package` the metadata of an OPF text.
pub record Reader (W : Type 0) : Type 0 where
  pub list_output : Option Text
  pub show_metadata : Text → Option Text
  pub books : Text → Option (List (Option (JsonValue W)))
  pub parse_package : Text → Option Metadata
  pub int_text : W → Text

module _ {W : Type 0} ⦃d : Double W⦄ (t : Decoders W) (u : Unicode) (r : Reader W) where
  abbrev id_text : JsonValue W → Text
  id_text (JsonValue.number v) = r.int_text v
  id_text (JsonValue.string s) = s
  id_text (JsonValue.boolean true) = codes "true"
  id_text (JsonValue.boolean false) = codes "false"
  id_text JsonValue.null = codes "<nil>"
  id_text (JsonValue.other s) = s

  abbrev book_ids : List (Option (JsonValue W)) → List Text
  book_ids [] = []
  book_ids (none ∷ books) = book_ids books
  book_ids (some v ∷ books) = id_text v ∷ book_ids books

  abbrev ids_of : Text → Option (List (Option (JsonValue W))) → List Text
  ids_of out none = line_ids u (split_on b'\n' out)
  ids_of out (some books) = book_ids books

  -- `listBookIDs`.
  abbrev pub list_book_ids : Option (List Text)
  list_book_ids = elim r.list_output [ none ↦ none | some out ↦ some (ids_of out (r.books out)) ]

  -- `parseOPFEvent` of read.go, of XML that is well formed: the event where there is progress. It is that
  -- of package opf, but for the type of a locator, which has no default.
  abbrev pub book_event : Text → Metadata → Option (OpfEvent W)
  book_event book m =
      let ev = parse_opf_event t u book m in
      if ev.has_progress
      then some (record ev {
        locator_type = value_at (codes "#readsync_progress_mode") (build_col_map t u m.metas);
      })
      else none

  abbrev event_in : Text → Option Metadata → Option (OpfEvent W)
  event_in book none = none
  event_in book (some m) = book_event book m

  -- `readBookProgress`, an error being no event, since its caller goes on.
  abbrev pub read_book_progress : Text → Option (OpfEvent W)
  read_book_progress book = elim (r.show_metadata book) [
    | none ↦ none
    | some out ↦ event_in book (r.parse_package out)
  ]

  -- The loop of `readAllProgress`.
  abbrev pub read_books : List Text → List (OpfEvent W)
  read_books [] = []
  read_books (id ∷ ids) = elim (read_book_progress id) [
    | none ↦ read_books ids
    | some ev ↦ ev ∷ read_books ids
  ]

  abbrev pub read_all_progress : Option (List (OpfEvent W))
  read_all_progress = elim list_book_ids [ none ↦ none | some ids ↦ some (read_books ids) ]

-- What `doPoll` keeps, with the state `S` of the pipeline; times are counted from the zero time.
pub record Poller (S : Type 0) : Type 0 where
  pub library_path : Text
  pub calibredb_path : Text
  pub last_mtime : ℕ
  pub health : AdapterHealthState
  pub pipeline : Option S

-- `submit` is `Pipeline.Submit` of an event; an error of it is logged, and the loop goes on.
not_below : (n : ℕ) → ltb n n ≡ false
not_below n = ground arith

module _ {S E : Type 0} (submit : E → S → S) where
  abbrev pub submit_all : List E → S → S
  submit_all [] s = s
  submit_all (ev ∷ events) s = submit_all events (submit ev s)

  abbrev hand_over : Option (List E) → Option S → Option S
  hand_over none s = s
  hand_over (some events) none = none
  hand_over (some events) (some s) = some (submit_all events s)

  abbrev on_change : ℕ → Option (List E) → Poller S → Poller S
  on_change mtime events p = record p { last_mtime = mtime; pipeline = hand_over events p.pipeline }

  abbrev poll_at : Option ℕ → Option (List E) → Poller S → Poller S
  poll_at none events p = record p { health = AdapterHealthState.degraded }
  poll_at (some mtime) events p = if ltb p.last_mtime mtime then on_change mtime events p else p

  -- `doPoll`: `mtime` is what `os.Stat` says of metadata.db, `events` what `readAllProgress` gives.
  pub do_poll : Option ℕ → Option (List E) → Poller S → Poller S
  do_poll mtime events p =
      if is_empty p.library_path || is_empty p.calibredb_path then p else poll_at mtime events p

  -- A second poll at the same time of metadata.db changes nothing, whatever it would read: a read that
  -- failed is not tried again before the file changes.
  do_poll_once :
      (mtime : ℕ) (events later : Option (List E)) (p : Poller S)
      → do_poll (some mtime) later (do_poll (some mtime) events p) ≡ do_poll (some mtime) events p
  unfolding do_poll
  do_poll_once mtime events later p =
      elim (Bool-cases (is_empty p.library_path || is_empty p.calibredb_path)) [
        | inl e ↦ rw (e, e) refl
        | inr e ↦ elim (Bool-cases (ltb p.last_mtime mtime)) [
          | inl new ↦ rw (e, new, e, not_below mtime) refl
          | inr old ↦ rw (e, old, e, old) refl
        ]
      ]
