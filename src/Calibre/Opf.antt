-- ===== src/Calibre/Opf.antt =====
-- internal/adapters/calibre/opf/opf.go: what the metadata of a book say of its progress. The XML is read,
-- and the value under `#value#` of a column's JSON is taken out, by functions that are parameters.
use readsync.Base.{
  ℕ, ◌==◌, Bool, true, not, ◌&&◌, ◌||◌, List, [], ◌∷◌, Option, none, some, map, Text, codes, utf8,
  is_empty, text_eq, length, is_some, if◌then◌else◌,
}
use readsync.Base.Double.{Double}
use readsync.Base.Int.{ℤ}
use readsync.Resolver.Bands.{Evidence, no_evidence}
use readsync.Resolver.Normalize.{Unicode, trim_space}
use readsync.Koreader.{has_prefix}
use readsync.Logging.{after_prefix}
use readsync.Moon.{FloatText}

-- `opfMetadata`.
pub record Ident : Type 0 where
  pub scheme : Text
  pub value : Text

pub record Meta : Type 0 where
  pub name : Text
  pub content : Text

pub record Metadata : Type 0 where
  pub title : Text
  pub creator : Text
  pub identifiers : List Ident
  pub metas : List Meta

-- A value of JSON: `other` with the text that `%v` gives.
pub data JsonValue (W : Type 0) : Type 0 where
  string : Text → JsonValue W
  number : W → JsonValue W
  boolean : Bool → JsonValue W
  null : JsonValue W
  other : Text → JsonValue W

-- `Event`; the status and the type are texts of any content.
pub record OpfEvent (W : Type 0) : Type 0 where
  pub book_evidence : Evidence
  pub percent_complete : Option W
  pub page_number : Option ℤ
  pub read_status : Text
  pub locator_type : Text
  pub raw_locator : Option Text
  pub device_ts : Option ℕ
  pub has_progress : Bool

-- `value_of` is the value under `#value#`, where the text is an object that has it.
pub record Decoders (W : Type 0) : Type 0 where
  pub float_text : FloatText W
  pub value_of : Text → Option (JsonValue W)
  pub parse_int : Text → Option ℤ
  pub parse_time : Text → Text → Option ℕ

-- `strings.Contains`.
abbrev pub contains : Text → Text → Bool
contains [] needle = has_prefix [] needle
contains (c ∷ s) needle =
    let rest = contains s needle in if has_prefix (c ∷ s) needle then true else rest

-- One identifier: of several of a scheme the last one counts; an ISBN by the number of its bytes.
abbrev pub with_isbn : Text → Evidence → Evidence
with_isbn val ev =
    if length (utf8 val) == 13
    then record ev { isbn13 = val }
    else if length (utf8 val) == 10
    then record ev { isbn10 = val }
    else ev

abbrev pub with_ident : Text → Text → Evidence → Evidence
with_ident scheme val ev =
    if text_eq scheme (codes "isbn")
    then with_isbn val ev
    else if text_eq scheme (codes "goodreads")
    then record ev { goodreads_id = val }
    else if text_eq scheme (codes "amazon")
        || text_eq scheme (codes "asin")
        || text_eq scheme (codes "mobi-asin")
    then record ev { asin = val }
    else ev

abbrev pub with_idents : Unicode → List Ident → Evidence → Evidence
with_idents u [] ev = ev
with_idents u (id ∷ ids) ev =
    with_idents u ids
      (with_ident (map u.to_lower (trim_space u id.scheme)) (trim_space u id.value) ev)

-- A map of columns: the newest entry of a name stands first, and a missing name has the empty text.
abbrev pub value_at : Text → List (Text × Text) → Text
value_at name [] = []
value_at name ((n, v) ∷ entries) = if text_eq n name then v else value_at name entries

abbrev pub user_metadata : Text
user_metadata = codes "calibre:user_metadata:"

abbrev pub or_text : Text → Text → Text
or_text s fallback = if is_empty s then fallback else s

abbrev pub text_or_none : Text → Option Text
text_or_none s = if is_empty s then none else some s

module _ {W : Type 0} ⦃d : Double W⦄ (t : Decoders W) (u : Unicode) where
  abbrev pub value_text : Option (JsonValue W) → Text
  value_text none = []
  value_text (some (JsonValue.string s)) = s
  value_text (some (JsonValue.number x)) = t.float_text.format x
  value_text (some (JsonValue.boolean b)) = if b then codes "true" else codes "false"
  value_text (some JsonValue.null) = []
  value_text (some (JsonValue.other s)) = s

  -- `ExtractValueHash`.
  abbrev pub extract_value_hash : Text → Text
  extract_value_hash blob =
      if is_empty blob || not (contains blob (codes "#value#"))
      then []
      else value_text (t.value_of blob)

  -- The loop of `buildColMap`.
  abbrev pub with_column : Option Text → Text → List (Text × Text) → List (Text × Text)
  with_column none val col = col
  with_column (some name) val col = if is_empty val then col else (name, val) ∷ col

  abbrev pub with_columns : List Meta → List (Text × Text) → List (Text × Text)
  with_columns [] col = col
  with_columns (m ∷ ms) col = with_columns ms (
      with_column (after_prefix user_metadata (map u.to_lower (trim_space u m.name)))
        (extract_value_hash m.content) col)

  abbrev pub build_col_map : List Meta → List (Text × Text)
  build_col_map metas = with_columns metas []

  abbrev pub fraction : Option W → Option W
  fraction none = none
  fraction (some v) = some (d.div v (d.lit 100 0))

  abbrev pub positive : Option W → Option W
  positive none = none
  positive (some v) = if d.lt (d.lit 0 0) v then some v else none

  -- The switch on the mode: the percentage and the page.
  abbrev pub read_progress : Text → Text → Option W × Option ℤ
  read_progress progress mode =
      if is_empty progress
      then (none, none)
      else if text_eq mode (codes "percent")
      then (fraction (t.float_text.parse progress), none)
      else if text_eq mode (codes "page")
      then (none, t.parse_int progress)
      else (fraction (positive (t.float_text.parse progress)), none)

  -- The first layout that fits.
  abbrev pub first_time : List Text → Text → Option ℕ
  first_time [] ts = none
  first_time (layout ∷ layouts) ts = elim (t.parse_time layout ts) [
    | some time ↦ some time
    | none ↦ first_time layouts ts
  ]

  abbrev pub read_time : Text → Option ℕ
  read_time ts =
      if is_empty ts
      then none
      else first_time
          (codes "2006-01-02T15:04:05Z07:00"
            ∷ codes "2006-01-02T15:04:05"
            ∷ codes "2006-01-02 15:04:05"
            ∷ [])
          ts

  abbrev pub says_progress : Option W × Option ℤ → Text → Bool
  says_progress (pct, page) status =
      is_some pct
      || is_some page
      || (not (text_eq status (codes "unknown")) && not (text_eq status (codes "not_started")))

  -- `buildEvent`, of a map given as the function that looks a name up.
  abbrev pub build_event : Evidence → (Text → Text) → OpfEvent W
  build_event ev col =
      let progress =
        read_progress (col (codes "#readsync_progress")) (col (codes "#readsync_progress_mode")) in
      let status = or_text (col (codes "#readsync_status")) (codes "unknown") in
      record {
        book_evidence = ev;
        percent_complete = progress.0;
        page_number = progress.1;
        read_status = status;
        locator_type = or_text (col (codes "#readsync_progress_mode")) (codes "percent");
        raw_locator = text_or_none (col (codes "#readsync_last_position"));
        device_ts = read_time (col (codes "#readsync_last_synced"));
        has_progress = says_progress progress status;
      }

  -- `ParseOPFEvent`, of XML that is well formed.
  pub parse_opf_event : Text → Metadata → OpfEvent W
  parse_opf_event book m =
      build_event
        (with_idents u m.identifiers (record no_evidence {
          calibre_id = book;
          title = trim_space u m.title;
          author_sort = trim_space u m.creator;
        }))
        (λ name. value_at name (build_col_map m.metas))
