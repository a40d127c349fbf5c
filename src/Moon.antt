-- ===== src/Moon.antt =====
-- internal/adapters/moon: what the parser takes from an uploaded file (parser.go) and what the writer
-- would make of it (writeback.go). A text is its code points; it is taken to be valid UTF-8.
-- `strconv` on `float64` is a parameter.
pub mod Serializer
pub mod Layout
pub mod RoundTrip
pub mod Upload
pub mod Tests
use readsync.Base.{
  ℕ, Bool, true, false, not, ◌&&◌, ◌||◌, List, [], ◌∷◌, ◌++◌, Option, none, some, map, Text, codes,
  is_empty, text_eq, leb, ◌==◌, if◌then◌else◌,
}
use readsync.Base.Double.{Double}
use readsync.Base.Strings.{cut}
use readsync.Resolver.Bands.{Evidence, no_evidence}
use readsync.Resolver.Normalize.{Unicode, trim_space}
use readsync.Model.{Source, ReadStatus, LocationType}
use readsync.Core.Event.{AdapterEvent}
use mathlib.Core.List.{reverse}

-- `strconv.ParseFloat(s, 64)`, `none` where it returns an error, and `strconv.FormatFloat(x, 'f', -1, 64)`.
pub record FloatText (W : Type 0) : Type 0 where
  pub parse : Text → Option W
  pub format : W → Text

-- The format of a payload, a string type.
pub data Format : Type 0 where
  v1_plain unknown : Format
  other : Text → Format

abbrev pub format_eq : Format → Format → Bool
format_eq Format.v1_plain Format.v1_plain = true
format_eq Format.unknown Format.unknown = true
format_eq (Format.other s) (Format.other t) = text_eq s t
format_eq _ _ = false

-- `Result`, without the fields that are constants.
pub record Result (W : Type 0) : Type 0 where
  pub format : Format
  pub book_key : Text
  pub percent : W
  pub position : Text
  pub last_read_ts : ℕ

-- `ErrUnknownFormat`, by the text that wraps it.
pub data ParseError : Type 0 where
  annotations unrecognised_suffix empty_body malformed_body bad_percentage : ParseError
  percentage_out_of_range : ParseError

pub data Parsed (W : Type 0) : Type 0 where
  unknown_format : ParseError → Parsed W
  result : Result W → Parsed W

-- The subexpressions of `poV1Re`.
pub record Match : Type 0 where
  pub file_id : Text
  pub position : Text
  pub chapter : Text
  pub scroll : Text
  pub pct : Text

abbrev pub is_digit : ℕ → Bool
is_digit c = leb b'0' c && leb c b'9'

abbrev pub all_digits : Text → Bool
all_digits [] = true
all_digits (c ∷ s) = is_digit c && all_digits s

-- `[0-9]+`.
abbrev pub is_digits : Text → Bool
is_digits s = not (is_empty s) && all_digits s

-- `[0-9]+(?:\.[0-9]+)?`.
abbrev pub is_decimal : Text → Bool
is_decimal s = elim (cut b'.' s) [
  | none ↦ is_digits s
  | some (whole, fraction) ↦ is_digits whole && is_digits fraction
]

-- What stands before the `%` that ends a text.
abbrev pub before_last : Text → Option Text
before_last [] = none
before_last (c ∷ []) = if c == b'%' then some [] else none
before_last (c ∷ d ∷ s) = elim (before_last (d ∷ s)) [ none ↦ none | some t ↦ some (c ∷ t) ]

abbrev pub match_percent : Text → Text → Text → Text → Option Text → Option Match
match_percent file_id position chapter scroll none = none
match_percent file_id position chapter scroll (some pct) =
    if is_decimal pct
    then some (record {
      file_id = file_id;
      position = position;
      chapter = chapter;
      scroll = scroll;
      pct = pct;
    })
    else none

-- A field holds no separator of its own, so it ends at the first one.
abbrev pub match_scroll : Text → Text → Text → Option (Text × Text) → Option Match
match_scroll file_id position chapter none = none
match_scroll file_id position chapter (some (scroll, s)) =
    match_percent file_id position chapter scroll (before_last s)

abbrev pub match_chapter : Text → Text → Option (Text × Text) → Option Match
match_chapter file_id position none = none
match_chapter file_id position (some (chapter, s)) =
    match_scroll file_id position chapter (cut b':' s)

abbrev pub match_position : Text → Option (Text × Text) → Option Match
match_position file_id none = none
match_position file_id (some (position, s)) = match_chapter file_id position (cut b'#' s)

abbrev pub match_file_id : Option (Text × Text) → Option Match
match_file_id none = none
match_file_id (some (file_id, s)) = match_position file_id (cut b'@' s)

-- `poV1Re.FindStringSubmatch`.
abbrev pub find_submatch : Text → Option Match
find_submatch s = match_file_id (cut b'*' s)

-- `strings.HasSuffix`, on the reversed texts.
abbrev ends_with : Text → Text → Bool
ends_with s [] = true
ends_with [] (c ∷ p) = false
ends_with (d ∷ s) (c ∷ p) = (d == c) && ends_with s p

abbrev pub has_suffix : Text → Text → Bool
has_suffix s suffix = ends_with (reverse s) (reverse suffix)

-- The name without a `.po` at its end, of either case; letters outside ASCII fold to none of its letters.
abbrev pub strip_reversed : Text → Text → Text
strip_reversed name (o ∷ p ∷ dot ∷ base) =
    if (o == b'o' || o == b'O') && (p == b'p' || p == b'P') && dot == b'.'
    then reverse base
    else name
strip_reversed name _ = name

abbrev pub strip_po : Text → Text
strip_po name = strip_reversed name (reverse name)

abbrev pub book_key : Text → Text → Text
book_key base file_id = if is_empty file_id then base else base ++ codes "#" ++ file_id

module _ {W : Type 0} ⦃d : Double W⦄ where
  -- `pctVal / 100`, at most 1.
  abbrev pub fraction_of : W → W
  fraction_of pct = let x = d.div pct (d.lit 100 0) in if d.lt (d.lit 1 0) x then d.lit 1 0 else x

  -- What follows the conversion of the percentage.
  abbrev pub read_percent : Unicode → Text → Text → ℕ → Match → Option W → Parsed W
  read_percent u filename text received_at m none = unknown_format bad_percentage
  read_percent u filename text received_at m (some pct) =
      if d.lt pct (d.lit 0 0) || d.lt (d.lit 1005 1) pct
      then unknown_format percentage_out_of_range
      else result (record {
        format = Format.v1_plain;
        book_key = book_key (strip_po filename) (trim_space u m.file_id);
        percent = fraction_of pct;
        position = text;
        last_read_ts = received_at;
      })

  abbrev pub read_match : FloatText W → Unicode → Text → Text → ℕ → Option Match → Parsed W
  read_match f u filename text received_at none = unknown_format malformed_body
  read_match f u filename text received_at (some m) =
      read_percent u filename text received_at m (f.parse m.pct)

  -- `parsePOV1`.
  unfoldable pub parse_po_v1 : FloatText W → Unicode → Text → Text → ℕ → Parsed W
  parse_po_v1 f u filename body received_at =
      let text = trim_space u body in
      if is_empty text
      then unknown_format empty_body
      else read_match f u filename text received_at (find_submatch text)

  -- `Parse`.
  unfoldable pub parse : FloatText W → Unicode → Text → Text → ℕ → Parsed W
  unfolding parse_po_v1
  parse f u filename body received_at =
      let low = map u.to_lower filename in
      if has_suffix low (codes ".po")
      then parse_po_v1 f u filename body received_at
      else if has_suffix low (codes ".an")
      then unknown_format annotations
      else unknown_format unrecognised_suffix

  abbrev pub read_status : W → ReadStatus
  read_status pct =
      if d.le (d.lit 1 0) pct
      then ReadStatus.finished
      else if d.lt (d.lit 0 0) pct
      then ReadStatus.reading
      else ReadStatus.unknown

  -- `ToAdapterEvent`.
  abbrev pub to_adapter_event : Result W → AdapterEvent W
  to_adapter_event r = record {
    book_evidence = record no_evidence { moon_key = r.book_key };
    source = Source.moon;
    device_ts = some r.last_read_ts;
    percent_complete = some r.percent;
    page_number = none;
    total_pages = none;
    raw_locator = some r.position;
    locator_type = LocationType.moon_position;
    read_status = read_status r.percent;
  }
