-- ===== src/Moon/Tests.antt =====
-- Payloads of Moon+ with concrete numbers, in thousandths.
use readsync.Moon.Layout.{layout, IsPlain, find_submatch-IsPlain}
use readsync.Moon.{Match, find_submatch}
use readsync.Base.{
  ◌↔◌, ℕ, ◌+◌, ◌-◌, ◌*◌, ◌/◌, ◌%◌, false, [], ◌∷◌, ◌++◌, Option, none, some, ◌≡◌, refl, Text, codes,
}
use readsync.Base.Double.{Thousandths, thousandths}
use readsync.Base.Strings.{cut}
use readsync.Base.Table.{empty_table}
use readsync.Model.{AdapterHealthState}
use readsync.Resolver.Normalize.{ascii}
use readsync.Core.Db.{empty_db}
use readsync.Webdav.Archive.{no_faults, archive_upload}
use readsync.Moon.{
  FloatText, Format, Result, Parsed, result, unknown_format, annotations, percentage_out_of_range,
  fraction_of, parse, parse_po_v1,
}
use readsync.Moon.Serializer.{serialize_v1_plain, payload, written_percent}
use readsync.Moon.RoundTrip.{IsWritten, parse-serialize_v1_plain}
use readsync.Moon.Upload.{Adapter, Surroundings, receive}
use readsync.Moon.Upload.Handled.{Handled, receive-Handled}

-- Three digits, and a text of digits as a number.
abbrev pub three_digits : ℕ → Text
three_digits n = (48 + n / 100 % 10) ∷ (48 + n / 10 % 10) ∷ (48 + n % 10) ∷ []

abbrev pub number : ℕ → Text → ℕ
number n [] = n
number n (c ∷ s) = number (n * 10 + (c - 48)) s

abbrev pub thousandths_of : Text → ℕ
thousandths_of (a ∷ b ∷ c ∷ s) = number 0 (a ∷ b ∷ c ∷ [])
thousandths_of (a ∷ b ∷ []) = number 0 (a ∷ b ∷ []) * 10
thousandths_of (a ∷ []) = number 0 (a ∷ []) * 100
thousandths_of [] = 0

abbrev pub parse_number : Text → Option Thousandths
parse_number s = elim (cut b'.' s) [
  | none ↦ some (some (number 0 s * 1000))
  | some (whole, fraction) ↦ some (some (number 0 whole * 1000 + thousandths_of fraction))
]

abbrev pub format_number : Thousandths → Text
format_number none = codes "NaN"
format_number (some n) = three_digits (n / 1000) ++ b'.' ∷ three_digits (n % 1000)

abbrev pub float_text : FloatText Thousandths
float_text = record { parse = parse_number; format = format_number }

abbrev body : Text
body = codes " 1703471974608*35@2#20432:73.2%\n"

abbrev parsed : Result Thousandths
parsed = record {
  format = Format.v1_plain;
  book_key = codes "Book.epub#1703471974608";
  percent = some 732;
  position = codes "1703471974608*35@2#20432:73.2%";
  last_read_ts = 9;
}

parse_run : parse float_text ascii (codes "Book.epub.PO") body 9 ≡ result parsed
unfolding parse parse_po_v1
parse_run = refl

parse-annotations_run :
    ◌≡◌ {A = Parsed Thousandths}
      (parse float_text ascii (codes "Book.epub.an") body 9)
      (unknown_format annotations)
unfolding parse parse_po_v1
parse-annotations_run = refl

parse-range_run :
    ◌≡◌ {A = Parsed Thousandths}
      (parse float_text ascii (codes "a.po") (codes "1*2@3#4:100.6%") 9)
      (unknown_format percentage_out_of_range)
unfolding parse parse_po_v1
parse-range_run = refl

abbrev fields : Match
fields = record {
  file_id = codes "17";
  position = codes "35";
  chapter = codes "2";
  scroll = codes "20432";
  pct = codes "73.2";
}

find_submatch-IsPlain_example :
    (find_submatch (codes "17*35@2#20432:73.2%") ≡ some fields)
    ↔ ((codes "17*35@2#20432:73.2%" ≡ layout fields) × IsPlain fields)
find_submatch-IsPlain_example = find_submatch-IsPlain (codes "17*35@2#20432:73.2%") fields

written : IsWritten float_text ascii (written_percent {W = Thousandths} (some 500))
written = record { decimal = refl; read = refl; not_negative = refl; not_above = refl }

parse-serialize_v1_plain_example :
    (out : Text) × (serialize_v1_plain float_text parsed (some 500) ≡ payload out)
    × (parse float_text ascii (codes "Book.epub.PO") out 12
        ≡ result (record {
          format = parsed.format;
          book_key = parsed.book_key;
          percent = fraction_of (written_percent {W = Thousandths} (some 500));
          position = out;
          last_read_ts = 12;
        }))
parse-serialize_v1_plain_example =
    parse-serialize_v1_plain float_text ascii (codes "Book.epub.PO") body 9 12 parsed (some 500)
      refl parse_run refl refl written

abbrev given : Surroundings Thousandths
given = record {
  env = record { unicode = ascii; affinity = λ s. s };
  float_text = float_text;
  sha256 = λ bytes. bytes;
  decode = λ bytes. bytes;
  describe = λ _. codes "moon: unknown format";
  read_fault = false;
  update_fault = false;
  pipeline_faults = [];
}

abbrev adapter : Adapter Thousandths
adapter = record {
  archive = record {
    users = record {
      rows =
          record { id = 1; username = codes "mia"; password_hash = codes "h"; created_at = 1 } ∷ [];
      seq = 1;
    };
    uploads = empty_table;
    files = [];
  };
  db = empty_db;
  health = AdapterHealthState.disabled;
  hint = none;
}

receive-Handled_example :
    Handled given no_faults 9
      (codes "mia")
      (codes "/Books/.Moon+/Cache/Book.epub.po")
      body
      adapter
      (archive_upload given.sha256 no_faults 9
        (codes "mia")
        (codes "/Books/.Moon+/Cache/Book.epub.po")
        body
        adapter.archive).0
      (receive given no_faults 9
        (codes "mia")
        (codes "/Books/.Moon+/Cache/Book.epub.po")
        body
        adapter)
receive-Handled_example =
    receive-Handled given no_faults 9 (codes "mia") (codes "/Books/.Moon+/Cache/Book.epub.po") body
      adapter refl
