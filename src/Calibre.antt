-- ===== src/Calibre.antt =====
-- internal/adapters/calibre: the custom columns that the adapter needs (columns.go) and makes
-- (`EnsureColumns` of calibre.go). The program calibredb is a parameter, given as what it does to a
-- library `L`.
pub mod Columns
pub mod Writer
pub mod Opf
pub mod Poll
pub mod Tests
use mathlib.Core.Bool.{true≢false}
use readsync.Base.{
  ◌≡◌, refl, ℕ, ◌+◌, Bool, true, false, not, ◌&&◌, ◌||◌, List, [], ◌∷◌, ◌++◌, Option, none, some,
  map, Text, codes, is_empty, text_eq, ◌==◌, select, exists, if◌then◌else◌,
}
use readsync.Base.Strings.Split.{split_on, join_with}
use readsync.Resolver.Normalize.{Unicode, trim_space}

pub record ColumnDef : Type 0 where
  pub name : Text
  pub label : Text
  pub data_type : Text
  pub values : Text

abbrev column : Text → Text → Text → Text → ColumnDef
column name label data_type values = record {
  name = name;
  label = label;
  data_type = data_type;
  values = values;
}

-- `requiredColumns`.
abbrev pub required_columns : List ColumnDef
required_columns =
    column (codes "#readsync_progress") (codes "ReadSync Progress") (codes "int") []
    ∷ column (codes "#readsync_progress_mode") (codes "ReadSync Progress Mode")
        (codes "enumeration") (codes "percent,page,raw")
    ∷ column (codes "#readsync_status") (codes "ReadSync Status") (codes "enumeration")
        (codes "not_started,reading,finished,abandoned")
    ∷ column (codes "#readsync_last_position") (codes "ReadSync Last Position") (codes "text") []
    ∷ column (codes "#readsync_last_source") (codes "ReadSync Last Source") (codes "text") []
    ∷ column (codes "#readsync_last_synced") (codes "ReadSync Last Synced") (codes "datetime") []
    ∷ column (codes "#readsync_conflict") (codes "ReadSync Conflict") (codes "text") []
    ∷ column (codes "#readsync_confidence") (codes "ReadSync Confidence") (codes "int") []
    ∷ []

-- `quoteEnumValues`.
abbrev quoted : Text → Text
quoted p = codes "\"" ++ p ++ codes "\""

abbrev pub quote_enum_values : Unicode → Text → Text
quote_enum_values u vals =
    join_with b','
      (map quoted (select (λ p. not (is_empty p)) (map (trim_space u) (split_on b',' vals))))

-- `strings.TrimPrefix(name, "#")`.
abbrev pub lookup_name : Text → Text
lookup_name [] = []
lookup_name (c ∷ s) = if c == b'#' then s else c ∷ s

-- What calibredb does. An error is `true`; a value is what it is given.
pub record Calibredb (L : Type 0) : Type 0 where
  -- The names that `custom_columns` lists, with their hash sign.
  pub custom_columns : L → Option (List Text)
  -- `add_custom_column`: the lookup name, the label, the type and the values.
  pub add_custom_column : Text → Text → Text → Text → L → Bool × L
  -- `set_custom`: the lookup name, the book and the value.
  pub set_custom : Text → Text → Text → L → Bool × L
  -- `set_metadata --field identifiers:…`: the type, the book and the value.
  pub set_identifier : Text → Text → Text → L → Bool × L

abbrev pub exists_lower : Unicode → List Text → Text → Bool
exists_lower u existing name =
    exists (λ c. text_eq (map u.to_lower c) (map u.to_lower name)) existing

abbrev pub missing_of : Unicode → List Text → List ColumnDef → List ColumnDef
missing_of u existing cols = select (λ c. not (exists_lower u existing c.name)) cols

abbrev pub go_on : {L : Type 0} → Bool → L → Bool × L → Bool × L
go_on true l rest = (true, l)
go_on false l rest = rest

-- Where there is no error, the rest is done.
pub go_on-false :
    {L : Type 0} (e : Bool) (l : L) (rest : Bool × L)
    → (go_on e l rest).0 ≡ false
    → (e ≡ false) × (rest.0 ≡ false) × (go_on e l rest ≡ rest)
go_on-false true l rest h = absurd (true≢false h)
go_on-false false l rest h = (refl, h, refl)

module _ {L : Type 0} (db : Calibredb L) (u : Unicode) where
  -- `missingColumns`, `none` where the columns cannot be listed.
  abbrev pub missing_from : Option (List Text) → Option (List ColumnDef)
  missing_from none = none
  missing_from (some existing) = some (missing_of u existing required_columns)

  abbrev pub missing_columns : L → Option (List ColumnDef)
  missing_columns l = missing_from (db.custom_columns l)

  -- `createColumn`.
  abbrev pub create_column : ColumnDef → L → Bool × L
  create_column c l =
      db.add_custom_column (lookup_name c.name) c.label c.data_type (quote_enum_values u c.values) l

  -- The loop of `EnsureColumns`.
  pub create_columns : List ColumnDef → L → Bool × L
  create_columns [] l = (false, l)
  create_columns (c ∷ cs) l =
      let r = create_column c l in let rest = create_columns cs r.1 in go_on r.0 r.1 rest

  abbrev pub create_missing : Option (List ColumnDef) → L → Bool × L
  create_missing none l = (true, l)
  create_missing (some cols) l = create_columns cols l

  -- `EnsureColumns`, of an adapter that has found the program and the library.
  pub ensure_columns : Bool → L → Bool × L
  ensure_columns gui_running l =
      if gui_running then (true, l) else create_missing (missing_columns l) l
