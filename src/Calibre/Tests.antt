-- ===== src/Calibre/Tests.antt =====
-- A library that is a list of columns and of the values that are set, the newest first.
use mathlib.Core.Option.{some-injective}
use readsync.Moon.Tests.{three_digits}
use readsync.Base.{
  ◌+◌, ◌/◌, Bool, true, false, List, [], ◌∷◌, ◌++◌, none, some, Text, codes, text_eq_refl, exists,
  replicate, ◌≡◌, refl, ap, ◌∙◌, arith,
}
use readsync.Base.Double.{Thousandths, thousandths}
use readsync.Model.{OutboxJob, OutboxStatus, Source}
use readsync.Resolver.Normalize.{ascii}
use readsync.Calibre.{Calibredb, missing_columns, create_columns, ensure_columns}
use readsync.Calibre.Columns.{IsListing, ensure_columns-missing}
use readsync.Calibre.Writer.{Adapter, Texts, WritePayload, write_progress}
use readsync.Calibre.Writer.Debounce.{write_progress-dropped}
use readsync.Calibre.Opf.{contains}

record Library : Type 0 where
  columns : List Text
  values : List (Text × (Text × Text))

abbrev listed : Calibredb Library
listed = record {
  custom_columns = λ l. some l.columns;
  add_custom_column = λ lookup label data_type values l.
      (false, record l { columns = (codes "#" ++ lookup) ∷ l.columns });
  set_custom = λ name book value l.
      (false, record l { values = (book, (codes "#" ++ name, value)) ∷ l.values });
  set_identifier = λ kind book value l. (false, l);
}

exists-cons :
    (p : Text → Bool) (c : Text) (cs : List Text) → exists p cs ≡ true → exists p (c ∷ cs) ≡ true
exists-cons p c cs h = ground (arith, h)

listed-IsListing : IsListing listed ascii
listed-IsListing = record {
  extended = λ lookup label data_type values l from e. (
    (codes "#" ++ lookup) ∷ l.columns,
    refl,
    λ p h.
        exists-cons p (codes "#" ++ lookup) l.columns
          (ap (exists p) (some-injective l.columns from e) ∙ h),
    λ _. rw (text_eq_refl (codes "#" ++ lookup)) refl,
  );
}

abbrev library : Library
library = record {
  columns = codes "#readsync_status" ∷ codes "#Readsync_Progress" ∷ [];
  values = [];
}

ensure_columns-missing_example :
    missing_columns listed ascii (ensure_columns listed ascii false library).1 ≡ some []
unfolding ensure_columns create_columns
ensure_columns-missing_example =
    ensure_columns-missing listed ascii listed-IsListing false library refl

abbrev write_of : WritePayload Thousandths
write_of = record {
  calibre_id = codes "7";
  percent_complete = some 732;
  read_status = codes "reading";
  raw_locator = [];
  locator_type = codes "percent";
  goodreads_id = codes "4671";
}

abbrev rounded_text : Thousandths → Text
rounded_text none = codes "0"
rounded_text (some n) = three_digits ((n + 500) / 1000)

abbrev texts : Texts Thousandths
texts = record {
  unmarshal = λ job. some write_of;
  rounded = rounded_text;
  stamp = λ now. replicate now b'1';
}

contains_run : contains (codes "{\"#value#\": 50}") (codes "#value#") ≡ true
contains_run = refl

abbrev job : OutboxJob
job = record {
  id = 1;
  created_at = 1;
  updated_at = 1;
  book_id = 4;
  target_source = Source.calibre;
  status = OutboxStatus.running;
  attempts = 0;
  next_retry_at = none;
  last_error = none;
  payload = [];
  blocking_conflict_id = none;
}

abbrev adapter : Adapter Library
adapter = record { library = library; debounce = []; queue = [] }

-- A second job five seconds after the first, with a delay of ten.
write_progress-dropped_example :
    let a' = (write_progress listed texts 10 100 false job adapter).1 in
    write_progress listed texts 10 105 false (record job { id = 2 }) a' ≡ (false, a')
write_progress-dropped_example =
    write_progress-dropped listed texts 10 100 105 false false job (record job { id = 2 }) adapter
      refl refl (omega arith)
