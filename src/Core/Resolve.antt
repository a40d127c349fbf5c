-- ===== src/Core/Resolve.antt =====
-- internal/core/pipeline_helpers.go: which book the evidence of an event means, and with what
-- confidence; a book that is not known is created.
pub mod Steady
pub mod Frame
pub mod Confidence
pub mod Lookup
pub mod Fresh
pub mod ByAlias
use readsync.Base.{
  ℕ, ◌+◌, Bool, true, false, List, [], ◌∷◌, Option, none, some, Text, is_empty, ◌==◌, ltb,
  if◌then◌else◌, first, exists,
}
use readsync.Base.Double.{Double}
use readsync.Model.{Source, Book, BookAlias}
use readsync.Resolver.Bands.{Evidence, evidence_quality}
use readsync.Resolver.Normalize.{Unicode}
use readsync.Resolver.Score.{score}
use readsync.Core.Db.{Db, column_is, coalesce, book_row, clashes, is_alias, put_book, put_alias}
use readsync.Core.Tx.{Tx, ◌>>=◌, ◌>>◌, ret, fail, exec}

-- What the pipeline uses of its environment: the tables of `unicode`, and the text that SQLite gives
-- back for a text stored in a column of integer affinity.
pub record Env : Type 0 where
  pub unicode : Unicode
  pub affinity : Text → Text

abbrev pub book_id? : Option Book → Option ℕ
book_id? none = none
book_id? (some b) = some b.id

abbrev pub alias_book? : Option BookAlias → Option ℕ
alias_book? none = none
alias_book? (some a) = some a.book_id

abbrev pub text_columns : Evidence → List ((Book → Option Text) × Text)
text_columns ev =
    ((λ b. b.file_hash), ev.file_hash)
    ∷ ((λ b. b.epub_id), ev.epub_id)
    ∷ ((λ b. b.goodreads_id), ev.goodreads_id)
    ∷ ((λ b. b.isbn13), ev.isbn13)
    ∷ ((λ b. b.isbn10), ev.isbn10)
    ∷ ((λ b. b.asin), ev.asin)
    ∷ []

abbrev pub alias_keys : Evidence → List (Source × Text)
alias_keys ev = (Source.koreader, ev.koreader_doc_hash) ∷ (Source.moon, ev.moon_key) ∷ []

-- The columns that `loadBookEvidence` selects; the keys of the aliases are not among them.
abbrev pub stored_evidence : Book → Evidence
stored_evidence b = record {
  file_hash = coalesce b.file_hash;
  epub_id = coalesce b.epub_id;
  calibre_id = coalesce b.calibre_id;
  goodreads_id = coalesce b.goodreads_id;
  isbn13 = coalesce b.isbn13;
  isbn10 = coalesce b.isbn10;
  asin = coalesce b.asin;
  koreader_doc_hash = [];
  moon_key = [];
  title = b.title;
  author_sort = b.author_sort;
}

module _ {W : Type 0} where
  -- SELECT id FROM books WHERE … LIMIT 1.
  abbrev pub select_book : (Book → Bool) → Db W → Option ℕ
  select_book p db = book_id? (first p db.books.rows)

  -- SELECT book_id FROM book_aliases WHERE source = ? AND adapter_key = ? LIMIT 1.
  abbrev pub select_alias : Source → Text → Db W → Option ℕ
  select_alias source key db = alias_book? (first (is_alias source key) db.aliases.rows)

  -- One round of the lookups: nothing to ask, or a hit, or on to the `rest`.
  try : Bool → (Db W → Option ℕ) → Tx W ℕ → Tx W ℕ
  try true query rest = rest
  try false query rest = do
    hit ← exec (λ db. (query db, db))
    elim hit [ none ↦ rest | some id ↦ ret id ]

  -- The loop over the text columns.
  find_columns : List ((Book → Option Text) × Text) → Tx W ℕ → Tx W ℕ
  unfolding try
  find_columns [] rest = rest
  find_columns ((column, v) ∷ ls) rest =
      try (is_empty v) (select_book (λ b. column_is (column b) v)) (find_columns ls rest)

  -- The loop over the aliases.
  find_aliases : List (Source × Text) → Tx W ℕ
  unfolding try
  find_aliases [] = ret 0
  find_aliases ((source, key) ∷ ls) = try (is_empty key) (select_alias source key) (find_aliases ls)

  -- 0 is no book.
  unfoldable pub find_book_by_evidence : Env → Evidence → Tx W ℕ
  unfolding try find_columns find_aliases
  find_book_by_evidence env ev =
      try (is_empty ev.calibre_id)
        (select_book (λ b. column_is b.calibre_id (env.affinity ev.calibre_id)))
        (find_columns (text_columns ev) (find_aliases (alias_keys ev)))

  load_book_evidence : ℕ → Tx W Evidence
  load_book_evidence id = do
    row ← exec (λ db. (first (λ (b : Book). b.id == id) db.books.rows, db))
    elim row [ none ↦ fail | some b ↦ ret (stored_evidence b) ]

  -- The INSERT of `createBook`: the id of the new row, or none where a UNIQUE index would break.
  abbrev pub added_book : Env → ℕ → Evidence → Db W → Option ℕ × Db W
  added_book env now ev db =
      if exists (clashes (book_row env.affinity now ev 0)) db.books.rows
      then (none, db)
      else (some (db.books.seq + 1), put_book env.affinity now ev db)

  create_book : Env → ℕ → Evidence → Tx W ℕ
  create_book env now ev = do
    id ← exec (added_book env now ev)
    elim id [ none ↦ fail | some k ↦ ret k ]

  insert_aliases : ℕ → ℕ → List (Source × Text) → Tx W (Unit {0})
  insert_aliases now book [] = ret tt
  insert_aliases now book ((source, key) ∷ ls) =
      let rest = insert_aliases now book ls in
      if is_empty key then rest else (exec (λ db. (tt, put_alias now book source key db)) >> rest)

  module _ ⦃d : Double W⦄ where
    -- A panic of `Score` is an error here.
    score_book : Env → Evidence → ℕ → Tx W (ℕ × ℕ)
    unfolding load_book_evidence
    score_book env ev book = do
      stored ← load_book_evidence book
      elim (score env.unicode W ev stored) [ none ↦ fail | some m ↦ ret (book, m.confidence) ]

    new_book : Env → ℕ → Evidence → Tx W (ℕ × ℕ)
    unfolding create_book insert_aliases
    new_book env now ev = do
      book ← create_book env now ev
      insert_aliases now book (alias_keys ev)
      ret (book, evidence_quality ev)

    -- `resolveBook`: the id of the book and the confidence.
    unfoldable pub resolve_book : Env → ℕ → Evidence → Tx W (ℕ × ℕ)
    unfolding find_book_by_evidence score_book new_book
    resolve_book env now ev = do
      book ← find_book_by_evidence env ev
      if ltb 0 book then score_book env ev book else new_book env now ev
