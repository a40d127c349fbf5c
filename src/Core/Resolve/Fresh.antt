-- ===== src/Core/Resolve/Fresh.antt =====
-- On linked tables every book is resolved: a known one is found, and the row of a new one breaks no
-- UNIQUE index.
use readsync.Base.{
  ℕ, ◌+◌, Bool, true, false, ◌||◌, List, [], ◌∷◌, ◌++◌, Option, none, some, ◌≡◌, refl, ◌∙◌, Text,
  is_empty, ltb, if◌then◌else◌, first, exists, All-append, All-map, Bool-cases, Option-cases, inl,
  inr, arith,
}
use readsync.Base.Double.{Double}
use readsync.Base.Table.Rows.{first-none}
use readsync.Model.{Source, Book, BookAlias}
use readsync.Resolver.Bands.{Evidence, evidence_quality}
use readsync.Resolver.Score.Signals.{score-writeback}
use readsync.Core.Db.{Db, column_is, same_value, clashes, book_row, put_book, put_alias, is_alias}
use readsync.Core.Tx.{Session, Tx, ◌>>=◌, exec}
use readsync.Core.Resolve.{
  Env, alias_keys, create_book, insert_aliases, load_book_evidence, score_book, new_book,
  stored_evidence, find_book_by_evidence, resolve_book,
}
use readsync.Core.Resolve.Lookup.{
  has_book, is_known, IsLinked, Lookup, hit, miss, Missed, MissedAll, missed_books, find-Lookup,
}

exists-|| :
    (p q : Book → Bool) (rows : List Book)
    → exists p rows ≡ false
    → exists q rows ≡ false
    → exists (λ b. p b || q b) rows ≡ false
exists-|| p q [] h k = refl
exists-|| p q (b ∷ rows) h k = ground (arith, exists-|| p q rows)

exists_false : (rows : List Book) → exists (λ (b : Book). false) rows ≡ false
exists_false [] = refl
exists_false (b ∷ rows) = exists_false rows

-- The value that the INSERT stores is in no row.
unshared :
    (column : Book → Option Text) (v stored : Text) (rows : List Book)
    → (is_empty v ≡ false → exists (λ b. column_is (column b) stored) rows ≡ false)
    → exists (λ b. same_value (if is_empty v then none else some stored) (column b)) rows ≡ false
unshared column v stored rows h = elim (Bool-cases (is_empty v)) [
  | inl e ↦ rw e (exists_false rows)
  | inr e ↦ rw e (h e)
]

module _ {W : Type 0} (db : Db W) where
  unmatched :
      (l : IsLinked db) (column : Book → Option Text) (v stored : Text)
      → Missed db l column v stored
      → is_empty v ≡ false
      → exists (λ b. column_is (column b) stored) db.books.rows ≡ false
  unmatched l column v stored m e =
      missed_books (λ b. column_is (column b) stored) db.books.rows (m e)

  -- After a failed lookup the row of the new book shares no unique value with another.
  no_clash :
      (l : IsLinked db) (env : Env) (now : ℕ) (ev : Evidence)
      → MissedAll db l env ev
      → exists (clashes (book_row env.affinity now ev 0)) db.books.rows ≡ false
  no_clash l env now ev (calibre, (hash, (epub, (goodreads, (isbn13, (isbn10, (asin, _))))))) =
      let free =
        λ (column : Book → Option Text) (v stored : Text) (m : Missed db l column v stored).
          unshared column v stored db.books.rows (unmatched l column v stored m) in
      exists-|| _ _ db.books.rows
        (exists-|| _ _ db.books.rows
          (exists-|| _ _ db.books.rows
            (exists-|| _ _ db.books.rows (free (λ b. b.file_hash) ev.file_hash ev.file_hash hash)
              (free (λ b. b.calibre_id) ev.calibre_id (env.affinity ev.calibre_id) calibre))
            (free (λ b. b.goodreads_id) ev.goodreads_id ev.goodreads_id goodreads))
          (free (λ b. b.isbn13) ev.isbn13 ev.isbn13 isbn13))
        (free (λ b. b.asin) ev.asin ev.asin asin)

known_append :
    (rows : List Book) (b : Book) (id : ℕ)
    → is_known rows id ≡ true
    → is_known (rows ++ b ∷ []) id ≡ true
known_append [] b id h = cc
known_append (x ∷ rows) b id h = ground (arith, known_append rows b id)

known_last : (rows : List Book) (b : Book) → is_known (rows ++ b ∷ []) b.id ≡ true
known_last [] b = ground arith
known_last (x ∷ rows) b = ground (arith, known_last rows b)

pub found_known :
    (rows : List Book) (id : ℕ)
    → is_known rows id ≡ true
    → (b : Book) × (first (has_book id) rows ≡ some b)
found_known rows id h = elim (Option-cases (first (has_book id) rows)) [
  | inl e ↦ let no = first-none (has_book id) rows e in cc
  | inr f ↦ f
]

module _ {W : Type 0} where
  abbrev opened : Db W → Session W
  opened db = record { db = db; faults = [] }

  -- A step that ends on linked tables, with the id of a known book.
  pub record Resolved (db : Db W) (m : Tx W (ℕ × ℕ)) : Type 0 where
    pub book : ℕ
    pub confidence : ℕ
    pub db' : Db W
    pub runs : m (opened db) ≡ some ((book, confidence), opened db')
    pub known : is_known db'.books.rows book ≡ true
    pub linked : IsLinked db'

  put_book-IsLinked :
      (env : Env) (now : ℕ) (ev : Evidence) (db : Db W)
      → IsLinked db
      → IsLinked (put_book env.affinity now ev db)
  put_book-IsLinked env now ev db l = record {
    positive = All-append _ db.books.rows _ l.positive (omega arith, tt);
    linked =
        All-map (λ (a : BookAlias). is_known db.books.rows a.book_id ≡ true) _
          (λ a.
            known_append db.books.rows (book_row env.affinity now ev (db.books.seq + 1)) a.book_id)
          db.aliases.rows l.linked;
  }

  put_alias-IsLinked :
      (now book : ℕ) (source : Source) (key : Text) (db : Db W)
      → IsLinked db
      → is_known db.books.rows book ≡ true
      → IsLinked (put_alias now book source key db)
        × ((put_alias now book source key db).books ≡ db.books)
  put_alias-IsLinked now book source key db l k =
      elim (Bool-cases (exists (is_alias source key) db.aliases.rows)) [
        | inl e ↦ rw e (l, refl)
        | inr e ↦ rw e (
          record {
            positive = l.positive;
            linked = All-append _ db.aliases.rows _ l.linked (k, tt);
          },
          refl,
        )
      ]

  insert_aliases-IsLinked :
      (now book : ℕ) (ls : List (Source × Text)) (db : Db W)
      → IsLinked db
      → is_known db.books.rows book ≡ true
      → (db' : Db W) × (insert_aliases now book ls (opened db) ≡ some (tt, opened db'))
        × IsLinked db'
        × (is_known db'.books.rows book ≡ true)
  unfolding insert_aliases exec
  insert_aliases-IsLinked now book [] db l k = (db, refl, l, k)
  insert_aliases-IsLinked now book ((source, key) ∷ ls) db l k = elim (Bool-cases (is_empty key)) [
    | inl e ↦ rw e (insert_aliases-IsLinked now book ls db l k)
    | inr e ↦
        let (l', same) = put_alias-IsLinked now book source key db l k in
        rw e (insert_aliases-IsLinked now book ls (put_alias now book source key db) l' (rw same k))
  ]

  module _ ⦃d : Double W⦄ where
    score_book-Resolved :
        (env : Env) (ev : Evidence) (id : ℕ) (db : Db W)
        → IsLinked db
        → is_known db.books.rows id ≡ true
        → Resolved db (score_book env ev id)
    unfolding score_book load_book_evidence exec
    score_book-Resolved env ev id db l k =
        let (b, found) = found_known db.books.rows id k in
        let (m, scored, _, _) = score-writeback env.unicode W ev (stored_evidence b) in
        record {
          book = id;
          confidence = m.confidence;
          db' = db;
          runs = rw (found, ◌>>=◌, scored);
          known = k;
          linked = l;
        }

    new_book-Resolved :
        (env : Env) (now : ℕ) (ev : Evidence) (db : Db W) (l : IsLinked db)
        → MissedAll db l env ev
        → Resolved db (new_book env now ev)
    unfolding new_book create_book exec
    new_book-Resolved env now ev db l m =
        let clash = no_clash db l env now ev m in
        let k = known_last db.books.rows (book_row env.affinity now ev (db.books.seq + 1)) in
        let (db', runs, l', known) =
          insert_aliases-IsLinked now (db.books.seq + 1) (alias_keys ev)
            (put_book env.affinity now ev db) (put_book-IsLinked env now ev db l) k in
        record {
          book = db.books.seq + 1;
          confidence = evidence_quality ev;
          db' = db';
          runs = rw (clash, ◌>>=◌, runs);
          known = known;
          linked = l';
        }

    pub resolve_book-Resolved :
        (env : Env) (now : ℕ) (ev : Evidence) (db : Db W)
        → IsLinked db
        → Resolved db (resolve_book env now ev)
    unfolding resolve_book
    resolve_book-Resolved env now ev db l = go (find-Lookup db l env ev)
      where
        via :
            {m : Tx W (ℕ × ℕ)}
            → (r : Resolved db m) → resolve_book env now ev (opened db) ≡ m (opened db)
            → Resolved db (resolve_book env now ev)
        via r e = record {
          book = r.book;
          confidence = r.confidence;
          db' = r.db';
          runs = e ∙ r.runs;
          known = r.known;
          linked = r.linked;
        }

        go :
            Lookup db (find_book_by_evidence env ev) (MissedAll db l env ev)
            → Resolved db (resolve_book env now ev)
        go (hit id p k e) =
            let positive : ltb 0 id ≡ true = ground arith in
            via (score_book-Resolved env ev id db l k) (rw (e, ◌>>=◌, positive))
        go (miss m e) = via (new_book-Resolved env now ev db l m) (rw (e, ◌>>=◌))
