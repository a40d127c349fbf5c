-- ===== src/Core/Resolve/Lookup.antt =====
-- The lookups of `findBookByEvidence` on linked tables: what a hit and a miss mean.
use readsync.Base.{
  ℕ, ◌<◌, Bool, true, false, List, [], ◌∷◌, Option, none, some, ◌≡◌, refl, Text, is_empty, ◌==◌,
  first, exists, All, Bool-cases, inl, inr, arith,
}
use readsync.Model.{Source, Book, BookAlias}
use readsync.Resolver.Bands.{Evidence}
use readsync.Core.Db.{Db, column_is, is_alias}
use readsync.Core.Tx.{Tx, exec}
use readsync.Core.Resolve.{
  Env, try, find_columns, find_aliases, text_columns, alias_keys, select_book, select_alias,
  find_book_by_evidence, book_id?, alias_book?,
}

abbrev pub has_book : ℕ → Book → Bool
has_book id b = b.id == id

abbrev pub is_known : List Book → ℕ → Bool
is_known rows id = exists (has_book id) rows

-- No book has the id 0, and every alias names a book.
pub record IsLinked {W : Type 0} (db : Db W) : Type 0 where
  pub positive : All (λ (b : Book). 0 < b.id) db.books.rows
  pub linked : All (λ (a : BookAlias). is_known db.books.rows a.book_id ≡ true) db.aliases.rows

-- How a lookup ends: with a known book, or with 0 and `Missed`.
pub data Lookup {W : Type 0} (db : Db W) (m : Tx W ℕ) (Missed : Type 0) : Type 0 where
  hit :
      (id : ℕ)
      → 0 < id
      → is_known db.books.rows id ≡ true
      → m (record { db = db; faults = [] }) ≡ some (id, record { db = db; faults = [] })
      → Lookup db m Missed
  miss :
      Missed
      → m (record { db = db; faults = [] }) ≡ some (0, record { db = db; faults = [] })
      → Lookup db m Missed

-- The id that a query on the books gives is one of a book.
known_positive :
    (rows : List Book) (id : ℕ)
    → All (λ (b : Book). 0 < b.id) rows
    → is_known rows id ≡ true
    → 0 < id
known_positive [] id h k = cc
known_positive (b ∷ rows) id h k = elim (Bool-cases (b.id == id)) [
  | inl e ↦ ground (arith, h.0)
  | inr e ↦ known_positive rows id h.1 (ground arith)
]

selected_known :
    (p : Book → Bool) (rows : List Book) (id : ℕ)
    → book_id? (first p rows) ≡ some id
    → is_known rows id ≡ true
selected_known p [] id e = cc
selected_known p (b ∷ rows) id e = elim (Bool-cases (p b)) [
  | inl h ↦ ground arith
  | inr h ↦ let rest = selected_known p rows id (ground arith) in ground arith
]

alias_known :
    (p : BookAlias → Bool) (books : List Book) (rows : List BookAlias) (id : ℕ)
    → All (λ (a : BookAlias). is_known books a.book_id ≡ true) rows
    → alias_book? (first p rows) ≡ some id
    → is_known books id ≡ true
alias_known p books [] id h e = cc
alias_known p books (a ∷ rows) id h e = elim (Bool-cases (p a)) [
  | inl k ↦ let same : a.book_id ≡ id = ground arith in rw same at h.0
  | inr k ↦ alias_known p books rows id h.1 (ground arith)
]

pub missed_books :
    (p : Book → Bool) (rows : List Book) → book_id? (first p rows) ≡ none → exists p rows ≡ false
missed_books p [] e = refl
missed_books p (b ∷ rows) e = ground (arith, missed_books p rows)

module _ {W : Type 0} (db : Db W) where
  try-Lookup :
      (b : Bool) (query : Db W → Option ℕ) (rest : Tx W ℕ) (Q : Type 0)
      → ((id : ℕ) → query db ≡ some id → (0 < id) × (is_known db.books.rows id ≡ true))
      → Lookup db rest Q
      → Lookup db (try b query rest) ((b ≡ false → query db ≡ none) × Q)
  unfolding try exec
  try-Lookup true query rest Q known (hit id p k e) = hit id p k e
  try-Lookup true query rest Q known (miss q e) = miss (λ h. cc, q) e
  try-Lookup false query rest Q known l = go (query db) refl l
    where
      go :
          (o : Option ℕ)
          → query db ≡ o
          → Lookup db rest Q
          → Lookup db (try false query rest) ((false ≡ false → query db ≡ none) × Q)
      go (some id) q l = hit id (known id q).0 (known id q).1 (rw (q, try))
      go none q (hit id p k e) = hit id p k (rw (q, try) e)
      go none q (miss m e) = miss (λ _. q, m) (rw (q, try) e)

  module _ (l : IsLinked db) where
    select_book-known :
        (p : Book → Bool) (id : ℕ)
        → select_book p db ≡ some id
        → (0 < id) × (is_known db.books.rows id ≡ true)
    select_book-known p id e =
        let k = selected_known p db.books.rows id e in
        (known_positive db.books.rows id l.positive k, k)

    pub select_alias-known :
        (source : Source) (key : Text) (id : ℕ)
        → select_alias source key db ≡ some id
        → (0 < id) × (is_known db.books.rows id ≡ true)
    select_alias-known source key id e =
        let k = alias_known (is_alias source key) db.books.rows db.aliases.rows id l.linked e in
        (known_positive db.books.rows id l.positive k, k)

    -- No column holds the text that was asked for.
    abbrev pub Missed : (Book → Option Text) → Text → Text → Type 0
    Missed column v stored =
        is_empty v ≡ false → select_book (λ b. column_is (column b) stored) db ≡ none

    abbrev pub MissedColumns : List ((Book → Option Text) × Text) → Type 0 → Type 0
    MissedColumns [] Q = Q
    MissedColumns ((column, v) ∷ ls) Q = Missed column v v × MissedColumns ls Q

    find_aliases-Lookup : (ls : List (Source × Text)) → Lookup db (find_aliases ls) (Unit {0})
    unfolding find_aliases
    find_aliases-Lookup [] = miss tt refl
    find_aliases-Lookup ((source, key) ∷ ls) = forget (
        try-Lookup (is_empty key) (select_alias source key) (find_aliases ls) (Unit {0})
          (select_alias-known source key) (find_aliases-Lookup ls))
      where
        forget : {m : Tx W ℕ} {Q : Type 0} → Lookup db m Q → Lookup db m (Unit {0})
        forget (hit id p k e) = hit id p k e
        forget (miss q e) = miss tt e

    find_columns-Lookup :
        (ls : List ((Book → Option Text) × Text)) (rest : Tx W ℕ) (Q : Type 0)
        → Lookup db rest Q
        → Lookup db (find_columns ls rest) (MissedColumns ls Q)
    unfolding find_columns
    find_columns-Lookup [] rest Q h = h
    find_columns-Lookup ((column, v) ∷ ls) rest Q h =
        try-Lookup (is_empty v) (select_book (λ b. column_is (column b) v)) (find_columns ls rest)
          (MissedColumns ls Q) (select_book-known (λ b. column_is (column b) v))
          (find_columns-Lookup ls rest Q h)

    abbrev pub MissedAll : Env → Evidence → Type 0
    MissedAll env ev =
        Missed (λ b. b.calibre_id) ev.calibre_id (env.affinity ev.calibre_id)
        × MissedColumns (text_columns ev) (Unit {0})

    pub find-Lookup :
        (env : Env) (ev : Evidence) → Lookup db (find_book_by_evidence env ev) (MissedAll env ev)
    unfolding find_book_by_evidence
    find-Lookup env ev =
        try-Lookup (is_empty ev.calibre_id)
          (select_book (λ b. column_is b.calibre_id (env.affinity ev.calibre_id)))
          (find_columns (text_columns ev) (find_aliases (alias_keys ev)))
          (MissedColumns (text_columns ev) (Unit {0}))
          (select_book-known (λ b. column_is b.calibre_id (env.affinity ev.calibre_id)))
          (find_columns-Lookup (text_columns ev) _ (Unit {0}) (find_aliases-Lookup (alias_keys ev)))
