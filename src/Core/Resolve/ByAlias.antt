-- ===== src/Core/Resolve/ByAlias.antt =====
-- Evidence that is the hash of a KOReader document only: the book that it means carries that hash.
use readsync.Base.{
  ℕ, ◌+◌, Bool, true, false, List, [], ◌∷◌, Option, none, some, ◌≡◌, refl, ◌∙◌, sym, ap, Text,
  is_empty, ltb, first, exists, Bool-cases, Option-cases, inl, inr, arith, text_eq, text_eq_refl,
}
use readsync.Base.Double.{Double}
use readsync.Base.Table.Rows.{first-append}
use readsync.Model.{Source, BookAlias}
use readsync.Resolver.Bands.{Evidence, no_evidence}
use readsync.Resolver.Score.Signals.{score-writeback}
use readsync.Core.Db.{Db, clashes, book_row, is_alias, put_book, put_alias}
use readsync.Core.Tx.{Session, ◌>>=◌, exec}
use readsync.Core.Resolve.{
  Env, alias_book?, try, select_alias, find_book_by_evidence, load_book_evidence, stored_evidence,
  score_book, create_book, insert_aliases, new_book, resolve_book,
}
use readsync.Core.Resolve.Lookup.{is_known, IsLinked, select_alias-known}
use readsync.Core.Resolve.Fresh.{found_known}

abbrev pub by_hash : Text → Evidence
by_hash document = record no_evidence { koreader_doc_hash = document }

missed_alias :
    (p : BookAlias → Bool) (rows : List BookAlias)
    → alias_book? (first p rows) ≡ none
    → exists p rows ≡ false
missed_alias p [] e = refl
missed_alias p (a ∷ rows) e = ground (arith, missed_alias p rows)

abbrev or_zero : Option ℕ → ℕ
or_zero none = 0
or_zero (some id) = id

module _ {W : Type 0} where
  abbrev at_rest : Db W → Session W
  at_rest db = record { db = db; faults = [] }

  find_by_hash :
      (env : Env) (document : Text) (db : Db W)
      → is_empty document ≡ false
      → find_book_by_evidence env (by_hash document) (at_rest db)
        ≡ some (or_zero (select_alias Source.koreader document db), at_rest db)
  unfolding find_book_by_evidence exec
  find_by_hash env document db h = elim (Option-cases (select_alias Source.koreader document db)) [
    | inl e ↦ rw (h, try, e)
    | inr (id, e) ↦ rw (h, try, e)
  ]

  -- Where a new row stands behind rows of which none is meant, it is the one that is found.
  put_alias-found :
      (now book : ℕ) (document : Text) (db : Db W)
      → exists (is_alias Source.koreader document) db.aliases.rows ≡ false
      → select_alias Source.koreader document (put_alias now book Source.koreader document db)
        ≡ some book
  put_alias-found now book document db h =
      let hits : text_eq document document ≡ true = text_eq_refl document in
      rw h (
        ap alias_book?
          (first-append (is_alias Source.koreader document) db.aliases.rows [] _ h hits))

  module _ ⦃d : Double W⦄ where
    score_book_lem :
        (env : Env) (ev : Evidence) (id : ℕ) (db : Db W)
        → is_known db.books.rows id ≡ true
        → (c : ℕ) × (score_book env ev id (at_rest db) ≡ some ((id, c), at_rest db))
    unfolding score_book load_book_evidence exec
    score_book_lem env ev id db k =
        let (b, found) = found_known db.books.rows id k in
        let (m, scored, _, _) = score-writeback env.unicode W ev (stored_evidence b) in
        (m.confidence, rw (found, ◌>>=◌, scored))

    new_book_lem :
        (env : Env) (now : ℕ) (document : Text) (db db' : Db W) (book confidence : ℕ)
        → is_empty document ≡ false
        → exists (is_alias Source.koreader document) db.aliases.rows ≡ false
        → new_book env now (by_hash document) (at_rest db) ≡ some ((book, confidence), at_rest db')
        → select_alias Source.koreader document db' ≡ some book
    unfolding new_book create_book insert_aliases exec
    new_book_lem env now document db db' book confidence h free e =
        elim (Bool-cases
          (exists (clashes (book_row env.affinity now (by_hash document) 0)) db.books.rows)) [
            | inl c ↦ let stopped = rw (c, ◌>>=◌) at e in cc
            | inr c ↦
                let ran = rw (c, ◌>>=◌, h) at e in
                let db1 = put_book env.affinity now (by_hash document) db in
                let id : db.books.seq + 1 ≡ book = cc in
                let same : put_alias now (db.books.seq + 1) Source.koreader document db1 ≡ db' =
                  cc in
                rw (← same, ← id) (put_alias-found now (db.books.seq + 1) document db1 free)
          ]

    -- On linked tables the book that the hash of a document is resolved to has that hash for alias.
    pub resolve_book-by_hash :
        (env : Env) (now : ℕ) (document : Text) (db db' : Db W) (book confidence : ℕ)
        → IsLinked db
        → is_empty document ≡ false
        → resolve_book env now (by_hash document) (at_rest db)
          ≡ some ((book, confidence), at_rest db')
        → select_alias Source.koreader document db' ≡ some book
    unfolding resolve_book
    resolve_book-by_hash env now document db db' book confidence l h e =
        let found = find_by_hash env document db h in
        elim (Option-cases (select_alias Source.koreader document db)) [
          | inl none_found ↦
              let free =
                missed_alias (is_alias Source.koreader document) db.aliases.rows none_found in
              new_book_lem env now document db db' book confidence h free
                (rw (found, ◌>>=◌, none_found) at e)
          | inr (id, known) ↦
              let (positive, there) = select_alias-known db l Source.koreader document id known in
              let (c, scored) = score_book_lem env (by_hash document) id db there in
              let above : ltb 0 id ≡ true = ground arith in
              let runs : resolve_book env now (by_hash document) (at_rest db)
                  ≡ some ((id, c), at_rest db) =
                rw (found ∙ ap (λ o. some (or_zero o, at_rest db)) known, ◌>>=◌, above) scored in
              let ran = sym runs ∙ e in
              let book_id : id ≡ book = cc in
              let same : db ≡ db' = cc in rw (← same, ← book_id) known
        ]
