-- ===== src/Core/Resolve/Steady.antt =====
-- A refused statement only stops the resolution of a book.
use readsync.Base.{ℕ, Bool, true, false, List, [], ◌∷◌, Option, none, some, Text, is_empty, ltb}
use readsync.Base.Double.{Double}
use readsync.Model.{Source, Book}
use readsync.Resolver.Bands.{Evidence}
use readsync.Resolver.Score.{Match, score}
use readsync.Core.Db.{Db}
use readsync.Core.Tx.{Tx, ret, fail}
use readsync.Core.Tx.Steady.{
  IsSteady, ret-IsSteady, fail-IsSteady, exec-IsSteady, bind-IsSteady, if-IsSteady,
}
use readsync.Core.Resolve.{
  Env, try, find_columns, find_aliases, text_columns, alias_keys, find_book_by_evidence,
  load_book_evidence, create_book, insert_aliases, score_book, new_book, resolve_book,
  stored_evidence,
}

module _ {W : Type 0} where
  try-IsSteady :
      (b : Bool) (query : Db W → Option ℕ) (rest : Tx W ℕ)
      → IsSteady rest
      → IsSteady (try b query rest)
  unfolding try
  try-IsSteady true query rest h = h
  try-IsSteady false query rest h = bind-IsSteady _ _ (exec-IsSteady _) λ r. hit_or_rest r
    where
      hit_or_rest : (r : Option ℕ) → IsSteady (elim r [ none ↦ rest | some id ↦ ret id ])
      hit_or_rest none = h
      hit_or_rest (some id) = ret-IsSteady id

  find_aliases-IsSteady : (ls : List (Source × Text)) → IsSteady (find_aliases {W = W} ls)
  unfolding find_aliases
  find_aliases-IsSteady [] = ret-IsSteady 0
  find_aliases-IsSteady ((source, key) ∷ ls) = try-IsSteady _ _ _ (find_aliases-IsSteady ls)

  find_columns-IsSteady :
      (ls : List ((Book → Option Text) × Text)) (rest : Tx W ℕ)
      → IsSteady rest
      → IsSteady (find_columns ls rest)
  unfolding find_columns
  find_columns-IsSteady [] rest h = h
  find_columns-IsSteady ((column, v) ∷ ls) rest h =
      try-IsSteady _ _ _ (find_columns-IsSteady ls rest h)

  find-IsSteady : (env : Env) (ev : Evidence) → IsSteady (find_book_by_evidence {W = W} env ev)
  unfolding find_book_by_evidence
  find-IsSteady env ev =
      try-IsSteady _ _ _
        (find_columns-IsSteady (text_columns ev) _ (find_aliases-IsSteady (alias_keys ev)))

  load-IsSteady : (id : ℕ) → IsSteady (load_book_evidence {W = W} id)
  unfolding load_book_evidence
  load-IsSteady id = bind-IsSteady _ _ (exec-IsSteady _) λ r. found r
    where
      found :
          (r : Option Book)
          → IsSteady {W = W} {A = Evidence}
              (elim r [ none ↦ fail | some b ↦ ret (stored_evidence b) ])
      found none = fail-IsSteady
      found (some b) = ret-IsSteady _

  create-IsSteady :
      (env : Env) (now : ℕ) (ev : Evidence) → IsSteady (create_book {W = W} env now ev)
  unfolding create_book
  create-IsSteady env now ev = bind-IsSteady _ _ (exec-IsSteady _) λ r. created r
    where
      created : (r : Option ℕ) → IsSteady {W = W} {A = ℕ} (elim r [ none ↦ fail | some k ↦ ret k ])
      created none = fail-IsSteady
      created (some k) = ret-IsSteady k

  aliases-IsSteady :
      (now book : ℕ) (ls : List (Source × Text)) → IsSteady (insert_aliases {W = W} now book ls)
  unfolding insert_aliases
  aliases-IsSteady now book [] = ret-IsSteady tt
  aliases-IsSteady now book ((source, key) ∷ ls) =
      if-IsSteady (is_empty key) _ _ (aliases-IsSteady now book ls)
        (bind-IsSteady _ _ (exec-IsSteady _) λ _. aliases-IsSteady now book ls)

  module _ ⦃d : Double W⦄ where
    score_book-IsSteady :
        (env : Env) (ev : Evidence) (book : ℕ) → IsSteady {W = W} (score_book env ev book)
    unfolding score_book
    score_book-IsSteady env ev book =
        bind-IsSteady _ _ (load-IsSteady book) λ stored. scored (score env.unicode W ev stored)
      where
        scored :
            (m : Option Match)
            → IsSteady {W = W} {A = ℕ × ℕ}
                (elim m [ none ↦ fail | some m ↦ ret (book, m.confidence) ])
        scored none = fail-IsSteady
        scored (some m) = ret-IsSteady _

    pub resolve_book-IsSteady :
        (env : Env) (now : ℕ) (ev : Evidence) → IsSteady {W = W} (resolve_book env now ev)
    unfolding resolve_book new_book
    resolve_book-IsSteady env now ev = bind-IsSteady _ _ (find-IsSteady env ev) λ book.
        if-IsSteady (ltb 0 book) _ _ (score_book-IsSteady env ev book) (
          bind-IsSteady _ _ (create-IsSteady env now ev) λ book.
            bind-IsSteady _ _ (aliases-IsSteady now book (alias_keys ev)) λ _. ret-IsSteady _)
