-- ===== src/Core/Resolve/Frame.antt =====
-- What the resolution of a book leaves alone: all but the books and the aliases.
use readsync.Base.{
  ℕ, Bool, true, false, List, [], ◌∷◌, Option, none, some, ◌≡◌, refl, ◌∙◌, Text, is_empty, ltb,
  if◌then◌else◌, arith,
}
use readsync.Base.Double.{Double}
use readsync.Model.{Source, Book}
use readsync.Resolver.Bands.{Evidence}
use readsync.Resolver.Score.{Match, score}
use readsync.Core.Db.{Db, put_alias}
use readsync.Core.Tx.{Tx, ◌>>=◌, ret, fail, exec}
use readsync.Core.Tx.Moves.{Moves, fail-Moves, exec-Moves, ret-Moves, bind-Moves}
use readsync.Core.Resolve.{
  Env, try, find_columns, find_aliases, text_columns, alias_keys, added_book, find_book_by_evidence,
  load_book_evidence, create_book, insert_aliases, score_book, new_book, resolve_book,
  stored_evidence,
}

-- The progress of the books and what follows from it are the same.
pub record SameProgress {W : Type 0} (a b : Db W) : Type 0 where
  pub events : b.events ≡ a.events
  pub conflicts : b.conflicts ≡ a.conflicts
  pub canonical : b.canonical ≡ a.canonical
  pub outbox : b.outbox ≡ a.outbox

module _ {W : Type 0} where
  abbrev Keeps : {A : Type 0} → Tx W A → Type 0
  Keeps m = Moves SameProgress m

  same_refl : (db : Db W) → SameProgress db db
  same_refl db = record { events = refl; conflicts = refl; canonical = refl; outbox = refl }

  same_trans : (a b c : Db W) → SameProgress a b → SameProgress b c → SameProgress a c
  same_trans a b c h k = record {
    events = k.events ∙ h.events;
    conflicts = k.conflicts ∙ h.conflicts;
    canonical = k.canonical ∙ h.canonical;
    outbox = k.outbox ∙ h.outbox;
  }

  Keeps-ret : {A : Type 0} (a : A) → Keeps (ret a)
  Keeps-ret = ret-Moves SameProgress same_refl same_trans

  Keeps-fail : {A : Type 0} → Keeps {A = A} fail
  Keeps-fail = fail-Moves SameProgress

  Keeps-exec :
      {A : Type 0} (f : Db W → A × Db W) → ((db : Db W) → SameProgress db (f db).1) → Keeps (exec f)
  Keeps-exec = exec-Moves SameProgress

  Keeps-bind :
      {A B : Type 0} (m : Tx W A) (f : A → Tx W B)
      → Keeps m
      → ((a : A) → Keeps (f a))
      → Keeps (m >>= f)
  Keeps-bind = bind-Moves SameProgress same_refl same_trans

  Keeps-if : {A : Type 0} (b : Bool) (m k : Tx W A) → Keeps m → Keeps k → Keeps (if b then m else k)
  Keeps-if true m k hm hk = hm
  Keeps-if false m k hm hk = hk

  put_alias-same :
      (now book : ℕ) (source : Source) (key : Text) (db : Db W)
      → SameProgress db (put_alias now book source key db)
  put_alias-same now book source key db = ground arith

  create-same :
      (env : Env) (now : ℕ) (ev : Evidence) (db : Db W)
      → SameProgress db (added_book env now ev db).1
  create-same env now ev db = ground arith

  try-Keeps :
      (b : Bool) (query : Db W → Option ℕ) (rest : Tx W ℕ) → Keeps rest → Keeps (try b query rest)
  unfolding try
  try-Keeps true query rest h = h
  try-Keeps false query rest h =
      Keeps-bind _ _ (Keeps-exec _ (λ db. same_refl db)) λ r. hit_or_rest r
    where
      hit_or_rest : (r : Option ℕ) → Keeps (elim r [ none ↦ rest | some id ↦ ret id ])
      hit_or_rest none = h
      hit_or_rest (some id) = Keeps-ret id

  find_aliases-Keeps : (ls : List (Source × Text)) → Keeps (find_aliases {W = W} ls)
  unfolding find_aliases
  find_aliases-Keeps [] = Keeps-ret 0
  find_aliases-Keeps ((source, key) ∷ ls) = try-Keeps _ _ _ (find_aliases-Keeps ls)

  find_columns-Keeps :
      (ls : List ((Book → Option Text) × Text)) (rest : Tx W ℕ)
      → Keeps rest
      → Keeps (find_columns ls rest)
  unfolding find_columns
  find_columns-Keeps [] rest h = h
  find_columns-Keeps ((column, v) ∷ ls) rest h = try-Keeps _ _ _ (find_columns-Keeps ls rest h)

  find-Keeps : (env : Env) (ev : Evidence) → Keeps (find_book_by_evidence {W = W} env ev)
  unfolding find_book_by_evidence
  find-Keeps env ev =
      try-Keeps _ _ _ (find_columns-Keeps (text_columns ev) _ (find_aliases-Keeps (alias_keys ev)))

  load-Keeps : (id : ℕ) → Keeps (load_book_evidence {W = W} id)
  unfolding load_book_evidence
  load-Keeps id = Keeps-bind _ _ (Keeps-exec _ (λ db. same_refl db)) λ r. found r
    where
      found :
          (r : Option Book)
          → Keeps {A = Evidence} (elim r [ none ↦ fail | some b ↦ ret (stored_evidence b) ])
      found none = Keeps-fail
      found (some b) = Keeps-ret _

  create-Keeps : (env : Env) (now : ℕ) (ev : Evidence) → Keeps (create_book {W = W} env now ev)
  unfolding create_book
  create-Keeps env now ev = Keeps-bind _ _ (Keeps-exec _ (create-same env now ev)) λ r. created r
    where
      created : (r : Option ℕ) → Keeps {A = ℕ} (elim r [ none ↦ fail | some k ↦ ret k ])
      created none = Keeps-fail
      created (some k) = Keeps-ret k

  aliases-Keeps :
      (now book : ℕ) (ls : List (Source × Text)) → Keeps (insert_aliases {W = W} now book ls)
  unfolding insert_aliases
  aliases-Keeps now book [] = Keeps-ret tt
  aliases-Keeps now book ((source, key) ∷ ls) =
      Keeps-if (is_empty key) _ _ (aliases-Keeps now book ls) (
        Keeps-bind _ _ (Keeps-exec _ (put_alias-same now book source key))
          λ _. aliases-Keeps now book ls)

  module _ ⦃d : Double W⦄ where
    score_book-Keeps : (env : Env) (ev : Evidence) (book : ℕ) → Keeps (score_book env ev book)
    unfolding score_book
    score_book-Keeps env ev book =
        Keeps-bind _ _ (load-Keeps book) λ stored. scored (score env.unicode W ev stored)
      where
        scored :
            (m : Option Match)
            → Keeps {A = ℕ × ℕ} (elim m [ none ↦ fail | some m ↦ ret (book, m.confidence) ])
        scored none = Keeps-fail
        scored (some m) = Keeps-ret _

    pub resolve_book-Keeps : (env : Env) (now : ℕ) (ev : Evidence) → Keeps (resolve_book env now ev)
    unfolding resolve_book new_book
    resolve_book-Keeps env now ev = Keeps-bind _ _ (find-Keeps env ev) λ book.
        Keeps-if (ltb 0 book) _ _ (score_book-Keeps env ev book) (
          Keeps-bind _ _ (create-Keeps env now ev)
            λ book. Keeps-bind _ _ (aliases-Keeps now book (alias_keys ev)) λ _. Keeps-ret _)
