-- ===== src/Resolver/Score.antt =====
-- internal/resolver/resolver.go: `Score`. `none` is a panic of `jaro`.
pub mod Signals
use readsync.Base.{
  ℕ, Bool, ◌&&◌, List, [], ◌∷◌, Option, none, some, Text, text_eq, utf8, if◌then◌else◌,
}
use readsync.Base.Double.{Double}
use readsync.Resolver.Bands.{Evidence, provided}
use readsync.Resolver.Normalize.{Unicode, normalize}
use readsync.Resolver.Jaro.{jaro_winkler}

pub data Reason : Type 0 where
  file_hash epub_id calibre_id goodreads_id isbn13 isbn10 asin koreader_doc_hash moon_key : Reason
  fuzzy_title_author title_only no_match : Reason

pub record Match : Type 0 where
  pub confidence : ℕ
  pub reason : Reason

pub record Signal : Type 0 where
  pub got : Text
  pub want : Text
  pub score : ℕ
  pub reason : Reason

abbrev signal : Text → Text → ℕ → Reason → Signal
signal got want score reason = record { got = got; want = want; score = score; reason = reason }

unfoldable pub signals : Evidence → Evidence → List Signal
signals ev stored =
    signal ev.file_hash stored.file_hash 100 Reason.file_hash
    ∷ signal ev.epub_id stored.epub_id 97 Reason.epub_id
    ∷ signal ev.calibre_id stored.calibre_id 95 Reason.calibre_id
    ∷ signal ev.goodreads_id stored.goodreads_id 90 Reason.goodreads_id
    ∷ signal ev.isbn13 stored.isbn13 85 Reason.isbn13
    ∷ signal ev.isbn10 stored.isbn10 80 Reason.isbn10
    ∷ signal ev.asin stored.asin 75 Reason.asin
    ∷ signal ev.koreader_doc_hash stored.koreader_doc_hash 70 Reason.koreader_doc_hash
    ∷ signal ev.moon_key stored.moon_key 65 Reason.moon_key
    ∷ []

module _ (u : Unicode) where
  abbrev pub hits : Signal → Bool
  hits s = provided s.got && provided s.want && text_eq (normalize u s.got) (normalize u s.want)

  -- The loop over the signals.
  unfoldable pub first_hit : List Signal → Option Match
  first_hit [] = none
  first_hit (s ∷ rest) =
      if hits s then some (record { confidence = s.score; reason = s.reason }) else first_hit rest

  module _ (W : Type 0) ⦃d : Double W⦄ where
    similarity : Text → Text → Option W
    similarity s t = jaro_winkler (utf8 (normalize u s)) (utf8 (normalize u t))

    -- "Title-only fuzzy", and the result where nothing matched.
    title_match : Evidence → Evidence → Option Match
    unfolding similarity
    title_match ev stored =
        if provided ev.title && provided stored.title
        then elim (similarity ev.title stored.title) [
          | none ↦ none
          | some ts ↦ some (
              if d.le (d.lit 95 2) ts
              then record { confidence = 30; reason = title_only }
              else record { confidence = 0; reason = no_match })
        ]
        else some (record { confidence = 0; reason = no_match })

    -- "Fuzzy title + author"; what follows it is `rest`.
    author_match : Evidence → Evidence → Option Match → Option Match
    unfolding similarity
    author_match ev stored rest =
        if provided ev.title
          && provided stored.title
          && provided ev.author_sort
          && provided stored.author_sort
        then elim (similarity ev.title stored.title) [
          | none ↦ none
          | some ts ↦ elim (similarity ev.author_sort stored.author_sort) [
            | none ↦ none
            | some as' ↦
                if d.le (d.lit 92 2) ts && d.le (d.lit 88 2) as'
                then some (record { confidence = 55; reason = fuzzy_title_author })
                else rest
          ]
        ]
        else rest

    unfoldable pub score : Evidence → Evidence → Option Match
    unfolding signals first_hit title_match author_match
    score ev stored = elim (first_hit (signals ev stored)) [
      | some m ↦ some m
      | none ↦ author_match ev stored (title_match ev stored)
    ]
