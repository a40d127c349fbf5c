-- ===== src/Resolver/Score/Signals.antt =====
-- What decides the score of two pieces of evidence.
use readsync.Base.{
  ℕ, ◌≤◌, Bool, true, false, ◌||◌, List, [], ◌∷◌, Option, none, some, ◌≡◌, ◌≢◌, refl, ◌↔◌, inl, inr,
  arith, exists, All, Bool-cases, Option-cases, Text, utf8, text_eq_refl,
}
use readsync.Base.Double.{Double}
use readsync.Resolver.Bands.{Evidence, writeback_enabled, evidence_quality}
use readsync.Resolver.Bands.Ladder.{writeback→le, le→writeback, identified}
use readsync.Resolver.Normalize.{Unicode, normalize}
use readsync.Resolver.Jaro.Matching.{jaro_winkler-IsTotal, IsTotal-of_ne_none}
use readsync.Resolver.Score.{
  Match, Signal, signals, hits, first_hit, title_match, author_match, score,
}

-- The scores of a list never rise, and stay below a bound.
abbrev Falling : ℕ → List Signal → Type 0
Falling n [] = Unit {0}
Falling n (s ∷ rest) = (s.score ≤ n) × Falling s.score rest

Falling-mono : (k n : ℕ) (l : List Signal) → k ≤ n → Falling k l → Falling n l
Falling-mono k n [] h f = tt
Falling-mono k n (s ∷ l) h f = (omega arith, f.1)

||-left : (a b : Bool) → a ≡ true → (a || b) ≡ true
||-left a b h = ground arith

||-right : (a b : Bool) → (a || b) ≡ false → b ≡ false
||-right a b h = ground arith

module _ (u : Unicode) where
  Falling-bound :
      (n : ℕ) (l : List Signal) → Falling n l → All (λ s. hits u s ≡ true → s.score ≤ n) l
  Falling-bound n [] f = tt
  Falling-bound n (s ∷ l) f = (λ h. f.0, Falling-bound n l (Falling-mono s.score n l f.0 f.1))

  -- What `first_hit` finds in a falling list: a strongest hit.
  first_hit_best :
      (n : ℕ) (l : List Signal) (m : Match)
      → Falling n l
      → first_hit u l ≡ some m
      → All (λ s. hits u s ≡ true → s.score ≤ m.confidence) l
        × (exists (hits u) l ≡ true)
        × ((k : ℕ) → All (λ s. k ≤ s.score) l → k ≤ m.confidence)
  unfolding first_hit
  first_hit_best n [] m f h = cc
  first_hit_best n (s ∷ l) m f h = elim (Bool-cases (hits u s)) [
    | inl e ↦
        let same : m.confidence ≡ s.score = ground arith in
        (
          (
            λ _. omega arith,
            Falling-bound m.confidence l (Falling-mono s.score _ l (omega arith) f.1),
          ),
          ground arith,
          λ k a. omega (arith, a.0),
        )
    | inr e ↦
        let (best, some_hit, least) = first_hit_best s.score l m f.1 (ground arith) in
        ((λ h. cc, best), ground arith, λ k a. least k a.1)
  ]

  first_hit-none : (l : List Signal) → first_hit u l ≡ none → exists (hits u) l ≡ false
  unfolding first_hit
  first_hit-none [] h = refl
  first_hit-none (s ∷ l) h = ground (arith, first_hit-none l)

  none_hit :
      (n : ℕ) (l : List Signal)
      → exists (hits u) l ≡ false
      → All (λ s. hits u s ≡ true → s.score ≤ n) l
  none_hit n [] h = tt
  none_hit n (s ∷ l) h =
      (λ e. cc (||-left (hits u s) (exists (hits u) l) e), none_hit n l (||-right (hits u s) _ h))

  signals-Falling : (ev stored : Evidence) → Falling 100 (signals ev stored)
  unfolding signals
  signals-Falling ev stored = omega arith

  signals_at_least : (ev stored : Evidence) → All (λ s. 65 ≤ s.score) (signals ev stored)
  unfolding signals
  signals_at_least ev stored = omega arith

  module _ (W : Type 0) ⦃d : Double W⦄ where
    fuzzy : Evidence → Evidence → Option Match
    fuzzy ev stored = author_match u W ev stored (title_match u W ev stored)

    fuzzy_low : (ev stored : Evidence) (m : Match) → fuzzy ev stored ≡ some m → m.confidence ≤ 55
    unfolding fuzzy title_match author_match
    fuzzy_low ev stored m h = ground arith

    fuzzy-ne-none : (ev stored : Evidence) → fuzzy ev stored ≢ none
    unfolding fuzzy title_match author_match
    fuzzy-ne-none ev stored =
        let total = λ (s t : Text).
          jaro_winkler-IsTotal {W = W} (utf8 (normalize u s)) (utf8 (normalize u t)) in
        let (a, p) = total ev.title stored.title in
        let (b, q) = total ev.author_sort stored.author_sort in rw (p, q) (ground arith)

    -- `score` always returns, and it permits writebacks exactly if one of the nine identifiers is
    -- provided on both sides and equal after `normalize`: a match of title and author never does.
    -- Its confidence is at least the score of every identifier that matches.
    pub score-writeback :
        (ev stored : Evidence)
        → (m : Match) × (score u W ev stored ≡ some m)
          × ((writeback_enabled m.confidence ≡ true) ↔ (exists (hits u) (signals ev stored) ≡ true))
          × All (λ s. hits u s ≡ true → s.score ≤ m.confidence) (signals ev stored)
    unfolding fuzzy score
    score-writeback ev stored = elim (Option-cases (first_hit u (signals ev stored))) [
      | inl e ↦
          let quiet = first_hit-none (signals ev stored) e in
          let (m, found) = IsTotal-of_ne_none (fuzzy ev stored) (fuzzy-ne-none ev stored) in
          let low = fuzzy_low ev stored m found in
          (
            m,
            rw (e, score) found,
            (λ h. absurd (omega (arith, writeback→le m.confidence h)), λ h. cc),
            none_hit m.confidence (signals ev stored) quiet,
          )
      | inr (m, e) ↦
          let (best, some_hit, least) =
            first_hit_best 100 (signals ev stored) m (signals-Falling ev stored) e in
          let high = least 65 (signals_at_least ev stored) in
          (m, rw (e, score), (λ h. some_hit, λ h. le→writeback m.confidence (omega arith)), best)
    ]

  first_hit_self :
      (ev : Evidence)
      → identified ev ≡ true
      → (m : Match) → first_hit u (signals ev ev) ≡ some m
      → m.confidence ≡ evidence_quality ev
  unfolding first_hit signals evidence_quality
  first_hit_self ev h m e = ground (
    arith,
    text_eq_refl (normalize u ev.file_hash),
    text_eq_refl (normalize u ev.epub_id),
    text_eq_refl (normalize u ev.calibre_id),
    text_eq_refl (normalize u ev.goodreads_id),
    text_eq_refl (normalize u ev.isbn13),
    text_eq_refl (normalize u ev.isbn10),
    text_eq_refl (normalize u ev.asin),
    text_eq_refl (normalize u ev.koreader_doc_hash),
    text_eq_refl (normalize u ev.moon_key),
  )

  first_hit_self-ne-none :
      (ev : Evidence) → identified ev ≡ true → first_hit u (signals ev ev) ≢ none
  unfolding first_hit signals
  first_hit_self-ne-none ev h = ground (
    arith,
    text_eq_refl (normalize u ev.file_hash),
    text_eq_refl (normalize u ev.epub_id),
    text_eq_refl (normalize u ev.calibre_id),
    text_eq_refl (normalize u ev.goodreads_id),
    text_eq_refl (normalize u ev.isbn13),
    text_eq_refl (normalize u ev.isbn10),
    text_eq_refl (normalize u ev.asin),
    text_eq_refl (normalize u ev.koreader_doc_hash),
    text_eq_refl (normalize u ev.moon_key),
  )

  -- Evidence with one of the nine identifiers scores against itself exactly what `evidence_quality`
  -- gives it.
  pub score_self :
      (W : Type 0) ⦃d : Double W⦄ (ev : Evidence)
      → identified ev ≡ true
      → (m : Match) × (score u W ev ev ≡ some m) × (m.confidence ≡ evidence_quality ev)
  unfolding score
  score_self W ev h =
      let (m, e) = IsTotal-of_ne_none (first_hit u (signals ev ev)) (first_hit_self-ne-none ev h) in
      (m, rw (e, score), first_hit_self ev h m e)
