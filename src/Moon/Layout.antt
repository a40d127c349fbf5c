-- ===== src/Moon/Layout.antt =====
-- The layout of a payload, `{file_id}*{position}@{chapter}#{scroll}:{pct}%`, as the texts that `poV1Re`
-- takes apart.
use readsync.Base.{
  true, false, [], ◌∷◌, ◌++◌, Option, none, some, ◌≡◌, refl, sym, ap, ◌∙◌, ◌↔◌, Text, codes, arith,
  Bool-cases, Option-cases, inl, inr, subst, ◌==◌, ==→≡,
}
use mathlib.Core.Option.{some-injective}
use readsync.Base.Strings.{cut, has_code, cut-some, cut-append}
use readsync.Moon.{
  Match, is_decimal, before_last, match_percent, match_scroll, match_chapter, match_position,
  match_file_id, find_submatch,
}

abbrev from_scroll : Text → Text → Text
from_scroll scroll pct = scroll ++ b':' ∷ (pct ++ codes "%")

abbrev from_chapter : Text → Text → Text → Text
from_chapter chapter scroll pct = chapter ++ b'#' ∷ from_scroll scroll pct

abbrev from_position : Text → Text → Text → Text → Text
from_position position chapter scroll pct = position ++ b'@' ∷ from_chapter chapter scroll pct

abbrev pub layout : Match → Text
layout m = m.file_id ++ b'*' ∷ from_position m.position m.chapter m.scroll m.pct

-- Each field holds no separator of its own, and the percentage is a decimal number.
pub record IsPlain (m : Match) : Type 0 where
  pub file_id : has_code b'*' m.file_id ≡ false
  pub position : has_code b'@' m.position ≡ false
  pub chapter : has_code b'#' m.chapter ≡ false
  pub scroll : has_code b':' m.scroll ≡ false
  pub pct : is_decimal m.pct ≡ true

before_last-append : (s : Text) → before_last (s ++ codes "%") ≡ some s
before_last-append [] = refl
before_last-append (c ∷ []) = refl
before_last-append (c ∷ d ∷ s) = rw (before_last-append (d ∷ s)) refl

before_last-some : (s t : Text) → before_last s ≡ some t → s ≡ t ++ codes "%"
before_last-some [] t e = cc
before_last-some (c ∷ []) t e = elim (Bool-cases (c == b'%')) [
  | inl h ↦
      let same : c ≡ b'%' = ==→≡ c b'%' h in
      let found : some [] ≡ some t = rw h at e in
      let whole : [] ≡ t = cc in rw (same, sym whole) refl
  | inr h ↦ ground arith
]
before_last-some (c ∷ d ∷ s) t e = elim (Option-cases (before_last (d ∷ s))) [
  | inl n ↦ ground arith
  | inr (rest, n) ↦
      let found : some (c ∷ rest) ≡ some t = rw n at e in
      let whole : c ∷ rest ≡ t = cc in
      rw (sym whole) (ap (λ x. c ∷ x) (before_last-some (d ∷ s) rest n))
]

pub find_submatch-layout : (m : Match) → IsPlain m → find_submatch (layout m) ≡ some m
find_submatch-layout m p =
    let l1 =
      cut-append b'*' m.file_id (from_position m.position m.chapter m.scroll m.pct) p.file_id in
    let l2 = cut-append b'@' m.position (from_chapter m.chapter m.scroll m.pct) p.position in
    let l3 = cut-append b'#' m.chapter (from_scroll m.scroll m.pct) p.chapter in
    let l4 = cut-append b':' m.scroll (m.pct ++ codes "%") p.scroll in
    ap match_file_id l1
    ∙ ap (match_position m.file_id) l2
    ∙ ap (match_chapter m.file_id m.position) l3
    ∙ ap (match_scroll m.file_id m.position m.chapter) l4
    ∙ ap (match_percent m.file_id m.position m.chapter m.scroll) (before_last-append m.pct)
    ∙ rw p.pct refl

abbrev fields : Text → Text → Text → Text → Text → Match
fields file_id position chapter scroll pct = record {
  file_id = file_id;
  position = position;
  chapter = chapter;
  scroll = scroll;
  pct = pct;
}

module _ (m : Match) where
  percent-some :
      (file_id position chapter scroll : Text) (o : Option Text)
      → match_percent file_id position chapter scroll o ≡ some m
      → (pct : Text) × (o ≡ some pct)
        × (fields file_id position chapter scroll pct ≡ m)
        × (is_decimal pct ≡ true)
  percent-some file_id position chapter scroll none e = cc
  percent-some file_id position chapter scroll (some pct) e = elim (Bool-cases (is_decimal pct)) [
    | inl h ↦
        (pct, refl, some-injective (fields file_id position chapter scroll pct) m (rw h at e), h)
    | inr h ↦ ground arith
  ]

  scroll-some :
      (file_id position chapter : Text) (o : Option (Text × Text))
      → match_scroll file_id position chapter o ≡ some m
      → (scroll pct : Text) × (o ≡ some (scroll, pct ++ codes "%"))
        × (fields file_id position chapter scroll pct ≡ m)
        × (is_decimal pct ≡ true)
  scroll-some file_id position chapter none e = cc
  scroll-some file_id position chapter (some (scroll, s)) e =
      let (pct, last, whole, h) = percent-some file_id position chapter scroll (before_last s) e in
      (scroll, pct, ap (λ x. some (scroll, x)) (before_last-some s pct last), whole, h)

  chapter-some :
      (file_id position : Text) (o : Option (Text × Text))
      → match_chapter file_id position o ≡ some m
      → (chapter scroll pct : Text) × (o ≡ some (chapter, from_scroll scroll pct))
        × (fields file_id position chapter scroll pct ≡ m)
        × (has_code b':' scroll ≡ false)
        × (is_decimal pct ≡ true)
  chapter-some file_id position none e = cc
  chapter-some file_id position (some (chapter, s)) e =
      let (scroll, pct, found, whole, h) = scroll-some file_id position chapter (cut b':' s) e in
      let (split, free) = cut-some b':' s scroll (pct ++ codes "%") found in
      (chapter, scroll, pct, ap (λ x. some (chapter, x)) split, whole, free, h)

  position-some :
      (file_id : Text) (o : Option (Text × Text))
      → match_position file_id o ≡ some m
      → (position chapter scroll pct : Text) × (o
          ≡ some (position, from_chapter chapter scroll pct))
        × (fields file_id position chapter scroll pct ≡ m)
        × (has_code b'#' chapter ≡ false)
        × (has_code b':' scroll ≡ false)
        × (is_decimal pct ≡ true)
  position-some file_id none e = cc
  position-some file_id (some (position, s)) e =
      let (chapter, scroll, pct, found, whole, free, h) =
        chapter-some file_id position (cut b'#' s) e in
      let (split, free') = cut-some b'#' s chapter (from_scroll scroll pct) found in
      (position, chapter, scroll, pct, ap (λ x. some (position, x)) split, whole, free', free, h)

  file_id-some :
      (o : Option (Text × Text))
      → match_file_id o ≡ some m
      → (o ≡ some (m.file_id, from_position m.position m.chapter m.scroll m.pct))
        × (has_code b'*' m.file_id ≡ false → IsPlain m)
  file_id-some none e = cc
  file_id-some (some (file_id, s)) e =
      let (position, chapter, scroll, pct, found, whole, free', free, h) =
        position-some file_id (cut b'@' s) e in
      let (split, free'') = cut-some b'@' s position (from_chapter chapter scroll pct) found in
      subst
        (λ n.
          ◌≡◌ {A = Option (Text × Text)} (some (file_id, s))
            (some (n.file_id, from_position n.position n.chapter n.scroll n.pct))
          × (has_code b'*' n.file_id ≡ false → IsPlain n))
        whole
        (
          ap (λ x. some (file_id, x)) split,
          λ first. record {
            file_id = first;
            position = free'';
            chapter = free';
            scroll = free;
            pct = h;
          },
        )

-- The regular expression matches a text exactly if the text is the layout of the five fields that it
-- returns, where the identifier of the file holds no asterisk, the position no at sign, the chapter
-- no hash sign, the scroll no colon, and the percentage is digits, or digits, a point and digits.
pub find_submatch-IsPlain :
    (s : Text) (m : Match) → (find_submatch s ≡ some m) ↔ ((s ≡ layout m) × IsPlain m)
find_submatch-IsPlain s m = (
  λ e.
      let (found, plain) = file_id-some m (cut b'*' s) e in
      let rest = from_position m.position m.chapter m.scroll m.pct in
      let (split, free) = cut-some b'*' s m.file_id rest found in (split, plain free),
  λ (e, p). ap find_submatch e ∙ find_submatch-layout m p,
)
