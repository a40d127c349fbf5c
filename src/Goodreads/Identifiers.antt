-- ===== src/Goodreads/Identifiers.antt =====
-- internal/adapters/goodreads_bridge/identifier.go: the report of the books without a Goodreads
-- identifier. `sort.Slice` is written as an insertion sort: it promises an order, and no way to it.
use readsync.Base.{
  ℕ, suc, ◌+◌, Bool, true, false, not, List, [], ◌∷◌, map, Text, is_empty, text_eq, ◌==◌, ltb,
  select, length, ◌≡◌, refl, sym, ap, ◌∙◌, arith, Bool-cases, inl, inr, if◌then◌else◌,
}
use mathlib.Core.List.Permᴰ
use mathlib.Core.List.{Permᴰ}
use readsync.Base.Double.{Double}
use readsync.Resolver.Normalize.{Unicode, trim_space}

pub record CalibreBookView : Type 0 where
  pub calibre_id : Text
  pub title : Text
  pub author_sort : Text
  pub goodreads_id : Text

pub record MissingIdReport : Type 0 where
  pub total : ℕ
  pub with_id : ℕ
  pub missing : List CalibreBookView

-- `<` on strings: the order of the bytes of UTF-8 is that of the code points.
abbrev pub text_lt : Text → Text → Bool
text_lt s [] = false
text_lt [] (d ∷ t) = true
text_lt (c ∷ s) (d ∷ t) = if c == d then text_lt s t else ltb c d

abbrev pub has_goodreads_id : Unicode → CalibreBookView → Bool
has_goodreads_id u b = not (is_empty (trim_space u b.goodreads_id))

-- The order of the report: by title in lower case, then by the Calibre id.
abbrev pub comes_before : Unicode → CalibreBookView → CalibreBookView → Bool
comes_before u a b =
    let ta = map u.to_lower a.title in
    let tb = map u.to_lower b.title in
    if text_eq ta tb then text_lt a.calibre_id b.calibre_id else text_lt ta tb

abbrev pub insert : Unicode → CalibreBookView → List CalibreBookView → List CalibreBookView
insert u x [] = x ∷ []
insert u x (y ∷ ys) =
    let rest = insert u x ys in if comes_before u y x then y ∷ rest else x ∷ y ∷ ys

abbrev pub sorted : Unicode → List CalibreBookView → List CalibreBookView
sorted u [] = []
sorted u (x ∷ xs) = insert u x (sorted u xs)

-- `BuildMissingIDReport`.
pub build_missing_id_report : Unicode → List CalibreBookView → MissingIdReport
build_missing_id_report u books = record {
  total = length books;
  with_id = length (select (has_goodreads_id u) books);
  missing = sorted u (select (λ b. not (has_goodreads_id u b)) books);
}

-- `HasGaps` and `Coverage`.
abbrev pub has_gaps : MissingIdReport → Bool
has_gaps r = ltb 0 (length r.missing)

abbrev pub coverage : {W : Type 0} ⦃d : Double W⦄ → MissingIdReport → W
coverage ⦃d⦄ r = if r.total == 0 then d.lit 0 0 else d.div (d.of_nat r.with_id) (d.of_nat r.total)

text_lt_asymm : (s t : Text) → text_lt s t ≡ true → text_lt t s ≡ false
text_lt_asymm s [] h = ground arith
text_lt_asymm [] (d ∷ t) h = refl
text_lt_asymm (c ∷ s) (d ∷ t) h = ground (arith, text_lt_asymm s t)

text_eq_comm : (s t : Text) → text_eq s t ≡ text_eq t s
text_eq_comm [] [] = refl
text_eq_comm [] (d ∷ t) = refl
text_eq_comm (c ∷ s) [] = refl
text_eq_comm (c ∷ s) (d ∷ t) = ground (arith, text_eq_comm s t)

comes_before_asymm :
    (u : Unicode) (a b : CalibreBookView) → comes_before u a b ≡ true → comes_before u b a ≡ false
comes_before_asymm u a b h =
    let ta = map u.to_lower a.title in
    let tb = map u.to_lower b.title in
    elim (Bool-cases (text_eq ta tb)) [
      | inl e ↦
          let e' : text_eq tb ta ≡ true = text_eq_comm tb ta ∙ e in
          rw e' (text_lt_asymm a.calibre_id b.calibre_id (rw e at h))
      | inr e ↦
          let e' : text_eq tb ta ≡ false = text_eq_comm tb ta ∙ e in
          rw e' (text_lt_asymm ta tb (rw e at h))
    ]

-- No book comes before the one ahead of it.
pub IsSorted : Unicode → List CalibreBookView → Type 0
IsSorted u [] = Unit
IsSorted u (x ∷ []) = Unit
IsSorted u (x ∷ y ∷ ys) = (comes_before u y x ≡ false) × IsSorted u (y ∷ ys)

insert-IsSorted :
    (u : Unicode) (x : CalibreBookView) (ys : List CalibreBookView)
    → IsSorted u ys
    → IsSorted u (insert u x ys)
unfolding IsSorted
insert-IsSorted u x [] h = tt
insert-IsSorted u x (y ∷ []) h = elim (Bool-cases (comes_before u y x)) [
  | inl e ↦ rw e (comes_before_asymm u y x e, tt)
  | inr e ↦ rw e (e, tt)
]
insert-IsSorted u x (y ∷ z ∷ ys) h = elim (Bool-cases (comes_before u y x)) [
  | inl e ↦
      let rest = insert-IsSorted u x (z ∷ ys) h.1 in
      elim (Bool-cases (comes_before u z x)) [
        | inl k ↦ rw (e, k) (h.0, rw k at rest)
        | inr k ↦ rw (e, k) (comes_before_asymm u y x e, rw k at rest)
      ]
  | inr e ↦ rw e (e, h)
]

sorted-IsSorted : (u : Unicode) (xs : List CalibreBookView) → IsSorted u (sorted u xs)
unfolding IsSorted
sorted-IsSorted u [] = tt
sorted-IsSorted u (x ∷ xs) = insert-IsSorted u x (sorted u xs) (sorted-IsSorted u xs)

insert-Perm :
    (u : Unicode) (x : CalibreBookView) (ys : List CalibreBookView) → Permᴰ (insert u x ys) (x ∷ ys)
insert-Perm u x [] = Permᴰ.refl (x ∷ [])
insert-Perm u x (y ∷ ys) = elim (Bool-cases (comes_before u y x)) [
  | inl e ↦ rw e (Permᴰ.trans (Permᴰ.cons refl (insert-Perm u x ys)) (Permᴰ.swap refl refl))
  | inr e ↦ rw e (Permᴰ.refl (x ∷ y ∷ ys))
]

sorted-Perm : (u : Unicode) (xs : List CalibreBookView) → Permᴰ (sorted u xs) xs
sorted-Perm u [] = Permᴰ.nil
sorted-Perm u (x ∷ xs) =
    Permᴰ.trans (insert-Perm u x (sorted u xs)) (Permᴰ.cons refl (sorted-Perm u xs))

length-insert :
    (u : Unicode) (x : CalibreBookView) (ys : List CalibreBookView)
    → length (insert u x ys) ≡ suc (length ys)
length-insert u x [] = refl
length-insert u x (y ∷ ys) = ground (arith, length-insert u x ys)

length-sorted : (u : Unicode) (xs : List CalibreBookView) → length (sorted u xs) ≡ length xs
length-sorted u [] = refl
length-sorted u (x ∷ xs) = length-insert u x (sorted u xs) ∙ ap suc (length-sorted u xs)

length-parts :
    (p : CalibreBookView → Bool) (xs : List CalibreBookView)
    → length xs ≡ length (select p xs) + length (select (λ b. not (p b)) xs)
length-parts p [] = refl
length-parts p (x ∷ xs) = ground (arith, length-parts p xs)

-- Every book of the report is counted once, as one with an identifier or as a missing one; the missing
-- ones are those whose identifier is empty or white space, each as often as it was given, and no one
-- of them comes before the one ahead of it by title in lower case and then by Calibre id.
build_missing_id_report-IsSorted :
    (u : Unicode) (books : List CalibreBookView)
    → let r = build_missing_id_report u books in
      (r.total ≡ r.with_id + length r.missing)
      × IsSorted u r.missing
      × Permᴰ r.missing (select (λ b. not (has_goodreads_id u b)) books)
unfolding build_missing_id_report
build_missing_id_report-IsSorted u books =
    let missing = select (λ b. not (has_goodreads_id u b)) books in
    (
      length-parts (has_goodreads_id u) books
          ∙ ap (λ n. length (select (has_goodreads_id u) books) + n)
              (sym (length-sorted u missing)),
      sorted-IsSorted u missing,
      sorted-Perm u missing,
    )
