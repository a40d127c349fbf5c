-- ===== src/Base/Strings.antt =====
-- The package `strings` on texts: prefixes and suffixes, the text before and behind a separator,
-- the parts between separators, and the replacement of characters.
pub mod Split
use Prim.Native.Nat.{ℕ}
use mathlib.Core.Path.{◌≡◌, refl, sym, ap, ◌∙◌}
use mathlib.Core.Logic.{inl, inr}
use mathlib.Core.Bool.{Bool, true, false, not, ◌&&◌}
use mathlib.Core.Option.{Option, none, some}
use mathlib.Core.List.{List, [], ◌∷◌, ◌++◌, reverse, reverse_aux, append_assoc, append-nil}
use native.Mathlib.Omega.{arith}
use readsync.Base.Tests.{◌==◌, if◌then◌else◌, ==→≡, ==_refl, Bool-cases, Option-cases}
use readsync.Base.Codes.{Text}

abbrev pub has_code : ℕ → Text → Bool
has_code c [] = false
has_code c (d ∷ s) = if d == c then true else has_code c s

-- `strings.Cut` at one character: what stands before and behind its first occurrence.
abbrev pub cut_next : ℕ → Option (Text × Text) → Option (Text × Text)
cut_next d none = none
cut_next d (some (before, after)) = some (d ∷ before, after)

abbrev pub cut : ℕ → Text → Option (Text × Text)
cut c [] = none
cut c (d ∷ s) = let rest = cut c s in if d == c then some ([], s) else cut_next d rest

-- What stands before and behind the last occurrence, which `strings.LastIndex` finds.
abbrev cut_last_next : ℕ → ℕ → Text → Option (Text × Text) → Option (Text × Text)
cut_last_next c d s (some (before, after)) = some (d ∷ before, after)
cut_last_next c d s none = if d == c then some ([], s) else none

abbrev pub cut_last : ℕ → Text → Option (Text × Text)
cut_last c [] = none
cut_last c (d ∷ s) = cut_last_next c d s (cut_last c s)

pub cut-some :
    (c : ℕ) (s before after : Text)
    → cut c s ≡ some (before, after)
    → (s ≡ before ++ c ∷ after) × (has_code c before ≡ false)
cut-some c [] before after e = cc
cut-some c (d ∷ s) before after e = elim (Bool-cases (d == c)) [
  | inl h ↦
      let same : d ≡ c = ==→≡ d c h in
      let found : some ([], s) ≡ some (before, after) = rw h at e in
      let ahead : [] ≡ before = cc in
      let behind : s ≡ after = cc in (rw (same, sym ahead, sym behind) refl, rw (sym ahead) refl)
  | inr h ↦ elim (Option-cases (cut c s)) [
    | inl n ↦ ground arith
    | inr ((before', after'), n) ↦
        let (split, free) = cut-some c s before' after' n in
        let found : some (d ∷ before', after') ≡ some (before, after) = rw (h, n) at e in
        let behind : after' ≡ after = cc in
        let ahead : d ∷ before' ≡ before = cc in
        let text : d ∷ s ≡ (d ∷ before') ++ c ∷ after' = ap (λ x. d ∷ x) split in
        let free' : has_code c (d ∷ before') ≡ false = ground (arith, free) in
        (rw (sym ahead, sym behind) text, rw (sym ahead) free')
  ]
]

pub cut-append :
    (c : ℕ) (before after : Text)
    → has_code c before ≡ false
    → cut c (before ++ c ∷ after) ≡ some (before, after)
cut-append c [] after h = rw (==_refl c)
cut-append c (d ∷ before) after h = elim (Bool-cases (d == c)) [
  | inl e ↦ ground arith
  | inr e ↦ let rest = cut-append c before after (rw e at h) in rw (e, rest, cut_next) refl
]

cut_last-none : (c : ℕ) (s : Text) → has_code c s ≡ false → cut_last c s ≡ none
cut_last-none c [] h = refl
cut_last-none c (d ∷ s) h = elim (Bool-cases (d == c)) [
  | inl e ↦ ground arith
  | inr e ↦ let rest = cut_last-none c s (rw e at h) in rw (rest, e) refl
]

pub cut_last-append :
    (c : ℕ) (before after : Text)
    → has_code c after ≡ false
    → cut_last c (before ++ c ∷ after) ≡ some (before, after)
cut_last-append c [] after h = rw (cut_last-none c after h, ==_refl c) refl
cut_last-append c (d ∷ before) after h = rw (cut_last-append c before after h) refl

module _ {ℓ} {A : Type ℓ} where
  reverse_aux-append : (xs r : List A) → reverse_aux xs r ≡ reverse xs ++ r
  reverse_aux-append [] r = refl
  reverse_aux-append (x ∷ xs) r =
      reverse_aux-append xs (x ∷ r)
      ∙ sym (append_assoc (reverse xs) (x ∷ []) r)
      ∙ ap (λ y. y ++ r) (sym (reverse_aux-append xs (x ∷ [])))

  pub reverse_cons : (x : A) (xs : List A) → reverse (x ∷ xs) ≡ reverse xs ++ x ∷ []
  reverse_cons x xs = reverse_aux-append xs (x ∷ [])

  pub reverse-append : (xs ys : List A) → reverse (xs ++ ys) ≡ reverse ys ++ reverse xs
  reverse-append [] ys = sym (append-nil (reverse ys))
  reverse-append (x ∷ xs) ys =
      reverse_cons x (xs ++ ys)
      ∙ ap (λ y. y ++ x ∷ []) (reverse-append xs ys)
      ∙ append_assoc (reverse ys) (reverse xs) (x ∷ [])
      ∙ ap (λ y. reverse ys ++ y) (sym (reverse_cons x xs))

  pub reverse_twice : (xs : List A) → reverse (reverse xs) ≡ xs
  reverse_twice [] = refl
  reverse_twice (x ∷ xs) =
      ap reverse (reverse_cons x xs)
      ∙ reverse-append (reverse xs) (x ∷ [])
      ∙ ap (λ y. x ∷ y) (reverse_twice xs)
