-- ===== src/Base/Strings/Split.antt =====
-- `strings.Split` and `strings.Join` at one character.
use Prim.Native.Nat.{ℕ}
use mathlib.Core.Path.{◌≡◌, refl, ap, ◌∙◌}
use mathlib.Core.Logic.{inl, inr}
use mathlib.Core.Bool.{false}
use mathlib.Core.List.{List, [], ◌∷◌, ◌++◌}
use native.Mathlib.Omega.{arith}
use readsync.Base.Tests.{◌==◌, if◌then◌else◌, ==_refl, Bool-cases}
use readsync.Base.Lists.{All}
use readsync.Base.Codes.{Text}
use readsync.Base.Strings.{has_code}

-- A character before the first part.
abbrev pub onto_first : ℕ → List Text → List Text
onto_first d [] = (d ∷ []) ∷ []
onto_first d (part ∷ parts) = (d ∷ part) ∷ parts

abbrev pub split_on : ℕ → Text → List Text
split_on c [] = [] ∷ []
split_on c (d ∷ s) = let rest = split_on c s in if d == c then [] ∷ rest else onto_first d rest

abbrev pub join_with : ℕ → List Text → Text
join_with c [] = []
join_with c (part ∷ []) = part
join_with c (part ∷ next ∷ parts) = part ++ c ∷ join_with c (next ∷ parts)

pub split-cons :
    (c : ℕ) (s : Text) → (part : Text) × (parts : List Text) × (split_on c s ≡ part ∷ parts)
split-cons c [] = ([], [], refl)
split-cons c (d ∷ s) = elim (Bool-cases (d == c)) [
  | inl h ↦ ([], split_on c s, rw h refl)
  | inr h ↦ let (part, parts, e) = split-cons c s in (d ∷ part, parts, rw (h, e) refl)
]

-- A separator in a text ends a part.
pub split-append : (c : ℕ) (s t : Text) → split_on c (s ++ c ∷ t) ≡ split_on c s ++ split_on c t
split-append c [] t = rw (==_refl c) refl
split-append c (d ∷ s) t = elim (Bool-cases (d == c)) [
  | inl h ↦ rw h (ap (λ x. [] ∷ x) (split-append c s t))
  | inr h ↦ let (part, parts, e) = split-cons c s in rw (h, split-append c s t, e) refl
]

-- A text without the separator is one part.
pub split-free : (c : ℕ) (s : Text) → has_code c s ≡ false → split_on c s ≡ s ∷ []
split-free c [] h = refl
split-free c (d ∷ s) h = elim (Bool-cases (d == c)) [
  | inl e ↦ ground arith
  | inr e ↦ let rest = split-free c s (rw e at h) in rw (e, rest) refl
]

-- No part holds the separator.
pub split-All : (c : ℕ) (s : Text) → All (λ part. has_code c part ≡ false) (split_on c s)
split-All c [] = (refl, tt)
split-All c (d ∷ s) = elim (Bool-cases (d == c)) [
  | inl h ↦ rw h (refl, split-All c s)
  | inr h ↦
      let (part, parts, e) = split-cons c s in
      let rest : All (λ part. has_code c part ≡ false) (part ∷ parts) = rw e at (split-All c s) in
      rw (h, e) (rw h rest.0, rest.1)
]

-- Parts without the separator, joined, are split into themselves.
pub split-join :
    (c : ℕ) (part : Text) (parts : List Text)
    → All (λ part. has_code c part ≡ false) (part ∷ parts)
    → split_on c (join_with c (part ∷ parts)) ≡ part ∷ parts
split-join c part [] h = split-free c part h.0
split-join c part (next ∷ parts) h =
    split-append c part (join_with c (next ∷ parts))
    ∙ rw (split-free c part h.0, split-join c next parts h.1) refl
