-- ===== src/Resolver/Normalize/Trim.antt =====
-- The ends of what `strings.TrimSpace` returns, and the texts that it leaves as they are.
use readsync.Base.{ℕ, false, [], ◌∷◌, ◌++◌, ◌≡◌, refl, sym, ap, ◌∙◌, Text, Bool-cases, inl, inr}
use readsync.Base.Strings.{reverse-append, reverse_twice}
use readsync.Resolver.Normalize.{Unicode, trim_left, trim_space}
use mathlib.Core.List.{reverse}

-- The white space before what is left of a text.
leading : (u : Unicode) (s : Text) → (spaces : Text) × (s ≡ spaces ++ trim_left u s)
leading u [] = ([], refl)
leading u (c ∷ s) = elim (Bool-cases (u.is_space c)) [
  | inl h ↦ let (spaces, e) = leading u s in (c ∷ spaces, rw h (ap (λ x. c ∷ x) e))
  | inr h ↦ ([], rw h refl)
]

head_left :
    (u : Unicode) (s : Text) (c : ℕ) (t : Text) → trim_left u s ≡ c ∷ t → u.is_space c ≡ false
head_left u [] c t e = cc
head_left u (d ∷ s) c t e = elim (Bool-cases (u.is_space d)) [
  | inl h ↦ head_left u s c t (rw h at e)
  | inr h ↦ let found : d ∷ s ≡ c ∷ t = rw h at e in let same : d ≡ c = cc in rw (sym same) h
]

-- A trimmed text begins with no white space.
pub trim_space-head :
    (u : Unicode) (s : Text) (c : ℕ) (t : Text) → trim_space u s ≡ c ∷ t → u.is_space c ≡ false
trim_space-head u s c t e =
    let q = trim_left u s in
    let (spaces, split) = leading u (reverse q) in
    let whole : q ≡ trim_space u s ++ reverse spaces =
      sym (reverse_twice q) ∙ ap reverse split ∙ reverse-append spaces (trim_left u (reverse q)) in
    head_left u s c (t ++ reverse spaces) (whole ∙ ap (λ x. x ++ reverse spaces) e)

-- A text with no white space at its ends is left as it is.
pub trim_space-fixed :
    (u : Unicode) (c e : ℕ) (mid init : Text)
    → u.is_space c ≡ false
    → u.is_space e ≡ false
    → c ∷ mid ≡ init ++ e ∷ []
    → trim_space u (c ∷ mid) ≡ c ∷ mid
trim_space-fixed u c e mid init hc he ends =
    let back : reverse (c ∷ mid) ≡ e ∷ reverse init =
      ap reverse ends ∙ reverse-append init (e ∷ []) in
    let once : trim_left u (c ∷ mid) ≡ c ∷ mid = rw hc refl in
    let twice : trim_left u (reverse (c ∷ mid)) ≡ reverse (c ∷ mid) =
      ap (trim_left u) back ∙ rw he refl ∙ sym back in
    ap (λ x. reverse (trim_left u (reverse x))) once ∙ ap reverse twice ∙ reverse_twice (c ∷ mid)
