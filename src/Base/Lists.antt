-- ===== src/Base/Lists.antt =====
-- Lists over the native numbers.
use Prim.Native.Nat.{ℕ, zero, suc, ◌+◌}
use mathlib.Core.Path.{◌≡◌, refl, ap}
use mathlib.Core.Logic.{inl, inr}
use mathlib.Core.Bool.{Bool, true, false, ◌||◌}
use mathlib.Core.Option.{Option, none, some}
use mathlib.Core.List.{List, [], ◌∷◌, ◌++◌}
use native.Mathlib.Omega.{arith}
use readsync.Base.Tests.{if◌then◌else◌, Bool-cases}

module _ {ℓ} {A : Type ℓ} where
  abbrev pub length : List A → ℕ
  length [] = 0
  length (x ∷ xs) = suc (length xs)

  abbrev pub get_elem? : List A → ℕ → Option A
  get_elem? [] i = none
  get_elem? (x ∷ xs) zero = some x
  get_elem? (x ∷ xs) (suc i) = get_elem? xs i

  -- A write out of bounds changes nothing.
  abbrev pub set : List A → ℕ → A → List A
  set [] i v = []
  set (x ∷ xs) zero v = v ∷ xs
  set (x ∷ xs) (suc i) v = x ∷ set xs i v

  abbrev pub replicate : ℕ → A → List A
  replicate zero x = []
  replicate (suc n) x = x ∷ replicate n x

  -- The rows of a table that a condition selects, in the order of the table.
  abbrev pub select : (A → Bool) → List A → List A
  select p [] = []
  select p (x ∷ xs) = if p x then x ∷ select p xs else select p xs

  -- The first row that a condition selects.
  abbrev pub first : (A → Bool) → List A → Option A
  first p [] = none
  first p (x ∷ xs) = if p x then some x else first p xs

  abbrev pub exists : (A → Bool) → List A → Bool
  exists p [] = false
  exists p (x ∷ xs) = p x || exists p xs

  abbrev pub All {κ} : (A → Type κ) → List A → Type κ
  All P [] = Unit
  All P (x ∷ xs) = P x × All P xs

  pub length-append : (xs ys : List A) → length (xs ++ ys) ≡ length xs + length ys
  length-append [] ys = omega arith
  length-append (x ∷ xs) ys = omega (arith, length-append xs ys)

  pub All-append {κ} : (P : A → Type κ) (xs ys : List A) → All P xs → All P ys → All P (xs ++ ys)
  All-append P [] ys h k = k
  All-append P (x ∷ xs) ys h k = (h.0, All-append P xs ys h.1 k)

  pub All-map {κ μ} :
      (P : A → Type κ) (Q : A → Type μ)
      → ((a : A) → P a → Q a)
      → (xs : List A) → All P xs
      → All Q xs
  All-map P Q f [] h = tt
  All-map P Q f (x ∷ xs) h = (f x h.0, All-map P Q f xs h.1)

  pub select-append :
      (p : A → Bool) (xs ys : List A) → select p (xs ++ ys) ≡ select p xs ++ select p ys
  select-append p [] ys = refl
  select-append p (x ∷ xs) ys = ground (arith, select-append p xs ys)

  pub All-at {κ} : (P : A → Type κ) (pre post : List A) (x : A) → All P (pre ++ x ∷ post) → P x
  All-at P [] post x h = h.0
  All-at P (y ∷ pre) post x h = All-at P pre post x h.1

  pub All-replace {κ} :
      (P : A → Type κ) (pre post : List A) (x y : A)
      → P y
      → All P (pre ++ x ∷ post)
      → All P (pre ++ y ∷ post)
  All-replace P [] post x y p h = (p, h.1)
  All-replace P (z ∷ pre) post x y p h = (h.0, All-replace P pre post x y p h.1)

  pub All-drop {κ} :
      (P : A → Type κ) (pre post : List A) (x : A) → All P (pre ++ x ∷ post) → All P (pre ++ post)
  All-drop P [] post x h = h.1
  All-drop P (z ∷ pre) post x h = (h.0, All-drop P pre post x h.1)

  -- Two facts of every element give a third.
  pub All-zip {κ μ ν} :
      {P : A → Type κ} {Q : A → Type μ} (S : A → Type ν)
      → ((a : A) → P a → Q a → S a)
      → (xs : List A) → All P xs
      → All Q xs
      → All S xs
  All-zip S f [] h k = tt
  All-zip S f (x ∷ xs) h k = (f x h.0 k.0, All-zip S f xs h.1 k.1)

  pub first-append_new :
      (p : A → Bool) (rs : List A) (r : A)
      → first p rs ≡ none
      → p r ≡ true
      → first p (rs ++ r ∷ []) ≡ some r
  first-append_new p [] r h k = rw k refl
  first-append_new p (r' ∷ rs) r h k = elim (Bool-cases (p r')) [
    | inl e ↦ ground arith
    | inr e ↦ let rest = first-append_new p rs r (rw e at h) k in rw (e, rest) refl
  ]

  pub first-append_other :
      (p : A → Bool) (rs : List A) (r : A) → p r ≡ false → first p (rs ++ r ∷ []) ≡ first p rs
  first-append_other p [] r k = rw k refl
  first-append_other p (r' ∷ rs) r k =
      let rest = first-append_other p rs r k in ap (λ x. if p r' then some r' else x) rest
