-- ===== src/Repair/Paths.antt =====
-- The path of a child stays below its root.
use readsync.Base.{
  Bool, true, false, ◌||◌, ◌==◌, List, [], ◌∷◌, ◌++◌, none, some, Text, codes, is_empty, text_eq,
  text_eq_refl, text_eq→≡, All-map, exists, select, select-append, All, All-append, ◌≡◌, ◌⊎◌, refl,
  sym, ap, ◌∙◌, arith, Bool-cases, inl, inr, if◌then◌else◌,
}
use mathlib.Core.Bool.{true≢false}
use readsync.Base.Strings.{has_code}
use readsync.Base.Strings.Split.{split_on, join_with, split-append, split-join}
use readsync.Webdav.{clean, clean_parts, rooted}
use readsync.Webdav.Clean.{IsName, not_blank, clean_parts-select}
use readsync.Repair.{
  is_abs, slashed, has_unsafe_path_component, begins_with, is_path_within, safe_child_path,
}

abbrev NotUp : Text → Type 0
NotUp part = text_eq part (codes "..") ≡ false

-- The parts of a text between slashes, and those between slashes of either kind: the first ones are the
-- same, or there is a backslash in the one.
record Parts (s : Text) : Type 0 where
  part : Text
  parts : List Text
  part' : Text
  parts' : List Text
  split : split_on b'/' s ≡ part ∷ parts
  split' : split_on b'/' (slashed s) ≡ part' ∷ parts'
  first : (part ≡ part') ⊎ (has_code b'\\' part ≡ true)
  up : All NotUp parts' → All NotUp parts

NotUp-first :
    (part part' : Text) → (part ≡ part') ⊎ (has_code b'\\' part ≡ true) → NotUp part' → NotUp part
NotUp-first part part' (inl e) h = rw e h
NotUp-first part part' (inr e) h = elim (Bool-cases (text_eq part (codes ".."))) [
  | inl k ↦
      let dots : part ≡ codes ".." = text_eq→≡ part (codes "..") k in
      absurd (true≢false (sym e ∙ ap (has_code b'\\') dots))
  | inr k ↦ k
]

Parts-of : (s : Text) → Parts s
Parts-of [] = record {
  part = [];
  parts = [];
  part' = [];
  parts' = [];
  split = refl;
  split' = refl;
  first = inl refl;
  up = λ h. h;
}
Parts-of (c ∷ s) =
    let p = Parts-of s in
    elim (Bool-cases (c == b'/')) [
      | inl slash ↦
          let other : (c == b'\\') ≡ false = ground arith in
          record {
            part = [];
            parts = p.part ∷ p.parts;
            part' = [];
            parts' = p.part' ∷ p.parts';
            split = rw (slash, p.split) refl;
            split' = rw (other, slash, p.split') refl;
            first = inl refl;
            up = λ h. (NotUp-first p.part p.part' p.first h.0, p.up h.1);
          }
      | inr slash ↦ elim (Bool-cases (c == b'\\')) [
        | inl back ↦ record {
          part = c ∷ p.part;
          parts = p.parts;
          part' = [];
          parts' = p.part' ∷ p.parts';
          split = rw (slash, p.split) refl;
          split' = rw (back, p.split') refl;
          first = inr (rw back refl);
          up = λ h. p.up h.1;
        }
        | inr back ↦ record {
          part = c ∷ p.part;
          parts = p.parts;
          part' = c ∷ p.part';
          parts' = p.parts';
          split = rw (slash, p.split) refl;
          split' = rw (back, slash, p.split') refl;
          first = elim p.first [
            | inl e ↦ inl (ap (λ x. c ∷ x) e)
            | inr e ↦ inr (rw (back, e) refl)
          ];
          up = p.up;
        }
      ]
    ]

exists-All :
    (parts : List Text) → exists (λ part. text_eq part (codes "..")) parts ≡ false → All NotUp parts
exists-All [] h = tt
exists-All (part ∷ parts) h = elim (Bool-cases (text_eq part (codes ".."))) [
  | inl e ↦ ground arith
  | inr e ↦ (e, exists-All parts (rw e at h))
]

safe-All :
    (child : Text) → has_unsafe_path_component child ≡ false → All NotUp (split_on b'/' child)
safe-All child h =
    let p = Parts-of child in
    let all : All NotUp (p.part' ∷ p.parts') =
      rw p.split' at (exists-All (split_on b'/' (slashed child)) h) in
    rw p.split (NotUp-first p.part p.part' p.first all.0, p.up all.1)

names-select : (root : List Text) → All IsName root → select not_blank root ≡ root
names-select [] h = refl
names-select (name ∷ root) h = rw h.0.not_blank (ap (λ x. name ∷ x) (names-select root h.1))

rooted-split :
    (root : List Text)
    → All IsName root
    → (select not_blank (split_on b'/' (rooted root)) ≡ root)
      × All NotUp (split_on b'/' (rooted root))
rooted-split [] h = (refl, (refl, (refl, tt)))
rooted-split (name ∷ root) h =
    let parts : split_on b'/' (join_with b'/' (name ∷ root)) ≡ name ∷ root =
      split-join b'/' name root
        (All-map IsName (λ n. has_code b'/' n ≡ false) (λ n k. k.one) (name ∷ root) h) in
    let up = All-map IsName NotUp (λ n k. k.not_parent) (name ∷ root) h in
    (ap (select not_blank) parts ∙ names-select (name ∷ root) h, (refl, rw parts up))

begins_with-append : (root names : List Text) → begins_with root (root ++ names) ≡ true
begins_with-append [] names = refl
begins_with-append (r ∷ root) names = rw (text_eq_refl r) (begins_with-append root names)

below :
    (root : List Text) (child : Text)
    → All IsName root
    → has_unsafe_path_component child ≡ false
    → clean (join_with b'/' (rooted root ∷ child ∷ []))
      ≡ root ++ select not_blank (split_on b'/' child)
below root child h safe =
    let (names, up) = rooted-split root h in
    let all =
      All-append NotUp (split_on b'/' (rooted root)) (split_on b'/' child) up
        (safe-All child safe) in
    ap (clean_parts []) (split-append b'/' (rooted root) child)
    ∙ clean_parts-select [] (split_on b'/' (rooted root) ++ split_on b'/' child) all
    ∙ select-append not_blank (split_on b'/' (rooted root)) (split_on b'/' child)
    ∙ ap (λ x. x ++ select not_blank (split_on b'/' child)) names

unsafe_of : (a b c : Bool) → (a || b || c) ≡ false → c ≡ false
unsafe_of a b c h = ground arith

or-true : (a b : Bool) → b ≡ true → (a || b) ≡ true
or-true a b h = ground arith

-- For a root that is an absolute clean path, and a child that is not empty, not absolute and has no
-- part `..` between slashes of either kind, `safeChildPath` gives the root and behind it the parts of
-- the child, less those that are empty or a dot; for every other child it gives an error.
pub safe_child_path-below :
    (fold : Text → Text) (root : List Text) (child : Text)
    → All IsName root
    → safe_child_path fold root child ≡ (
        if is_empty child || is_abs child || has_unsafe_path_component child
        then none
        else some (root ++ select not_blank (split_on b'/' child)))
unfolding safe_child_path
safe_child_path-below fold root child h =
    elim (Bool-cases (is_empty child || is_abs child || has_unsafe_path_component child)) [
      | inl e ↦ rw e refl
      | inr e ↦
          let joined =
            below root child h
              (unsafe_of (is_empty child) (is_abs child) (has_unsafe_path_component child) e) in
          let inside : is_path_within fold root (root ++ select not_blank (split_on b'/' child))
              ≡ true =
            or-true (text_eq (fold (rooted root)) _) _ (begins_with-append root _) in
          rw (e, joined, inside) refl
    ]
