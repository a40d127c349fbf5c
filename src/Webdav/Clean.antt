-- ===== src/Webdav/Clean.antt =====
-- Where an upload can lead: the archive stays below the data directory, and a user's names below the
-- user's own.
use readsync.Base.{
  Bool, false, not, List, [], ◌∷◌, ◌++◌, some, map, Text, codes, text_eq, ◌==◌, All, All-map,
  All-append, ◌≡◌, refl, sym, ap, ◌∙◌, arith, Bool-cases, inl, inr, select, append_assoc,
  append-nil,
}
use readsync.Base.Strings.{has_code, reverse_cons}
use readsync.Base.Strings.Split.{
  split_on, join_with, split-append, split-free, split-All, split-join, split-cons,
}
use mathlib.Core.List.{reverse}
use readsync.Webdav.{
  safe_name, safe_rel_path, clean_parts, clean, is_blank, rooted, archive_dir, scoped_name, parent,
}
use readsync.Webdav.Names.{
  starts_dot, has_dots, safe_name-has_dots, safe_name-no_slash, not-two_dots,
}

-- `path.Clean` of parts among which is no `..` leaves out the blank ones.
pub clean_parts-select :
    (names parts : List Text)
    → All (λ part. text_eq part (codes "..") ≡ false) parts
    → clean_parts names parts ≡ reverse names ++ select (λ part. not (is_blank part)) parts
clean_parts-select names [] h = sym (append-nil (reverse names))
clean_parts-select names (part ∷ parts) h = elim (Bool-cases (is_blank part)) [
  | inl k ↦ rw (clean_parts, k) (clean_parts-select names parts h.1)
  | inr k ↦
      let rest = select (λ part. not (is_blank part)) parts in
      rw (clean_parts, k, h.0)
        (clean_parts-select (part ∷ names) parts h.1
          ∙ ap (λ x. x ++ rest) (reverse_cons part names)
          ∙ append_assoc (reverse names) (part ∷ []) rest)
]

-- The parts of a text without two dots in a row hold none either.
split-has_dots :
    (s : Text)
    → has_dots s ≡ false
    → (part : Text) × (parts : List Text) × (split_on b'/' s ≡ part ∷ parts)
      × (starts_dot s ≡ false → starts_dot part ≡ false)
      × All (λ part. has_dots part ≡ false) (part ∷ parts)
split-has_dots [] h = ([], [], refl, λ k. k, (refl, tt))
split-has_dots (c ∷ s) h =
    let (part, parts, e, starts, free) = split-has_dots s (ground arith) in
    elim (Bool-cases (c == b'/')) [
      | inl k ↦ ([], part ∷ parts, rw (k, e) refl, λ _. refl, (refl, free))
      | inr k ↦ elim (Bool-cases (c == b'.')) [
        | inl dot ↦
            let first : starts_dot part ≡ false = starts (ground arith) in
            (c ∷ part, parts, rw (k, e) refl, λ x. x, (rw (dot, first) free.0, free.1))
        | inr dot ↦ (c ∷ part, parts, rw (k, e) refl, λ x. x, (rw dot free.0, free.1))
      ]
    ]

split-All-has_dots :
    (s : Text) → has_dots s ≡ false → All (λ part. has_dots part ≡ false) (split_on b'/' s)
split-All-has_dots s h = let (part, parts, e, _, free) = split-has_dots s h in rw e free

-- The names of a scoped path.
pub record IsName (name : Text) : Type 0 where
  pub not_blank : is_blank name ≡ false
  pub not_parent : text_eq name (codes "..") ≡ false
  pub one : has_code b'/' name ≡ false

All-parent : (names : List Text) → All IsName names → All IsName (parent names)
All-parent [] h = tt
All-parent (name ∷ names) h = h.1

All-reverse : (names : List Text) → All IsName names → All IsName (reverse names)
All-reverse [] h = tt
All-reverse (name ∷ names) h =
    rw (reverse_cons name names)
      (All-append IsName (reverse names) (name ∷ []) (All-reverse names h.1) (h.0, tt))

clean_parts-All :
    (names parts : List Text)
    → All IsName names
    → All (λ part. has_code b'/' part ≡ false) parts
    → All IsName (clean_parts names parts)
clean_parts-All names [] h k = All-reverse names h
clean_parts-All names (part ∷ parts) h k = elim (Bool-cases (is_blank part)) [
  | inl b ↦ rw (clean_parts, b) (clean_parts-All names parts h k.1)
  | inr b ↦ elim (Bool-cases (text_eq part (codes ".."))) [
    | inl e ↦ rw (clean_parts, b, e) (clean_parts-All (parent names) parts (All-parent names h) k.1)
    | inr e ↦
        let name : IsName part = record { not_blank = b; not_parent = e; one = k.0 } in
        rw (clean_parts, b, e) (clean_parts-All (part ∷ names) parts (name, h) k.1)
  ]
]

pub clean-All : (p : Text) → All IsName (clean p)
clean-All p = clean_parts-All [] (split_on b'/' p) tt (split-All b'/' p)

-- Names are left as they are.
clean_parts-names :
    (names parts : List Text) → All IsName parts → clean_parts names parts ≡ reverse names ++ parts
clean_parts-names names [] h = sym (append-nil (reverse names))
clean_parts-names names (part ∷ parts) h =
    rw (clean_parts, h.0.not_blank, h.0.not_parent)
      (clean_parts-names (part ∷ names) parts h.1
        ∙ ap (λ x. x ++ parts) (reverse_cons part names)
        ∙ append_assoc (reverse names) (part ∷ []) parts)

clean_parts-rooted :
    (names parts : List Text)
    → All IsName parts
    → clean_parts names ([] ∷ split_on b'/' (join_with b'/' parts)) ≡ reverse names ++ parts
clean_parts-rooted names [] h = clean_parts-names names [] tt
clean_parts-rooted names (part ∷ parts) h =
    ap (clean_parts names) (
      split-join b'/' part parts
        (All-map IsName (λ name. has_code b'/' name ≡ false) (λ name n. n.one) (part ∷ parts) h))
    ∙ clean_parts-names names (part ∷ parts) h

-- For a user whose name is the name of a directory, the scoped path of a name, whatever parts the
-- name has, is the directory `u`, that of the user, and the clean path of the name, in which no part
-- is empty, a dot, two dots or holds a slash.
pub scoped_name-user :
    (user name : Text)
    → IsName user
    → (scoped_name user name ≡ some (codes "u" ∷ user ∷ clean name, clean name))
      × All IsName (clean name)
scoped_name-user [] name u = absurd (ground (arith, u.not_blank))
scoped_name-user (c ∷ s) name u =
    let user = c ∷ s in
    let names = clean-All name in
    let parts : split_on b'/' (user ++ b'/' ∷ rooted (clean name))
        ≡ user ∷ [] ∷ split_on b'/' (join_with b'/' (clean name)) =
      split-append b'/' user (rooted (clean name))
      ∙ ap (λ x. x ++ split_on b'/' (rooted (clean name))) (split-free b'/' user u.one) in
    let scoped : clean_parts (codes "u" ∷ []) (split_on b'/' (user ++ b'/' ∷ rooted (clean name)))
        ≡ codes "u" ∷ user ∷ clean name =
      ap (clean_parts (codes "u" ∷ [])) parts
      ∙ rw (clean_parts, u.not_blank, u.not_parent)
          (clean_parts-rooted (user ∷ codes "u" ∷ []) (clean name) names) in
    (ap (λ x. some (x, clean name)) scoped, names)

map-safe_name :
    (parts : List Text)
    → All (λ part. has_code b'/' part ≡ false) parts
    → All (λ part. has_code b'/' part ≡ false) (map safe_name parts)
      × All (λ part. has_dots part ≡ false) (map safe_name parts)
map-safe_name [] h = (tt, tt)
map-safe_name (part ∷ parts) h =
    let (free, no_dots) = map-safe_name parts h.1 in
    ((safe_name-no_slash part h.0, free), (safe_name-has_dots part, no_dots))

split-safe_rel_path : (p : Text) → split_on b'/' (safe_rel_path p) ≡ map safe_name (split_on b'/' p)
split-safe_rel_path p = go (split_on b'/' p) (split-All b'/' p) (split-cons b'/' p)
  where
    go :
        (parts : List Text)
        → All (λ part. has_code b'/' part ≡ false) parts
        → (first : Text) × (rest : List Text) × (parts ≡ first ∷ rest)
        → split_on b'/' (join_with b'/' (map safe_name parts)) ≡ map safe_name parts
    go [] h (first, rest, e) = cc
    go (part ∷ parts) h _ =
        split-join b'/' (safe_name part) (map safe_name parts) (map-safe_name (part ∷ parts) h).0

abbrev pub inside : Text → Text → List Text
inside user clean_path = split_on b'/' (safe_name user) ++ map safe_name (split_on b'/' clean_path)

inside-All : (user p : Text) → All (λ part. has_dots part ≡ false) (inside user p)
inside-All user p =
    All-append (λ part. has_dots part ≡ false) (split_on b'/' (safe_name user))
      (map safe_name (split_on b'/' p))
      (split-All-has_dots (safe_name user) (safe_name-has_dots user))
      (map-safe_name (split_on b'/' p) (split-All b'/' p)).1

abbrev pub not_blank : Text → Bool
not_blank part = not (is_blank part)

All-select : (P : Text → Type 0) (parts : List Text) → All P parts → All P (select not_blank parts)
All-select P [] h = tt
All-select P (part ∷ parts) h = elim (Bool-cases (is_blank part)) [
  | inl b ↦ rw b (All-select P parts h.1)
  | inr b ↦ rw b (h.0, All-select P parts h.1)
]

-- The directory of an upload in the archive, whatever its user and its path are, is the directory
-- `raw` and below it the parts of the safe names, less those that are empty or a dot: no part of the
-- path leads up, as no name holds two dots in a row.
pub archive_dir-inside :
    (user clean_path : Text)
    → (archive_dir user clean_path ≡ codes "raw" ∷ select not_blank (inside user clean_path))
      × All (λ part. has_dots part ≡ false) (archive_dir user clean_path)
archive_dir-inside user clean_path =
    let rel = safe_rel_path clean_path in
    let parts = inside user clean_path in
    let whole : split_on b'/' (safe_name user ++ b'/' ∷ rel) ≡ parts =
      split-append b'/' (safe_name user) rel
      ∙ ap (λ x. split_on b'/' (safe_name user) ++ x) (split-safe_rel_path clean_path) in
    let free = inside-All user clean_path in
    let same : archive_dir user clean_path ≡ codes "raw" ∷ select not_blank parts =
      ap (clean_parts (codes "raw" ∷ [])) whole
      ∙ clean_parts-select (codes "raw" ∷ []) parts (
          All-map (λ part. has_dots part ≡ false) (λ part. text_eq part (codes "..") ≡ false)
            not-two_dots parts free) in
    (same, rw same (refl, All-select (λ part. has_dots part ≡ false) parts free))
