-- ===== src/Webdav/Names.antt =====
-- Where an upload can lead: the archive stays below the data directory, and a user's names below the
-- user's own.
use readsync.Base.{
  ℕ, Bool, false, ◌&&◌, ◌||◌, List, [], ◌∷◌, Text, codes, is_empty, text_eq, ◌==◌, if◌then◌else◌,
  ◌≡◌, refl, arith, Bool-cases, inl, inr,
}
use readsync.Base.Strings.{has_code}
use readsync.Webdav.{replace_dots, replace_code, replace_codes, unsafe_codes, safe_name}

abbrev pub starts_dot : Text → Bool
starts_dot [] = false
starts_dot (c ∷ s) = c == b'.'

-- Two dots in a row.
abbrev pub has_dots : Text → Bool
has_dots [] = false
has_dots (c ∷ s) = (c == b'.' && starts_dot s) || has_dots s

replace_dots-starts_dot : (s : Text) → starts_dot s ≡ false → starts_dot (replace_dots s) ≡ false
replace_dots-starts_dot [] h = refl
replace_dots-starts_dot (c ∷ []) h = h
replace_dots-starts_dot (c ∷ d ∷ s) h = let k : (c == b'.') ≡ false = h in rw (replace_dots, k) h

replace_dots-has_dots : (s : Text) → has_dots (replace_dots s) ≡ false
replace_dots-has_dots [] = refl
replace_dots-has_dots (c ∷ []) = ground arith
replace_dots-has_dots (c ∷ d ∷ s) = elim (Bool-cases (c == b'.')) [
  | inl h ↦ elim (Bool-cases (d == b'.')) [
    | inl k ↦ rw (replace_dots, h, k) (replace_dots-has_dots s)
    | inr k ↦
        let starts = replace_dots-starts_dot (d ∷ s) k in
        rw (replace_dots, h, k, starts) (rw h (replace_dots-has_dots (d ∷ s)))
  ]
  | inr h ↦ rw (replace_dots, h) (rw h (replace_dots-has_dots (d ∷ s)))
]

replace_code-has_dots :
    (c : ℕ) (s : Text) → has_dots s ≡ false → has_dots (replace_code c s) ≡ false
replace_code-has_dots c [] h = refl
replace_code-has_dots c (d ∷ []) h = ground arith
replace_code-has_dots c (d ∷ e ∷ s) h = ground (arith, replace_code-has_dots c (e ∷ s))

replace_codes-has_dots :
    (cs : List ℕ) (s : Text) → has_dots s ≡ false → has_dots (replace_codes cs s) ≡ false
replace_codes-has_dots [] s h = h
replace_codes-has_dots (c ∷ cs) s h =
    replace_codes-has_dots cs (replace_code c s) (replace_code-has_dots c s h)

-- A name in the archive holds no two dots in a row, whatever the segment is.
pub safe_name-has_dots : (s : Text) → has_dots (safe_name s) ≡ false
unfolding safe_name
safe_name-has_dots s =
    go (replace_codes unsafe_codes (replace_dots s))
      (replace_codes-has_dots unsafe_codes (replace_dots s) (replace_dots-has_dots s))
  where
    go : (t : Text) → has_dots t ≡ false → has_dots (if is_empty t then codes "_" else t) ≡ false
    go [] h = refl
    go (c ∷ t) h = h

pub not-two_dots : (s : Text) → has_dots s ≡ false → text_eq s (codes "..") ≡ false
not-two_dots [] h = refl
not-two_dots (c ∷ []) h = ground arith
not-two_dots (c ∷ d ∷ s) h = ground arith

-- No name is made of a slash.
no_slash-cons :
    (c : ℕ) (s : Text)
    → has_code b'/' (c ∷ s) ≡ false
    → ((c == b'/') ≡ false) × (has_code b'/' s ≡ false)
no_slash-cons c s h = ground arith

replace_dots-no_slash :
    (s : Text) → has_code b'/' s ≡ false → has_code b'/' (replace_dots s) ≡ false
replace_dots-no_slash [] h = refl
replace_dots-no_slash (c ∷ []) h = h
replace_dots-no_slash (c ∷ d ∷ s) h = elim (Bool-cases (c == b'.' && d == b'.')) [
  | inl k ↦ let rest = replace_dots-no_slash s (ground arith) in rw (replace_dots, k) rest
  | inr k ↦
      let (first, rest) = no_slash-cons c (d ∷ s) h in
      let rest' = replace_dots-no_slash (d ∷ s) rest in rw (replace_dots, k, first, rest') refl
]

replace_code-no_slash :
    (c : ℕ) (s : Text) → has_code b'/' s ≡ false → has_code b'/' (replace_code c s) ≡ false
replace_code-no_slash c [] h = refl
replace_code-no_slash c (d ∷ s) h = ground (arith, replace_code-no_slash c s)

replace_codes-no_slash :
    (cs : List ℕ) (s : Text) → has_code b'/' s ≡ false → has_code b'/' (replace_codes cs s) ≡ false
replace_codes-no_slash [] s h = h
replace_codes-no_slash (c ∷ cs) s h =
    replace_codes-no_slash cs (replace_code c s) (replace_code-no_slash c s h)

pub safe_name-no_slash : (s : Text) → has_code b'/' s ≡ false → has_code b'/' (safe_name s) ≡ false
unfolding safe_name
safe_name-no_slash s h =
    go (replace_codes unsafe_codes (replace_dots s))
      (replace_codes-no_slash unsafe_codes (replace_dots s) (replace_dots-no_slash s h))
  where
    go :
        (t : Text)
        → has_code b'/' t ≡ false
        → has_code b'/' (if is_empty t then codes "_" else t) ≡ false
    go [] k = refl
    go (c ∷ t) k = k
