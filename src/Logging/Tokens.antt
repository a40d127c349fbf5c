-- ===== src/Logging/Tokens.antt =====
-- What it means for a key to contain a token.
use readsync.Base.{
  Bool, true, ◌&&◌, List, [], ◌∷◌, ◌++◌, Option, none, some, ◌≡◌, refl, ◌∙◌, ap, sym, ◌↔◌, Text,
  text_eq, text_eq→≡, append-nil, utf8, map, exists, ◌==◌, Bool-cases, ==→≡, ==_refl, inl, inr,
  arith, &&-true,
}
use readsync.Resolver.Normalize.{Unicode}
use readsync.Logging.{
  is_boundary, after_prefix, right_ok, scan_tokens, token_contains, secret_keys, is_secret_key,
  redact_field,
}

-- The left end of a text, behind one for which `left_ok` says it.
abbrev pub ends_ok : Bool → Text → Bool
ends_ok left_ok [] = left_ok
ends_ok left_ok (c ∷ s) = ends_ok (is_boundary c) s

-- `needle` stands in `s` between boundaries: an underscore, a hyphen or an end.
pub record IsToken (left_ok : Bool) (s needle : Text) : Type 0 where
  pub before : Text
  pub after : Text
  pub split : s ≡ before ++ needle ++ after
  pub left : ends_ok left_ok before ≡ true
  pub right : right_ok (some after) ≡ true

after_prefix-some : (needle s rest : Text) → after_prefix needle s ≡ some rest → s ≡ needle ++ rest
after_prefix-some [] s rest e = cc
after_prefix-some (n ∷ ns) [] rest e = cc
after_prefix-some (n ∷ ns) (c ∷ s) rest e = elim (Bool-cases (c == n)) [
  | inl h ↦
      let same : c ≡ n = ==→≡ c n h in
      let tail = after_prefix-some ns s rest (ground arith) in λ i. same i ∷ tail i
  | inr h ↦ ground arith
]

after_prefix-append : (needle rest : Text) → after_prefix needle (needle ++ rest) ≡ some rest
after_prefix-append [] rest = refl
after_prefix-append (n ∷ ns) rest = rw (==_refl n) (after_prefix-append ns rest)

right_ok-some :
    (o : Option Text)
    → right_ok o ≡ true
    → (rest : Text) × (o ≡ some rest) × (right_ok (some rest) ≡ true)
right_ok-some none e = cc
right_ok-some (some rest) e = (rest, refl, e)

at_once :
    (left_ok : Bool) (s needle : Text)
    → (left_ok && right_ok (after_prefix needle s)) ≡ true
    → IsToken left_ok s needle
at_once left_ok s needle e =
    let (l, r) = &&-true left_ok (right_ok (after_prefix needle s)) e in
    let (rest, found, ok) = right_ok-some (after_prefix needle s) r in
    record {
      before = [];
      after = rest;
      split = after_prefix-some needle s rest found;
      left = l;
      right = ok;
    }

scan_tokens-IsToken :
    (needle : Text) (left_ok : Bool) (s : Text)
    → scan_tokens needle left_ok s ≡ true
    → IsToken left_ok s needle
unfolding scan_tokens
scan_tokens-IsToken needle left_ok [] e = at_once left_ok [] needle e
scan_tokens-IsToken needle left_ok (c ∷ s) e =
    elim (Bool-cases (left_ok && right_ok (after_prefix needle (c ∷ s)))) [
      | inl h ↦ at_once left_ok (c ∷ s) needle h
      | inr h ↦
          let t = scan_tokens-IsToken needle (is_boundary c) s (rw h at e) in
          record {
            before = c ∷ t.before;
            after = t.after;
            split = ap (λ x. c ∷ x) t.split;
            left = t.left;
            right = t.right;
          }
    ]

here_found :
    (needle after : Text) (left_ok : Bool) (s : Text)
    → s ≡ needle ++ after
    → left_ok ≡ true
    → right_ok (some after) ≡ true
    → (left_ok && right_ok (after_prefix needle s)) ≡ true
here_found needle after left_ok s e l r = rw (e, l, after_prefix-append needle after) r

token_scan :
    (needle before after : Text) (left_ok : Bool)
    → ends_ok left_ok before ≡ true
    → right_ok (some after) ≡ true
    → scan_tokens needle left_ok (before ++ needle ++ after) ≡ true
unfolding scan_tokens
token_scan needle [] after left_ok l r = go (needle ++ after) refl
  where
    go : (s : Text) → s ≡ needle ++ after → scan_tokens needle left_ok s ≡ true
    go [] e = here_found needle after left_ok [] e l r
    go (c ∷ s) e = let found = here_found needle after left_ok (c ∷ s) e l r in rw found refl
token_scan needle (c ∷ before) after left_ok l r =
    let rest = token_scan needle before after (is_boundary c) l r in ground (arith, rest)

-- A key contains a token exactly if the token stands in it between boundaries: an underscore, a
-- hyphen or an end of the key.
pub token_contains-IsToken :
    (s needle : Text) → (token_contains s needle ≡ true) ↔ IsToken true s needle
unfolding token_contains
token_contains-IsToken s needle = (
  λ h. elim (Bool-cases (text_eq s needle)) [
    | inl e ↦ record {
      before = [];
      after = [];
      split = text_eq→≡ s needle e ∙ sym (append-nil needle);
      left = refl;
      right = refl;
    }
    | inr e ↦ scan_tokens-IsToken needle true s (rw e at h)
  ],
  λ t.
      let scanned = token_scan needle t.before t.after true t.left t.right in
      let found : scan_tokens needle true s ≡ true = rw t.split scanned in ground (arith, found),
)

exists-of_eq :
    (p : Text → Bool) (t : Text) (ts : List Text)
    → exists (text_eq t) ts ≡ true
    → p t ≡ true
    → exists p ts ≡ true
exists-of_eq p t [] h k = cc
exists-of_eq p t (x ∷ ts) h k = elim (Bool-cases (text_eq t x)) [
  | inl e ↦ let same : t ≡ x = text_eq→≡ t x e in let hit : p x ≡ true = rw same at k in rw hit refl
  | inr e ↦ let rest = exists-of_eq p t ts (rw e at h) k in ground (arith, rest)
]

-- A field whose key, in lower case, contains one of the secret tokens is logged as the same text
-- whatever its value is.
pub redact_field-secret :
    (u : Unicode) (redact_value : Text → Text) (key secret : Text)
    → exists (text_eq secret) secret_keys ≡ true
    → IsToken true (utf8 (map u.to_lower key)) secret
    → (value value' : Text)
    → redact_field u redact_value key value ≡ redact_field u redact_value key value'
unfolding redact_field is_secret_key
redact_field-secret u redact_value key secret listed t value value' =
    let s = utf8 (map u.to_lower key) in
    let hit =
      exists-of_eq (token_contains s) secret secret_keys listed
        ((token_contains-IsToken s secret).1 t) in
    rw hit
