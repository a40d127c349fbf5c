-- ===== src/Moon/RoundTrip.antt =====
-- A payload that the parser took, written with another percentage, is parsed again.
use readsync.Base.{
  ℕ, true, false, ◌&&◌, ◌||◌, not, &&-true, [], ◌∷◌, ◌++◌, Option, none, some, ◌≡◌, ◌≢◌, refl, sym,
  ap, ◌∙◌, Text, codes, map, is_empty, arith, Bool-cases, inl, inr, append_assoc,
}
use readsync.Base.Double.{Double}
use readsync.Base.Strings.{cut, cut_last, has_code, cut-some, cut_last-append}
use readsync.Resolver.Normalize.{Unicode, trim_space}
use readsync.Resolver.Normalize.Trim.{trim_space-head, trim_space-fixed}
use readsync.Moon.{
  FloatText, Format, Match, Parsed, Result, result, unknown_format, all_digits, is_digits,
  is_decimal, find_submatch, has_suffix, strip_po, book_key, fraction_of, read_percent, read_match,
  parse_po_v1, parse, ParseError,
}
use readsync.Moon.Layout.{layout, IsPlain, find_submatch-layout, find_submatch-IsPlain}
use readsync.Moon.Serializer.{payload, written_percent, with_prefix, serialize_v1_plain}

digits-no_colon : (s : Text) → all_digits s ≡ true → has_code b':' (s ++ codes "%") ≡ false
digits-no_colon [] h = refl
digits-no_colon (c ∷ s) h = ground (arith, digits-no_colon s)

digits-no_colon_before :
    (s t : Text)
    → all_digits s ≡ true
    → has_code b':' (t ++ codes "%") ≡ false
    → has_code b':' ((s ++ b'.' ∷ t) ++ codes "%") ≡ false
digits-no_colon_before [] t h k = ground arith
digits-no_colon_before (c ∷ s) t h k = ground (arith, digits-no_colon_before s t)

decimal-no_colon : (s : Text) → is_decimal s ≡ true → has_code b':' (s ++ codes "%") ≡ false
decimal-no_colon s h = go (cut b'.' s) refl
  where
    go : (o : Option (Text × Text)) → cut b'.' s ≡ o → has_code b':' (s ++ codes "%") ≡ false
    go none e =
        digits-no_colon s (&&-true (not (is_empty s)) (all_digits s) (rw (is_decimal, e) at h)).1
    go (some (whole, fraction)) e =
        let both : (is_digits whole && is_digits fraction) ≡ true = rw (is_decimal, e) at h in
        let (w, f) = &&-true (is_digits whole) (is_digits fraction) both in
        let whole' = (&&-true (not (is_empty whole)) (all_digits whole) w).1 in
        let fraction' = (&&-true (not (is_empty fraction)) (all_digits fraction) f).1 in
        rw (cut-some b'.' s whole fraction e).0
          (digits-no_colon_before whole fraction whole' (digits-no_colon fraction fraction'))

-- What stands before the colon of the percentage.
abbrev head : Match → Text
head m = m.file_id ++ b'*' ∷ (m.position ++ b'@' ∷ (m.chapter ++ b'#' ∷ m.scroll))

layout-head : (m : Match) → layout m ≡ head m ++ b':' ∷ (m.pct ++ codes "%")
layout-head m =
    let rest = b':' ∷ (m.pct ++ codes "%") in
    let from_scroll = sym (append_assoc m.chapter (b'#' ∷ m.scroll) rest) in
    let from_chapter =
      ap (λ x. m.position ++ b'@' ∷ x) from_scroll
      ∙ sym (append_assoc m.position (b'@' ∷ (m.chapter ++ b'#' ∷ m.scroll)) rest) in
    ap (λ x. m.file_id ++ b'*' ∷ x) from_chapter
    ∙ sym
        (append_assoc m.file_id (b'*' ∷ (m.position ++ b'@' ∷ (m.chapter ++ b'#' ∷ m.scroll))) rest)

-- Two texts with the same beginning, up to an asterisk: one is trimmed, the other ends with `%`.
trim_again :
    (u : Unicode) (file_id rest rest' init s : Text)
    → u.is_space b'%' ≡ false
    → trim_space u s ≡ file_id ++ b'*' ∷ rest
    → file_id ++ b'*' ∷ rest' ≡ init ++ b'%' ∷ []
    → trim_space u (file_id ++ b'*' ∷ rest') ≡ file_id ++ b'*' ∷ rest'
trim_again u [] rest rest' init s percent e ends =
    trim_space-fixed u b'*' b'%' rest' init (trim_space-head u s b'*' rest e) percent ends
trim_again u (c ∷ file_id) rest rest' init s percent e ends =
    let first = trim_space-head u s c (file_id ++ b'*' ∷ rest) e in
    trim_space-fixed u c b'%' (file_id ++ b'*' ∷ rest') init first percent ends

abbrev from_position : Match → Text
from_position m =
    m.position ++ b'@' ∷ (m.chapter ++ b'#' ∷ (m.scroll ++ b':' ∷ (m.pct ++ codes "%")))

module _ {W : Type 0} ⦃d : Double W⦄ (f : FloatText W) (u : Unicode) where
  -- What a parsed upload shows of its text.
  record Origin (filename body : Text) (r : Result W) : Type 0 where
    submatch : Match
    found : find_submatch (trim_space u body) ≡ some submatch
    suffix : has_suffix (map u.to_lower filename) (codes ".po") ≡ true
    format : r.format ≡ Format.v1_plain
    key : r.book_key ≡ book_key (strip_po filename) (trim_space u submatch.file_id)
    position : r.position ≡ trim_space u body

  abbrev result_or : Result W → Parsed W → Result W
  result_or r (unknown_format _) = r
  result_or r (result r') = r'

  refusal : (e : ParseError) (r : Result W) → ◌≢◌ {A = Parsed W} (unknown_format e) (result r)
  refusal e r h = cc

  module _ (filename body : Text) (received_at : ℕ) (r : Result W)
      (suffix : has_suffix (map u.to_lower filename) (codes ".po") ≡ true) where
    read_percent-result :
        (m : Match) (o : Option W)
        → find_submatch (trim_space u body) ≡ some m
        → read_percent u filename (trim_space u body) received_at m o ≡ result r
        → Origin filename body r
    read_percent-result m none found e = absurd (refusal _ r e)
    read_percent-result m (some pct) found e =
        elim (Bool-cases (d.lt pct (d.lit 0 0) || d.lt (d.lit 1005 1) pct)) [
          | inl h ↦ absurd (refusal _ r (rw h at e))
          | inr h ↦
              let taken : ◌≡◌ {A = Parsed W}
                  (result (record {
                    format = Format.v1_plain;
                    book_key = book_key (strip_po filename) (trim_space u m.file_id);
                    percent = fraction_of pct;
                    position = trim_space u body;
                    last_read_ts = received_at;
                  }))
                  (result r) =
                rw h at e in
              let same = ap (result_or r) taken in
              record {
                submatch = m;
                found = found;
                suffix = suffix;
                format = sym (ap (λ x. x.format) same);
                key = sym (ap (λ x. x.book_key) same);
                position = sym (ap (λ x. x.position) same);
              }
        ]

    read_match-result :
        (o : Option Match)
        → find_submatch (trim_space u body) ≡ o
        → read_match f u filename (trim_space u body) received_at o ≡ result r
        → Origin filename body r
    read_match-result none found e = absurd (refusal _ r e)
    read_match-result (some m) found e = read_percent-result m (f.parse m.pct) found e

  parse-result :
      (filename body : Text) (received_at : ℕ) (r : Result W)
      → parse f u filename body received_at ≡ result r
      → Origin filename body r
  unfolding parse parse_po_v1
  parse-result filename body received_at r e =
      elim (Bool-cases (has_suffix (map u.to_lower filename) (codes ".po"))) [
        | inl suffix ↦ elim (Bool-cases (is_empty (trim_space u body))) [
          | inl h ↦ absurd (refusal _ r (rw (suffix, h) at e))
          | inr h ↦
              read_match-result filename body received_at r suffix
                (find_submatch (trim_space u body)) refl (rw (suffix, h) at e)
        ]
        | inr suffix ↦ elim (Bool-cases (has_suffix (map u.to_lower filename) (codes ".an"))) [
          | inl h ↦ absurd (refusal _ r (rw (suffix, h) at e))
          | inr h ↦ absurd (refusal _ r (rw (suffix, h) at e))
        ]
      ]

  -- What `strconv` makes of a finite number that is not negative: digits, which are read as it again.
  pub record IsWritten (x : W) : Type 0 where
    pub decimal : is_decimal (f.format x) ≡ true
    pub read : f.parse (f.format x) ≡ some x
    pub not_negative : d.lt x (d.lit 0 0) ≡ false
    pub not_above : d.lt (d.lit 1005 1) x ≡ false

  abbrev with_pct : W → Match → Match
  with_pct x m = record m { pct = f.format x }

  with_pct-IsPlain : (x : W) (m : Match) → IsWritten x → IsPlain m → IsPlain (with_pct x m)
  with_pct-IsPlain x m w p = record {
    file_id = p.file_id;
    position = p.position;
    chapter = p.chapter;
    scroll = p.scroll;
    pct = w.decimal;
  }

  -- The new text begins with the character that the old one begins with, and ends with `%`.
  trim-layout :
      (x : W) (m : Match) (s : Text)
      → u.is_space b'%' ≡ false
      → trim_space u s ≡ layout m
      → trim_space u (layout (with_pct x m)) ≡ layout (with_pct x m)
  trim-layout x m s percent e =
      trim_again u m.file_id (from_position m) (from_position (with_pct x m))
        (head m ++ b':' ∷ f.format x) s percent e
        (layout-head (with_pct x m) ∙ sym (append_assoc (head m) (b':' ∷ f.format x) (b'%' ∷ [])))

  parse-of_match :
      (filename body : Text) (received_at : ℕ) (m : Match) (pct : W)
      → has_suffix (map u.to_lower filename) (codes ".po") ≡ true
      → trim_space u body ≡ body
      → find_submatch body ≡ some m
      → f.parse m.pct ≡ some pct
      → d.lt pct (d.lit 0 0) ≡ false
      → d.lt (d.lit 1005 1) pct ≡ false
      → parse f u filename body received_at
        ≡ result (record {
          format = Format.v1_plain;
          book_key = book_key (strip_po filename) (trim_space u m.file_id);
          percent = fraction_of pct;
          position = body;
          last_read_ts = received_at;
        })
  unfolding parse parse_po_v1
  parse-of_match filename [] received_at m pct suffix trimmed found read low high = ground arith
  parse-of_match filename (c ∷ body) received_at m pct suffix trimmed found read low high =
      rw (suffix, trimmed)
        (ap (read_match f u filename (c ∷ body) received_at) found
          ∙ ap (read_percent u filename (c ∷ body) received_at m) read
          ∙ rw (low, high) refl)

  -- Let a file be parsed, and let the percentage of the result be replaced by one that is neither below
  -- 0 nor above 1.0001. The writer then makes a payload, and the payload, uploaded under the same
  -- name, is parsed as the same format and book, with the percentage, cut to 1, as it is read back,
  -- provided that the number is written as digits that are read as the number.
  pub parse-serialize_v1_plain :
      (filename body : Text) (received_at received_at' : ℕ) (r : Result W) (new_percent : W)
      → u.is_space b'%' ≡ false
      → parse f u filename body received_at ≡ result r
      → d.lt new_percent (d.lit 0 0) ≡ false
      → d.lt (d.lit 10001 4) new_percent ≡ false
      → IsWritten (written_percent new_percent)
      → (out : Text) × (serialize_v1_plain f r new_percent ≡ payload out)
        × (parse f u filename out received_at'
            ≡ result (record {
              format = r.format;
              book_key = r.book_key;
              percent = fraction_of (written_percent new_percent);
              position = out;
              last_read_ts = received_at';
            }))
  unfolding parse parse_po_v1 serialize_v1_plain
  parse-serialize_v1_plain filename body received_at received_at' r new_percent percent e low high
        w =
      let o = parse-result filename body received_at r e in
      let m = o.submatch in
      let x = written_percent new_percent in
      let (text, plain) = (find_submatch-IsPlain (trim_space u body) m).0 o.found in
      let locator : r.position ≡ head m ++ b':' ∷ (m.pct ++ codes "%") =
        o.position ∙ text ∙ layout-head m in
      let cut_at : cut_last b':' r.position ≡ some (head m, m.pct ++ codes "%") =
        ap (cut_last b':') locator
        ∙ cut_last-append b':' (head m) (m.pct ++ codes "%") (decimal-no_colon m.pct plain.pct) in
      let plain' = with_pct-IsPlain x m w plain in
      let trimmed = trim-layout x m body percent text in
      (
        layout (with_pct x m),
        rw (o.format, low, high, cut_at, with_prefix, layout-head (with_pct x m)) refl,
        parse-of_match filename (layout (with_pct x m)) received_at' (with_pct x m) x o.suffix
              trimmed (find_submatch-layout (with_pct x m) plain') w.read w.not_negative w.not_above
            ∙ rw (o.format, o.key) refl,
      )
