-- ===== src/Resolver/Bands/Ladder.antt =====
-- What the bands permit, and how the evidence of a new book is ranked.
use readsync.Base.{ℕ, ◌≤◌, Bool, ◌||◌, true, ◌≡◌, ◌↔◌, arith}
use readsync.Resolver.Bands.{
  Evidence, provided, rank, band, writeback_enabled, auto_resolve_enabled, evidence_quality,
}

-- The permissions are thresholds of the confidence, and a higher confidence is never in a lower
-- band: writebacks need 60, the automatic resolution of conflicts needs 80.
pub permissions-thresholds :
    (c c' : ℕ)
    → ((writeback_enabled c ≡ true) ↔ (60 ≤ c))
      × ((auto_resolve_enabled c ≡ true) ↔ (80 ≤ c))
      × (c ≤ c' → rank (band c) ≤ rank (band c'))
unfolding writeback_enabled auto_resolve_enabled band
permissions-thresholds c c' = (
  (λ h. ground arith, λ h. ground arith),
  (λ h. ground arith, λ h. ground arith),
  λ h. ground arith,
)

pub writeback→le : (c : ℕ) → writeback_enabled c ≡ true → 60 ≤ c
writeback→le c = (permissions-thresholds c c).0.0

pub le→writeback : (c : ℕ) → 60 ≤ c → writeback_enabled c ≡ true
le→writeback c = (permissions-thresholds c c).0.1

-- Every identifier of `ev` is provided in `ev'` too, with whatever value.
pub record Covers (ev ev' : Evidence) : Type 0 where
  pub file_hash : provided ev.file_hash ≡ true → provided ev'.file_hash ≡ true
  pub epub_id : provided ev.epub_id ≡ true → provided ev'.epub_id ≡ true
  pub calibre_id : provided ev.calibre_id ≡ true → provided ev'.calibre_id ≡ true
  pub goodreads_id : provided ev.goodreads_id ≡ true → provided ev'.goodreads_id ≡ true
  pub isbn13 : provided ev.isbn13 ≡ true → provided ev'.isbn13 ≡ true
  pub isbn10 : provided ev.isbn10 ≡ true → provided ev'.isbn10 ≡ true
  pub asin : provided ev.asin ≡ true → provided ev'.asin ≡ true
  pub koreader_doc_hash :
      provided ev.koreader_doc_hash ≡ true → provided ev'.koreader_doc_hash ≡ true
  pub moon_key : provided ev.moon_key ≡ true → provided ev'.moon_key ≡ true
  pub title : provided ev.title ≡ true → provided ev'.title ≡ true
  pub author_sort : provided ev.author_sort ≡ true → provided ev'.author_sort ≡ true

-- Evidence that provides every field that another provides, with whatever values, is of no lower
-- quality.
pub evidence_quality_mono :
    (ev ev' : Evidence) → Covers ev ev' → evidence_quality ev ≤ evidence_quality ev'
unfolding evidence_quality
evidence_quality_mono ev ev' h = ground arith

-- One of the nine identifiers is provided; title and author are none.
abbrev pub identified : Evidence → Bool
identified ev =
    provided ev.file_hash
    || provided ev.epub_id
    || provided ev.calibre_id
    || provided ev.goodreads_id
    || provided ev.isbn13
    || provided ev.isbn10
    || provided ev.asin
    || provided ev.koreader_doc_hash
    || provided ev.moon_key

-- A new book is open to writebacks exactly if its evidence provides one of the nine identifiers;
-- title and author do not suffice.
pub quality-writeback :
    (ev : Evidence) → (writeback_enabled (evidence_quality ev) ≡ true) ↔ (identified ev ≡ true)
unfolding evidence_quality writeback_enabled band
quality-writeback ev = (λ h. ground arith, λ h. ground arith)
