-- ===== src/Resolver/Bands.antt =====
-- internal/resolver/resolver.go: the evidence, the bands of confidence, and what they permit.
pub mod Ladder
use readsync.Base.{ℕ, Bool, not, ◌&&◌, [], Text, is_empty, leb, if◌then◌else◌}

-- An empty text is an identifier that was not provided.
pub record Evidence : Type 0 where
  pub file_hash : Text
  pub epub_id : Text
  pub calibre_id : Text
  pub goodreads_id : Text
  pub isbn13 : Text
  pub isbn10 : Text
  pub asin : Text
  pub koreader_doc_hash : Text
  pub moon_key : Text
  pub title : Text
  pub author_sort : Text

abbrev pub no_evidence : Evidence
no_evidence = record {
  file_hash = [];
  epub_id = [];
  calibre_id = [];
  goodreads_id = [];
  isbn13 = [];
  isbn10 = [];
  asin = [];
  koreader_doc_hash = [];
  moon_key = [];
  title = [];
  author_sort = [];
}

pub data ConfidenceBand : Type 0 where
  quarantine user_review writeback_wary writeback_safe auto_resolve : ConfidenceBand

-- The value of a band as the integer that `iota` gives it.
abbrev pub rank : ConfidenceBand → ℕ
rank quarantine = 0
rank user_review = 1
rank writeback_wary = 2
rank writeback_safe = 3
rank auto_resolve = 4

unfoldable pub band : ℕ → ConfidenceBand
band confidence =
    if leb 95 confidence
    then auto_resolve
    else if leb 80 confidence
    then writeback_safe
    else if leb 60 confidence
    then writeback_wary
    else if leb 40 confidence
    then user_review
    else quarantine

unfoldable pub writeback_enabled : ℕ → Bool
unfolding band
writeback_enabled confidence = leb (rank writeback_wary) (rank (band confidence))

unfoldable pub auto_resolve_enabled : ℕ → Bool
unfolding band
auto_resolve_enabled confidence = leb (rank writeback_safe) (rank (band confidence))

abbrev pub provided : Text → Bool
provided s = not (is_empty s)

unfoldable pub evidence_quality : Evidence → ℕ
evidence_quality ev =
    if provided ev.file_hash
    then 100
    else if provided ev.epub_id
    then 97
    else if provided ev.calibre_id
    then 95
    else if provided ev.goodreads_id
    then 90
    else if provided ev.isbn13
    then 85
    else if provided ev.isbn10
    then 80
    else if provided ev.asin
    then 75
    else if provided ev.koreader_doc_hash
    then 70
    else if provided ev.moon_key
    then 65
    else if provided ev.title && provided ev.author_sort
    then 40
    else if provided ev.title
    then 20
    else 0
