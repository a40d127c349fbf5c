-- ===== src/Core/Resolve/Confidence.antt =====
-- The confidence in a book that is known only by the keys of its aliases.
use readsync.Base.{ℕ, Text, true, false, ◌||◌, [], some, ◌≡◌, arith, exists, Bool-cases, inl, inr}
use readsync.Base.Double.{Double}
use readsync.Model.{Book}
use readsync.Resolver.Bands.{Evidence, provided, band, writeback_enabled, evidence_quality}
use readsync.Resolver.Normalize.{Unicode}
use readsync.Resolver.Score.{Reason, Match, signals, hits, score}
use readsync.Resolver.Score.Signals.{score-writeback}
use readsync.Core.Resolve.{stored_evidence}

-- Of the nine identifiers only the hash of a KOReader document or the key of Moon+ is provided.
pub record HasOnlyAliases (ev : Evidence) : Type 0 where
  pub file_hash : provided ev.file_hash ≡ false
  pub epub_id : provided ev.epub_id ≡ false
  pub calibre_id : provided ev.calibre_id ≡ false
  pub goodreads_id : provided ev.goodreads_id ≡ false
  pub isbn13 : provided ev.isbn13 ≡ false
  pub isbn10 : provided ev.isbn10 ≡ false
  pub asin : provided ev.asin ≡ false
  pub alias : (provided ev.koreader_doc_hash || provided ev.moon_key) ≡ true

quality_writeback :
    (ev : Evidence) → HasOnlyAliases ev → writeback_enabled (evidence_quality ev) ≡ true
unfolding evidence_quality writeback_enabled band
quality_writeback ev h = ground (arith, h.alias)

unwanted :
    (u : Unicode) (got : Text) (n : ℕ) (reason : Reason)
    → hits u (record { got = got; want = []; score = n; reason = reason }) ≡ false
unwanted u got n reason = elim (Bool-cases (provided got)) [ inl p ↦ rw p | inr p ↦ rw p ]

no_hit :
    (u : Unicode) (ev : Evidence) (b : Book)
    → HasOnlyAliases ev
    → exists (hits u) (signals ev (stored_evidence b)) ≡ false
unfolding signals
no_hit u ev b h =
    rw (h.file_hash, h.epub_id, h.calibre_id, h.goodreads_id, h.isbn13, h.isbn10, h.asin)
      (rw (
        unwanted u ev.koreader_doc_hash 70 Reason.koreader_doc_hash,
        unwanted u ev.moon_key 65 Reason.moon_key,
      ))

-- A book whose evidence has only the keys of aliases is created with a confidence that permits
-- writebacks, but once it is stored, the same evidence scores a confidence that does not: the keys
-- are not among what is loaded of a stored book.
pub alias-no_writeback :
    (u : Unicode) (W : Type 0) ⦃d : Double W⦄ (ev : Evidence) (b : Book)
    → HasOnlyAliases ev
    → (writeback_enabled (evidence_quality ev) ≡ true)
      × (m : Match) × (score u W ev (stored_evidence b) ≡ some m)
      × (writeback_enabled m.confidence ≡ false)
alias-no_writeback u W ev b h =
    let (m, found, (permits, _), _) = score-writeback u W ev (stored_evidence b) in
    let quiet = no_hit u ev b h in
    (
      quality_writeback ev h,
      m,
      found,
      elim (Bool-cases (writeback_enabled m.confidence)) [
        | inl p ↦ let some_hit = permits p in cc
        | inr p ↦ p
      ],
    )
