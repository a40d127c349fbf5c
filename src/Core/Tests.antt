-- ===== src/Core/Tests.antt =====
-- Runs of the pipeline on concrete events.
use mathlib.Core.Option.{some-injective}
use readsync.Base.{subst, ℕ, true, false, List, [], ◌∷◌, none, some, ◌≡◌, ◌⊎◌, refl, codes, first}
use readsync.Base.Double.{Thousandths, thousandths}
use readsync.Model.{Book, Source, ReadStatus, LocationType, CanonicalProgress}
use readsync.Conflicts.{backward_jump, detect_suspicious_jump, can_auto_resolve}
use readsync.Resolver.Bands.{Evidence, no_evidence, writeback_enabled, evidence_quality}
use readsync.Resolver.Normalize.{ascii, normalize}
use readsync.Core.Event.{AdapterEvent, normalize_event, validate_event}
use readsync.Core.Tx.{exec}
use readsync.Resolver.Score.{Match, score}
use readsync.Core.Resolve.Confidence.{alias-no_writeback}
use readsync.Core.Db.{Db, empty_db, of_book, book_row}
use readsync.Core.Resolve.{Env, resolve_book, stored_evidence}
use readsync.Core.Pipeline.{process, done, failed, writeback_targets}
use readsync.Core.Pipeline.Effect.{process_atomic, jump_in}
use readsync.Core.Pipeline.Pinned.{process-pinned}
use readsync.Core.Pipeline.Contents.{new_event, InConflict, InAgreement}
use readsync.Core.Pipeline.Contents.Cases.{
  Result, process-Result, process_conflict, process_agreement,
}
use readsync.Core.Pipeline.Integrity.{IsWhole}
use readsync.Core.Pipeline.Integrity.History.{Arrival, arrived, arrived-IsWhole, process-done}

abbrev env : Env
env = record { unicode = ascii; affinity = λ s. s }

abbrev sample : Evidence
sample = record no_evidence {
  file_hash = codes "f1";
  koreader_doc_hash = codes "d1";
  title = codes "Emma";
}

abbrev push : ℕ → AdapterEvent Thousandths
push percent = record {
  book_evidence = sample;
  source = Source.koreader;
  device_ts = none;
  percent_complete = some (some percent);
  page_number = none;
  total_pages = none;
  raw_locator = some (codes "/body/p[3]");
  locator_type = LocationType.unset;
  read_status = ReadStatus.reading;
}

abbrev one : Db Thousandths
one = (process env 7 [] (push 500) empty_db).1

-- The same book with the progress pinned.
abbrev pinned_row : CanonicalProgress Thousandths
pinned_row = record {
  book_id = 1;
  updated_at = 8;
  updated_by = Source.moon;
  event_id = 1;
  percent_complete = some (some 900);
  page_number = none;
  total_pages = none;
  raw_locator = none;
  locator_type = LocationType.percent;
  read_status = ReadStatus.reading;
  user_pinned = true;
}

abbrev pinned : Db Thousandths
pinned = record one { canonical = pinned_row ∷ [] }

abbrev arrivals : List (Arrival Thousandths)
arrivals =
    record { now = 7; faults = []; event = push 500 }
    ∷ record { now = 8; faults = false ∷ true ∷ []; event = push 600 }
    ∷ []

-- A push that goes back is a conflict with three blocked jobs, behind the three queued ones.
test_conflict :
    let db = (process env 9 [] (push 300) one).1 in (db.conflicts.seq ≡ 1) × (db.outbox.seq ≡ 6)
unfolding process validate_event exec normalize_event writeback_enabled evidence_quality
    writeback_targets score normalize detect_suspicious_jump can_auto_resolve resolve_book jump_in
test_conflict = (refl, refl)

process_atomic_example :
    (process env 7 (false ∷ true ∷ []) (push 500) empty_db ≡ (failed, empty_db))
    ⊎ (process env 7 (false ∷ true ∷ []) (push 500) empty_db ≡ process env 7 [] (push 500) empty_db)
process_atomic_example = process_atomic env 7 (false ∷ true ∷ []) (push 500) empty_db

process-Result_example : Result env 7 (push 500) empty_db (process env 7 [] (push 500) empty_db)
process-Result_example = process-Result env 7 (push 500) empty_db

abbrev row : CanonicalProgress Thousandths
row = record {
  book_id = 1;
  updated_at = 7;
  updated_by = Source.koreader;
  event_id = 1;
  percent_complete = some (some 500);
  page_number = none;
  total_pages = none;
  raw_locator = some (codes "/body/p[3]");
  locator_type = LocationType.raw;
  read_status = ReadStatus.reading;
  user_pinned = false;
}

process_conflict_example :
    ((process env 9 [] (push 300) one).0 ≡ done)
    × InConflict 9 1 100
        (normalize_event (push 300))
        row
        (backward_jump (some 500) (some 300))
        one
        (process env 9 [] (push 300) one).1
unfolding process validate_event exec normalize_event writeback_enabled evidence_quality
    writeback_targets score normalize detect_suspicious_jump can_auto_resolve resolve_book jump_in
process_conflict_example =
    process_conflict env 9 (push 300) one one 1 100 row (backward_jump (some 500) (some 300)) refl
      refl (record { row = refl; unpinned = refl; jump = refl })

process_agreement_example :
    ((process env 9 [] (push 600) one).0 ≡ done)
    × InAgreement 9 1 100 (normalize_event (push 600)) one (process env 9 [] (push 600) one).1
unfolding process validate_event exec normalize_event writeback_enabled evidence_quality
    writeback_targets score normalize detect_suspicious_jump can_auto_resolve resolve_book jump_in
process_agreement_example = process_agreement env 9 (push 600) one one 1 100 refl refl λ c e p.
    let same : row ≡ c = some-injective row c e in
    subst
      (λ r.
        detect_suspicious_jump (some r) (new_event 9 1 100 (normalize_event (push 600)) 2) ≡ none)
      same refl

process-pinned_example :
    first (of_book 1) (process env 9 [] (push 300) pinned).1.canonical ≡ some pinned_row
process-pinned_example = process-pinned env 9 1 [] (push 300) pinned pinned_row refl refl

arrived-IsWhole_example : IsWhole (arrived env arrivals empty_db)
arrived-IsWhole_example = arrived-IsWhole env arrivals

process-done_example : (process env 9 [] (push 300) (arrived env arrivals empty_db)).0 ≡ done
unfolding validate_event
process-done_example = process-done env arrivals 9 (push 300) refl

-- KOReader's evidence: the hash of the document only.
abbrev hash_only : Evidence
hash_only = record no_evidence { koreader_doc_hash = codes "d1" }

abbrev hash_book : Book
hash_book = book_row (λ s. s) 7 hash_only 1

alias-no_writeback_example :
    (writeback_enabled (evidence_quality hash_only) ≡ true)
    × (m : Match) × (score ascii Thousandths hash_only (stored_evidence hash_book) ≡ some m)
    × (writeback_enabled m.confidence ≡ false)
alias-no_writeback_example = alias-no_writeback ascii Thousandths hash_only hash_book (record {
  file_hash = refl;
  epub_id = refl;
  calibre_id = refl;
  goodreads_id = refl;
  isbn13 = refl;
  isbn10 = refl;
  asin = refl;
  alias = refl;
})
