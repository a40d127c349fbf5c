-- ===== src/Conflicts/Tests.antt =====
-- Runs of the conflict engine on concrete events.
use readsync.Base.{ℕ, ◌≤◌, false, ◌||◌, none, some, ◌≡◌, ◌⊎◌, is_some}
use readsync.Base.Double.{Thousandths, thousandths}
use readsync.Model.{Source, ReadStatus, LocationType, ProgressEvent, CanonicalProgress}
use readsync.Conflicts.{precedence, effective_time, choose_winner, detect_suspicious_jump}
use readsync.Conflicts.Jumps.{
  went_back, finished_early, pages_changed, weak_identity, locator_changed, detect-conditions,
}
use readsync.Conflicts.Winner.{choose_winner_best}

abbrev event : Source → ℕ → ProgressEvent Thousandths
event source at' = record {
  id = 1;
  book_id = 1;
  source = source;
  received_at = at';
  device_ts = none;
  percent_complete = some (some 400);
  page_number = none;
  total_pages = none;
  raw_locator = none;
  locator_type = LocationType.percent;
  read_status = ReadStatus.reading;
  identity_confidence = 97;
}

abbrev canonical : CanonicalProgress Thousandths
canonical = record {
  book_id = 1;
  updated_at = 8;
  updated_by = Source.moon;
  event_id = 1;
  percent_complete = some (some 900);
  page_number = none;
  total_pages = none;
  raw_locator = none;
  locator_type = LocationType.percent;
  read_status = ReadStatus.reading;
  user_pinned = false;
}

detect-conditions_example :
    (is_some (detect_suspicious_jump (some canonical) (event Source.koreader 5)) ≡ (
      went_back canonical (event Source.koreader 5)
      || finished_early canonical (event Source.koreader 5)
      || pages_changed canonical (event Source.koreader 5)
      || weak_identity canonical (event Source.koreader 5)
      || locator_changed canonical (event Source.koreader 5)))
    × (detect_suspicious_jump none (event Source.koreader 5) ≡ none)
detect-conditions_example = detect-conditions canonical (event Source.koreader 5)

choose_winner_best_example :
    let a = event Source.moon 9 in
    let b = event Source.koreader 5 in
    let w = (choose_winner a b).event in
    ((w ≡ a) ⊎ (w ≡ b))
    × (precedence w.source ≤ precedence a.source)
    × (precedence w.source ≤ precedence b.source)
    × (precedence a.source ≡ precedence b.source
        → (effective_time a ≤ effective_time w) × (effective_time b ≤ effective_time w))
choose_winner_best_example = choose_winner_best (event Source.moon 9) (event Source.koreader 5)
