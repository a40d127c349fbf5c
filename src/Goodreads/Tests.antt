-- ===== src/Goodreads/Tests.antt =====
-- The bridge on a concrete observation and plugin.
use readsync.Base.{◌+◌, ◌≤◌, true, false, Option, none, some, ◌≡◌, ◌⊎◌, ◌↔◌, codes}
use readsync.Base.Double.{Thousandths, thousandths}
use readsync.Base.Stamp.{second}
use readsync.Model.{Source, ReadStatus, LocationType, CanonicalProgress, AdapterHealthState}
use readsync.Goodreads.{
  GoodreadsObservation, allow, evaluate_writeback, mode_guided_plugin, mode_unset,
  mode_experimental_direct, is_active, is_valid, Detection, new, start, write_progress,
}
use readsync.Goodreads.Gates.{Timely, Yields, evaluate_writeback-conditions}
use readsync.Goodreads.Bridge.{Ready, start-health}

abbrev local : CanonicalProgress Thousandths
local = record {
  book_id = 1;
  updated_at = 8;
  updated_by = Source.moon;
  event_id = 1;
  percent_complete = some (some 500);
  page_number = none;
  total_pages = none;
  raw_locator = none;
  locator_type = LocationType.percent;
  read_status = ReadStatus.reading;
  user_pinned = false;
}

abbrev observation : GoodreadsObservation Thousandths
observation = record {
  book_id = 1;
  percent_complete = none;
  shelf = codes "read";
  device_ts = some 9;
  identity_confidence = 95;
}

evaluate_writeback-conditions_example :
    (evaluate_writeback (some local) observation (100000 + second) ≡ allow) ↔ (
      (90 ≤ observation.identity_confidence)
      × Timely (100000 + second) observation.device_ts
      × Yields (100000 + second) (some local) observation)
evaluate_writeback-conditions_example =
    evaluate_writeback-conditions (100000 + second) (some local) observation

abbrev plugin : Option Detection
plugin = some (record { installed = true; progress_column_configured = true })

start-health_example :
    let (a, success) = start plugin (new mode_guided_plugin false) in
    ((a.health ≡ AdapterHealthState.ok) ↔ ((is_active mode_guided_plugin ≡ true) × Ready plugin))
    × ((success ≡ true) ↔ (
        ((is_valid mode_guided_plugin ≡ true) ⊎ (mode_guided_plugin ≡ mode_unset))
        × (mode_guided_plugin ≡ mode_experimental_direct → false ≡ true)))
    × (write_progress a ≡ is_active mode_guided_plugin)
start-health_example = start-health mode_guided_plugin false plugin
