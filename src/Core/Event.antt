-- ===== src/Core/Event.antt =====
-- internal/core/pipeline.go and pipeline_helpers.go: the event of an adapter, its validation and its
-- normal form.
pub mod Normal
use readsync.Base.{ℕ, Bool, true, false, ◌||◌, Option, none, some, Text, if◌then◌else◌}
use readsync.Base.Double.{Double}
use readsync.Base.Int.{ℤ}
use readsync.Model.{Source, ReadStatus, LocationType, source_eq, status_eq, location_eq}
use readsync.Resolver.Bands.{Evidence}

pub record AdapterEvent (W : Type 0) : Type 0 where
  pub book_evidence : Evidence
  pub source : Source
  pub device_ts : Option ℕ
  pub percent_complete : Option W
  pub page_number : Option ℤ
  pub total_pages : Option ℤ
  pub raw_locator : Option Text
  pub locator_type : LocationType
  pub read_status : ReadStatus

pub data Invalid : Type 0 where
  source_required percent_out_of_range : Invalid

module _ {W : Type 0} ⦃d : Double W⦄ where
  abbrev pub out_of_range : Option W → Bool
  out_of_range none = false
  out_of_range (some p) = d.lt p (d.lit 0 0) || d.lt (d.lit 101 2) p

  unfoldable pub validate_event : AdapterEvent W → Option Invalid
  validate_event ev =
      if source_eq ev.source Source.unset
      then some source_required
      else if out_of_range ev.percent_complete
      then some percent_out_of_range
      else none

  abbrev pub clamp_percent : W → W
  clamp_percent v =
      let v' = if d.lt (d.lit 1 0) v then d.lit 1 0 else v in
      if d.lt v' (d.lit 0 0) then d.lit 0 0 else v'

  unfoldable pub normalize_event : AdapterEvent W → AdapterEvent W
  normalize_event ev = record ev {
    percent_complete = elim ev.percent_complete [ none ↦ none | some p ↦ some (clamp_percent p) ];
    read_status =
        if status_eq ev.read_status ReadStatus.unset then ReadStatus.unknown else ev.read_status;
    locator_type =
        if location_eq ev.locator_type LocationType.unset
        then LocationType.raw
        else ev.locator_type;
  }
