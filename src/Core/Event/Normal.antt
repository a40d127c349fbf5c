-- ===== src/Core/Event/Normal.antt =====
-- The normal form of an event.
use readsync.Base.{false, Option, none, some, ◌≡◌, ◌≢◌, refl, arith, if◌then◌else◌, ap}
use readsync.Base.Double.{Double, IsOrdered}
use readsync.Model.{ReadStatus, LocationType, status_eq, location_eq}
use readsync.Core.Event.{AdapterEvent, clamp_percent, normalize_event}

module _ {W : Type 0} ⦃d : Double W⦄ where
  abbrev pub InUnit : W → Type 0
  InUnit v = (d.lt (d.lit 1 0) v ≡ false) × (d.lt v (d.lit 0 0) ≡ false)

  abbrev pub OptionInUnit : Option W → Type 0
  OptionInUnit none = Unit {0}
  OptionInUnit (some v) = InUnit v

  pub record IsNormal (ev : AdapterEvent W) : Type 0 where
    pub percent : OptionInUnit ev.percent_complete
    pub status : ev.read_status ≢ ReadStatus.unset
    pub locator : ev.locator_type ≢ LocationType.unset

  module _ (o : IsOrdered W) where
    clamp-InUnit : (v : W) → InUnit (clamp_percent v)
    clamp-InUnit v =
        ground (arith, o.lt_irrefl (d.lit 0 0), o.lt_irrefl (d.lit 1 0), o.one-not-lt-zero)

    clamped-InUnit :
        (p : Option W) → OptionInUnit (elim p [ none ↦ none | some v ↦ some (clamp_percent v) ])
    clamped-InUnit none = tt
    clamped-InUnit (some v) = clamp-InUnit v

    normalize-IsNormal : (ev : AdapterEvent W) → IsNormal (normalize_event ev)
    unfolding normalize_event
    normalize-IsNormal ev = record {
      percent = clamped-InUnit ev.percent_complete;
      status = λ h. ground arith;
      locator = λ h. ground arith;
    }

  clamp_normal : (v : W) → InUnit v → clamp_percent v ≡ v
  clamp_normal v h = ground (arith, h.0, h.1)

  clamped_normal :
      (p : Option W) → OptionInUnit p → elim p [ none ↦ none | some v ↦ some (clamp_percent v) ] ≡ p
  clamped_normal none h = refl
  clamped_normal (some v) h = ap (λ x. some x) (clamp_normal v h)

  normalize_normal : (ev : AdapterEvent W) → IsNormal ev → normalize_event ev ≡ ev
  unfolding normalize_event
  normalize_normal ev h =
      let percent = clamped_normal ev.percent_complete h.percent in
      let status : (if status_eq ev.read_status ReadStatus.unset
            then ReadStatus.unknown
            else ev.read_status)
          ≡ ev.read_status =
        ground (arith, h.status) in
      let locator : (if location_eq ev.locator_type LocationType.unset
            then LocationType.raw
            else ev.locator_type)
          ≡ ev.locator_type =
        ground (arith, h.locator) in
      λ i. record ev {
        percent_complete = percent i;
        read_status = status i;
        locator_type = locator i;
      }

  -- On numbers that are ordered, the normal form of an event has a percentage that is neither above
  -- 1 nor below 0, a reading status and a type of locator, and a normal event is its own normal form.
  pub normalize_event-IsNormal :
      IsOrdered W
      → (ev : AdapterEvent W)
      → IsNormal (normalize_event ev) × (IsNormal ev → normalize_event ev ≡ ev)
  normalize_event-IsNormal o ev = (normalize-IsNormal o ev, normalize_normal ev)
