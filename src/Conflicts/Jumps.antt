-- ===== src/Conflicts/Jumps.antt =====
-- Which events are suspicious.
use readsync.Base.{Bool, false, not, ◌&&◌, ◌||◌, Option, none, some, ◌≡◌, refl, arith, ltb, is_some}
use readsync.Base.Int.{int_eq, is_positive}
use readsync.Base.Double.{Double}
use readsync.Model.{
  Source, ReadStatus, LocationType, ProgressEvent, CanonicalProgress, source_eq, status_eq,
  location_eq,
}
use readsync.Conflicts.{
  JumpReason, check_backward, check_finished, check_pages, check_confidence, check_locator,
  detect_suspicious_jump,
}

abbrev pub on_both : {A : Type 0} → (A → A → Bool) → Option A → Option A → Bool
on_both test none b = false
on_both test (some a) none = false
on_both test (some a) (some b) = test a b

abbrev pub is_open : LocationType → Bool
is_open l = location_eq l LocationType.unset || location_eq l LocationType.raw

||-false : (b : Bool) → (b || false) ≡ b
||-false b = ground arith

or_regroup : (a b c : Bool) → (a || (b || c)) ≡ (a || b || c)
or_regroup a b c = ground arith

-- The five conditions of the specification, each by itself.
module _ {W : Type 0} ⦃d : Double W⦄ (canon : CanonicalProgress W) (ev : ProgressEvent W) where
  abbrev pub went_back : Bool
  went_back =
      on_both (λ before after. d.lt (d.lit 10 2) (d.sub before after)) canon.percent_complete
        ev.percent_complete
      && not (
          status_eq ev.read_status ReadStatus.abandoned
          || status_eq ev.read_status ReadStatus.not_started)

  abbrev pub finished_early : Bool
  finished_early =
      on_both (λ before _. d.lt before (d.lit 85 2)) canon.percent_complete canon.percent_complete
      && (source_eq ev.source Source.goodreads_bridge
          && status_eq ev.read_status ReadStatus.finished)

  abbrev pub pages_changed : Bool
  pages_changed =
      on_both (λ before after. is_positive before && not (int_eq before after)) canon.total_pages
        ev.total_pages

  abbrev pub weak_identity : Bool
  weak_identity = ltb 0 ev.identity_confidence && ltb ev.identity_confidence 60

  abbrev pub locator_changed : Bool
  locator_changed =
      not (is_open canon.locator_type || is_open ev.locator_type)
      && not (location_eq canon.locator_type ev.locator_type)

  module _ (rest : Option (JumpReason W)) where
    backward_lem : is_some (check_backward canon ev rest) ≡ (went_back || is_some rest)
    backward_lem = ground arith

    finished_lem : is_some (check_finished canon ev rest) ≡ (finished_early || is_some rest)
    finished_lem = ground arith

    pages_lem : is_some (check_pages canon ev rest) ≡ (pages_changed || is_some rest)
    pages_lem = ground arith

    confidence_lem : is_some (check_confidence ev rest) ≡ (weak_identity || is_some rest)
    confidence_lem = ground arith

    locator_lem : is_some (check_locator canon ev rest) ≡ (locator_changed || is_some rest)
    locator_lem = ground arith

  -- Against a canonical row an event is suspicious exactly if one of five conditions holds: it goes
  -- back by more than 0.10 and does not say abandoned or not started, it is Goodreads' claim of
  -- "finished" below 0.85, it changes a positive page count, its confidence is between 1 and 59, or
  -- it changes between two locator types other than raw. With no canonical row none is.
  pub detect-conditions :
      (is_some (detect_suspicious_jump (some canon) ev)
        ≡ (went_back || finished_early || pages_changed || weak_identity || locator_changed))
      × (detect_suspicious_jump none ev ≡ none)
  unfolding detect_suspicious_jump
  detect-conditions = (
    simp (backward_lem, finished_lem, pages_lem, confidence_lem, locator_lem, ||-false, or_regroup),
    refl,
  )
