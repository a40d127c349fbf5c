-- ===== src/Conflicts.antt =====
-- internal/conflicts/engine.go: the precedence of sources, suspicious jumps, automatic resolution.
-- A reason is kept as data with its values; the `fmt` text that the code makes of it is not modelled.
pub mod Jumps
pub mod Winner
pub mod Tests
use readsync.Base.{ℕ, Bool, true, false, not, ◌&&◌, Option, none, some, ltb, if◌then◌else◌}
use readsync.Base.Int.{ℤ, int_eq, is_positive}
use readsync.Base.Double.{Double}
use readsync.Model.{
  Source, ReadStatus, LocationType, ProgressEvent, CanonicalProgress, source_eq, status_eq,
  location_eq,
}

unfoldable pub precedence : Source → ℕ
precedence Source.calibre = 1
precedence Source.koreader = 2
precedence Source.moon = 3
precedence Source.goodreads_bridge = 4
precedence Source.kindle_via_goodreads = 5
precedence Source.unset = 99
precedence (Source.other s) = 99

pub data JumpReason (W : Type 0) : Type 0 where
  backward_jump : W → W → JumpReason W
  goodreads_finished_early : W → JumpReason W
  page_count_change : ℤ → ℤ → JumpReason W
  low_confidence : ℕ → JumpReason W
  locator_type_change : LocationType → LocationType → JumpReason W

module _ {W : Type 0} ⦃d : Double W⦄ where
  -- Condition 1; what is checked after it is `rest`. So for those below.
  abbrev check_backward :
      CanonicalProgress W → ProgressEvent W → Option (JumpReason W) → Option (JumpReason W)
  check_backward canon ev rest = elim canon.percent_complete [
    | none ↦ rest
    | some before ↦ elim ev.percent_complete [
      | none ↦ rest
      | some after ↦
          if d.lt (d.lit 10 2) (d.sub before after)
            && not (status_eq ev.read_status ReadStatus.abandoned)
            && not (status_eq ev.read_status ReadStatus.not_started)
          then some (backward_jump before after)
          else rest
    ]
  ]

  abbrev check_finished :
      CanonicalProgress W → ProgressEvent W → Option (JumpReason W) → Option (JumpReason W)
  check_finished canon ev rest = elim canon.percent_complete [
    | none ↦ rest
    | some before ↦
        if source_eq ev.source Source.goodreads_bridge
          && status_eq ev.read_status ReadStatus.finished
          && d.lt before (d.lit 85 2)
        then some (goodreads_finished_early before)
        else rest
  ]

  abbrev check_pages :
      CanonicalProgress W → ProgressEvent W → Option (JumpReason W) → Option (JumpReason W)
  check_pages canon ev rest = elim canon.total_pages [
    | none ↦ rest
    | some before ↦ elim ev.total_pages [
      | none ↦ rest
      | some after ↦
          if not (int_eq before after) && is_positive before
          then some (page_count_change before after)
          else rest
    ]
  ]

  abbrev check_confidence : ProgressEvent W → Option (JumpReason W) → Option (JumpReason W)
  check_confidence ev rest =
      if ltb 0 ev.identity_confidence && ltb ev.identity_confidence 60
      then some (low_confidence ev.identity_confidence)
      else rest

  abbrev check_locator :
      CanonicalProgress W → ProgressEvent W → Option (JumpReason W) → Option (JumpReason W)
  check_locator canon ev rest =
      if not (location_eq canon.locator_type LocationType.unset)
        && not (location_eq ev.locator_type LocationType.unset)
        && not (location_eq canon.locator_type ev.locator_type)
        && not (location_eq canon.locator_type LocationType.raw)
        && not (location_eq ev.locator_type LocationType.raw)
      then some (locator_type_change canon.locator_type ev.locator_type)
      else rest

  -- `SuspiciousJump{}` is `none`, a suspicious one its reason.
  unfoldable pub detect_suspicious_jump :
      Option (CanonicalProgress W) → ProgressEvent W → Option (JumpReason W)
  detect_suspicious_jump none ev = none
  detect_suspicious_jump (some canon) ev = check_backward canon ev (
      check_finished canon ev
        (check_pages canon ev (check_confidence ev (check_locator canon ev none))))

pub record AutoResolveParams : Type 0 where
  pub trustworthy_timestamps : Bool
  pub confidence_high : Bool
  pub plausible_movement : Bool
  pub writeback_enabled : Bool
  pub no_user_pin : Bool

unfoldable pub can_auto_resolve : AutoResolveParams → Bool
can_auto_resolve p =
    p.trustworthy_timestamps && p.confidence_high && p.plausible_movement && p.writeback_enabled
    && p.no_user_pin

-- Why an event was chosen, with the values that the text shows: those of the winner first.
pub data WinReason : Type 0 where
  source_precedence : Source → ℕ → Source → ℕ → WinReason
  newer_timestamp : ℕ → ℕ → WinReason

pub record Choice (W : Type 0) : Type 0 where
  pub event : ProgressEvent W
  pub reason : WinReason

module _ {W : Type 0} where
  unfoldable pub effective_time : ProgressEvent W → ℕ
  effective_time ev = elim ev.device_ts [ none ↦ ev.received_at | some t ↦ t ]

  unfoldable pub choose_winner : ProgressEvent W → ProgressEvent W → Choice W
  unfolding precedence effective_time
  choose_winner a b =
      let pa = precedence a.source in
      let pb = precedence b.source in
      let at' = effective_time a in
      let bt = effective_time b in
      if ltb pa pb
      then record { event = a; reason = source_precedence a.source pa b.source pb }
      else if ltb pb pa
      then record { event = b; reason = source_precedence b.source pb a.source pa }
      else if ltb bt at'
      then record { event = a; reason = newer_timestamp at' bt }
      else record { event = b; reason = newer_timestamp bt at' }
