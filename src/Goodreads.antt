-- ===== src/Goodreads.antt =====
-- internal/adapters/goodreads_bridge: the modes of the bridge (modes.go), its state and operations
-- (goodreads.go) and the gates for what comes from Goodreads (stale.go).
pub mod Gates
pub mod Bridge
pub mod Identifiers
pub mod Tests
use readsync.Base.{
  ℕ, ◌+◌, ◌*◌, Bool, true, false, not, ◌&&◌, ◌||◌, List, [], ◌∷◌, Option, none, some, Text, codes,
  text_eq, ltb, if◌then◌else◌,
}
use readsync.Base.Double.{Double}
use readsync.Base.Stamp.{second}
use readsync.Model.{Source, CanonicalProgress, AdapterHealthState, source_eq}

-- `BridgeMode`; any other text is `unknown_mode`.
pub data BridgeMode : Type 0 where
  mode_disabled mode_manual_plugin mode_guided_plugin mode_companion_plugin : BridgeMode
  mode_experimental_direct mode_unset : BridgeMode
  unknown_mode : Text → BridgeMode

abbrev pub all_modes : List BridgeMode
all_modes =
    mode_disabled ∷ mode_manual_plugin ∷ mode_guided_plugin ∷ mode_companion_plugin
    ∷ mode_experimental_direct ∷ []

unfoldable pub is_valid : BridgeMode → Bool
is_valid mode_disabled = true
is_valid mode_manual_plugin = true
is_valid mode_guided_plugin = true
is_valid mode_companion_plugin = true
is_valid mode_experimental_direct = true
is_valid _ = false

unfoldable pub is_active : BridgeMode → Bool
is_active mode_manual_plugin = true
is_active mode_guided_plugin = true
is_active _ = false

abbrev pub local_change_recency : ℕ
local_change_recency = 24 * 3600 * second

abbrev pub min_confidence_for_writeback : ℕ
min_confidence_for_writeback = 90

abbrev pub hour : ℕ
hour = 3600 * second

pub record GoodreadsObservation (W : Type 0) : Type 0 where
  pub book_id : ℕ
  pub percent_complete : Option W
  pub shelf : Text
  pub device_ts : Option ℕ
  pub identity_confidence : ℕ

-- The `Reason` of a `WritebackDecision`.
pub data Decision : Type 0 where
  allow confidence_below_gate missing_device_ts device_ts_in_future : Decision
  recent_local_change goodreads_bridge_stale : Decision

module _ {W : Type 0} ⦃d : Double W⦄ where
  abbrev pub finishes : Option W → Bool
  finishes none = false
  finishes (some p) = d.le (d.lit 1 0) p

  abbrev pub falls_short : Option W → Bool
  falls_short none = false
  falls_short (some p) = not (d.le (d.lit 85 2) p)

  abbrev pub finished_claim : GoodreadsObservation W → Bool
  finished_claim obs =
      if finishes obs.percent_complete then true else text_eq obs.shelf (codes "read")

  -- `Stale` of `DetectStaleFinished`.
  pub detect_stale_finished : Option (CanonicalProgress W) → GoodreadsObservation W → Bool
  detect_stale_finished none obs = false
  detect_stale_finished (some canon) obs =
      if not (finished_claim obs) then false else falls_short canon.percent_complete

  -- The gate against a fresher local reader; `now - updated_at` may be negative.
  abbrev pub recent_local : ℕ → CanonicalProgress W → Bool
  recent_local now canon =
      not (source_eq canon.updated_by Source.goodreads_bridge)
      && not (source_eq canon.updated_by Source.kindle_via_goodreads)
      && ltb now (canon.updated_at + local_change_recency)

  pub canonical_gates : Option (CanonicalProgress W) → GoodreadsObservation W → ℕ → Decision
  unfolding detect_stale_finished
  canonical_gates none obs now = allow
  canonical_gates (some canon) obs now =
      if recent_local now canon
      then recent_local_change
      else if detect_stale_finished (some canon) obs
      then goodreads_bridge_stale
      else allow

  pub timestamp_gates :
      Option (CanonicalProgress W) → GoodreadsObservation W → ℕ → Option ℕ → Decision
  unfolding canonical_gates
  timestamp_gates canon obs now none = missing_device_ts
  timestamp_gates canon obs now (some ts) =
      if ltb (now + hour) ts then device_ts_in_future else canonical_gates canon obs now

  pub evaluate_writeback : Option (CanonicalProgress W) → GoodreadsObservation W → ℕ → Decision
  unfolding timestamp_gates
  evaluate_writeback canon obs now =
      if ltb obs.identity_confidence min_confidence_for_writeback
      then confidence_below_gate
      else timestamp_gates canon obs now obs.device_ts

-- What of a `Detection` the bridge reads; `progress_column_configured` is the method of that name.
pub record Detection : Type 0 where
  pub installed : Bool
  pub progress_column_configured : Bool

pub record Adapter : Type 0 where
  pub mode : BridgeMode
  pub experimental_direct_ack : Bool
  pub health : AdapterHealthState
  pub detection : Option Detection

abbrev pub default_mode : BridgeMode → BridgeMode
default_mode mode_unset = mode_disabled
default_mode m = m

pub new : BridgeMode → Bool → Adapter
new mode ack = record {
  mode = default_mode mode;
  experimental_direct_ack = ack;
  health = AdapterHealthState.disabled;
  detection = none;
}

abbrev pub plugin_health : Option Detection → AdapterHealthState
plugin_health none = AdapterHealthState.needs_user_action
plugin_health (some det) =
    if not det.installed
    then AdapterHealthState.needs_user_action
    else if not det.progress_column_configured
    then AdapterHealthState.needs_user_action
    else AdapterHealthState.ok

-- The health that `Start` sets in a mode, or none for its error on an unknown mode.
abbrev pub mode_health : BridgeMode → Option Detection → Option AdapterHealthState
mode_health mode_disabled det = some AdapterHealthState.disabled
mode_health mode_manual_plugin det = some (plugin_health det)
mode_health mode_guided_plugin det = some (plugin_health det)
mode_health mode_companion_plugin det = some AdapterHealthState.disabled
mode_health mode_experimental_direct det = some AdapterHealthState.degraded
mode_health _ det = none

abbrev needs_ack : BridgeMode → Bool → Bool
needs_ack mode_experimental_direct ack = not ack
needs_ack _ ack = false

abbrev set_health : Option AdapterHealthState → Adapter → Adapter × Bool
set_health none a = (a, false)
set_health (some h) a = (record a { health = h }, true)

-- `Start`, where `DetectPlugin` gives `det`: the adapter, and whether there is no error.
unfoldable pub start : Option Detection → Adapter → Adapter × Bool
start det a =
    if needs_ack a.mode a.experimental_direct_ack
    then (record a { health = AdapterHealthState.needs_user_action }, false)
    else set_health (mode_health a.mode det) (record a { detection = det })

-- `WriteProgress`: whether there is no error. Nothing is written in any mode.
unfoldable pub write_progress : Adapter → Bool
write_progress a = elim a.mode [ mode_manual_plugin ↦ true | mode_guided_plugin ↦ true | _ ↦ false ]
