-- ===== src/Goodreads/Bridge.antt =====
-- The modes of the bridge, from its creation to its writes.
use readsync.Base.{Bool, true, false, Option, none, some, ◌≡◌, refl, ◌↔◌, ◌⊎◌, inl, inr, arith}
use readsync.Model.{AdapterHealthState}
use readsync.Goodreads.{
  BridgeMode, mode_disabled, mode_manual_plugin, mode_guided_plugin, mode_companion_plugin,
  unknown_mode, plugin_health, mode_experimental_direct, mode_unset, is_valid, is_active, Detection,
  new, start, write_progress,
}

abbrev pub Ready : Option Detection → Type 0
Ready none = ⊥
Ready (some det) = (det.installed ≡ true) × (det.progress_column_configured ≡ true)

plugin_health-Ready :
    (det : Option Detection) → (plugin_health det ≡ AdapterHealthState.ok) ↔ Ready det
plugin_health-Ready none = (λ h. ground arith, λ h. absurd h)
plugin_health-Ready (some det) = (λ h. ground arith, λ h. ground (arith, h.0, h.1))

started_health :
    (mode : BridgeMode) (ack : Bool) (det : Option Detection)
    → ((start det (new mode ack)).0.health ≡ AdapterHealthState.ok)
      ↔ ((is_active mode ≡ true) × Ready det)
unfolding start new is_active
started_health mode_disabled ack det = (λ h. ground arith, λ h. ground arith)
started_health mode_manual_plugin ack det =
    let (a, b) = plugin_health-Ready det in (λ h. (refl, a h), λ h. b h.1)
started_health mode_guided_plugin ack det =
    let (a, b) = plugin_health-Ready det in (λ h. (refl, a h), λ h. b h.1)
started_health mode_companion_plugin ack det = (λ h. ground arith, λ h. ground arith)
started_health mode_experimental_direct true det = (λ h. ground arith, λ h. ground arith)
started_health mode_experimental_direct false det = (λ h. ground arith, λ h. ground arith)
started_health mode_unset ack det = (λ h. ground arith, λ h. ground arith)
started_health (unknown_mode s) ack det = (λ h. ground arith, λ h. ground arith)

abbrev pub Startable : BridgeMode → Bool → Type 0
Startable mode ack =
    ((is_valid mode ≡ true) ⊎ (mode ≡ mode_unset)) × (mode ≡ mode_experimental_direct → ack ≡ true)

started_success :
    (mode : BridgeMode) (ack : Bool) (det : Option Detection)
    → ((start det (new mode ack)).1 ≡ true) ↔ Startable mode ack
unfolding start new is_valid
started_success mode_disabled ack det = (λ h. (inl refl, λ e. cc), λ h. refl)
started_success mode_manual_plugin ack det = (λ h. (inl refl, λ e. cc), λ h. refl)
started_success mode_guided_plugin ack det = (λ h. (inl refl, λ e. cc), λ h. refl)
started_success mode_companion_plugin ack det = (λ h. (inl refl, λ e. cc), λ h. refl)
started_success mode_experimental_direct true det = (λ h. (inl refl, λ e. refl), λ h. refl)
started_success mode_experimental_direct false det = (λ h. cc, λ h. h.1 refl)
started_success mode_unset ack det = (λ h. (inr refl, λ e. cc), λ h. refl)
started_success (unknown_mode s) ack det = (λ h. cc, λ h. ground arith)

started_write :
    (mode : BridgeMode) (ack : Bool) (det : Option Detection)
    → write_progress (start det (new mode ack)).0 ≡ is_active mode
unfolding start new is_active write_progress
started_write mode ack det = ground arith

-- A bridge that is created and started is healthy exactly if its mode is active and the plugin is
-- installed and its progress column configured; it starts without an error exactly if its mode is
-- valid or unset, and is not the direct one without the user's consent; and its writes are accepted
-- exactly if its mode is active.
pub start-health :
    (mode : BridgeMode) (ack : Bool) (det : Option Detection)
    → let (a, success) = start det (new mode ack) in
      ((a.health ≡ AdapterHealthState.ok) ↔ ((is_active mode ≡ true) × Ready det))
      × ((success ≡ true) ↔ (
          ((is_valid mode ≡ true) ⊎ (mode ≡ mode_unset))
          × (mode ≡ mode_experimental_direct → ack ≡ true)))
      × (write_progress a ≡ is_active mode)
start-health mode ack det =
    (started_health mode ack det, started_success mode ack det, started_write mode ack det)
