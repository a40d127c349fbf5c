-- ===== src/Outbox/Eligible.antt =====
-- When a job may be claimed: the texts of two times within one second.
use readsync.Base.{ℕ, ◌+◌, ◌*◌, ◌<◌, true, false, some, ◌≡◌}
use readsync.Base.Stamp.{second, stamp_le_fraction}
use readsync.Model.{OutboxJob, OutboxStatus, source_eq_refl}
use readsync.Outbox.{is_eligible}

-- Within one second the texts of the times are in the wrong order: a retry that is due a fraction
-- behind a whole second is already claimed at that second, and one that is due at a whole second is
-- not claimed for as long as the clock shows that second with a fraction.
pub is_eligible-fraction :
    (s n : ℕ) (job : OutboxJob)
    → 0 < n
    → n < second
    → (is_eligible
          (s * second)
          job.target_source
          (record job { status = OutboxStatus.retrying; next_retry_at = some (s * second + n) })
        ≡ true)
      × (is_eligible
            (s * second + n)
            job.target_source
            (record job { status = OutboxStatus.retrying; next_retry_at = some (s * second) })
          ≡ false)
unfolding is_eligible
is_eligible-fraction s n job h k =
    let (early, late) = stamp_le_fraction s n h k in
    let same = source_eq_refl job.target_source in (rw (same, early), rw (same, late))
