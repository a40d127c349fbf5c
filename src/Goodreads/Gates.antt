-- ===== src/Goodreads/Gates.antt =====
-- Which observation of Goodreads may become canonical.
use readsync.Base.{
  ℕ, ◌+◌, ◌≤◌, false, Option, none, some, ◌≡◌, ◌≢◌, refl, ◌↔◌, ◌⊎◌, inl, inr, arith, Bool-cases,
}
use readsync.Base.Double.{Double}
use readsync.Model.{Source, CanonicalProgress}
use readsync.Goodreads.{
  local_change_recency, hour, GoodreadsObservation, allow, finished_claim, falls_short,
  detect_stale_finished, recent_local, evaluate_writeback, timestamp_gates, canonical_gates,
}

-- A time of the device is given, and it is no more than an hour ahead.
abbrev pub Timely : ℕ → Option ℕ → Type 0
Timely now none = ⊥
Timely now (some ts) = ts ≤ now + hour

module _ {W : Type 0} ⦃d : Double W⦄ where
  -- The canonical progress leaves room: there is none, or it is not the fresh one of a local reader,
  -- nor one that a claim to have finished the book belies.
  abbrev pub Yields : ℕ → Option (CanonicalProgress W) → GoodreadsObservation W → Type 0
  Yields now none obs = Unit {0}
  Yields now (some canon) obs =
      (canon.updated_by ≢ Source.goodreads_bridge
        → canon.updated_by ≢ Source.kindle_via_goodreads
        → canon.updated_at + local_change_recency ≤ now)
      × ((finished_claim obs ≡ false) ⊎ (falls_short canon.percent_complete ≡ false))

  recent_local-conditions :
      (now : ℕ) (canon : CanonicalProgress W)
      → (recent_local now canon ≡ false) ↔ (
          canon.updated_by ≢ Source.goodreads_bridge
          → canon.updated_by ≢ Source.kindle_via_goodreads
          → canon.updated_at + local_change_recency ≤ now)
  recent_local-conditions now canon = (λ h p q. ground arith, λ h. ground arith)

  detect_stale_finished-conditions :
      (canon : CanonicalProgress W) (obs : GoodreadsObservation W)
      → (detect_stale_finished (some canon) obs ≡ false)
        ↔ ((finished_claim obs ≡ false) ⊎ (falls_short canon.percent_complete ≡ false))
  unfolding detect_stale_finished
  detect_stale_finished-conditions canon obs = elim (Bool-cases (finished_claim obs)) [
    | inr e ↦ (λ h. inl e, λ h. ground arith)
    | inl e ↦ (λ h. inr (ground arith), λ h. ground arith)
  ]

  canonical_gates-conditions :
      (now : ℕ) (canon : Option (CanonicalProgress W)) (obs : GoodreadsObservation W)
      → (canonical_gates canon obs now ≡ allow) ↔ Yields now canon obs
  unfolding canonical_gates
  canonical_gates-conditions now none obs = (λ _. tt, λ _. refl)
  canonical_gates-conditions now (some canon) obs =
      let (fresh, old) = recent_local-conditions now canon in
      let (stale, well) = detect_stale_finished-conditions canon obs in
      (
        λ h. (fresh (ground arith), stale (ground arith)),
        λ (r, s). let a = old r in let b = well s in ground arith,
      )

  timestamp_gates-conditions :
      (now : ℕ) (canon : Option (CanonicalProgress W)) (obs : GoodreadsObservation W)
      (ts : Option ℕ)
      → (timestamp_gates canon obs now ts ≡ allow) ↔ (Timely now ts × Yields now canon obs)
  unfolding timestamp_gates
  timestamp_gates-conditions now canon obs none = (λ h. ground arith, λ h. absurd h.0)
  timestamp_gates-conditions now canon obs (some ts) =
      let (there, back) = canonical_gates-conditions now canon obs in
      (λ h. (ground arith, there (ground arith)), λ h. let a = back h.1 in ground (arith, h.0))

  -- An observation of Goodreads may become canonical exactly if its book is identified with a
  -- confidence of 90 or more, the device gives a time that is at most an hour ahead, and the
  -- canonical progress, if there is one, was not set by a local reader within the last 24 hours and is
  -- not below 85% while the observation claims that the book is finished.
  pub evaluate_writeback-conditions :
      (now : ℕ) (canon : Option (CanonicalProgress W)) (obs : GoodreadsObservation W)
      → (evaluate_writeback canon obs now ≡ allow)
        ↔ ((90 ≤ obs.identity_confidence) × Timely now obs.device_ts × Yields now canon obs)
  unfolding evaluate_writeback
  evaluate_writeback-conditions now canon obs =
      let (there, back) = timestamp_gates-conditions now canon obs obs.device_ts in
      (
        λ h. let (t, y) = there (ground arith) in (ground arith, t, y),
        λ (c, t, y). let a = back (t, y) in ground arith,
      )
