-- ===== src/Outbox/Delay.antt =====
-- The backoff: doubling, its cap, and the spread of the jitter.
use readsync.Base.{
  ℕ, zero, suc, ◌+◌, ◌-◌, ◌*◌, ◌/◌, ◌^◌, ◌≤◌, ◌<◌, ◌≡◌, refl, arith, leb, if◌then◌else◌,
}
use native.Mathlib.Numerals.{towards_suc}
use readsync.Outbox.{base_delay, max_delay, retry_delay, next_retry}

retry_delay_suc :
    (n : ℕ) → retry_delay (n + 1) ≡ (if leb 1440 (2 ^ n) then max_delay else base_delay * 2 ^ n)
unfolding retry_delay
retry_delay_suc zero = refl
retry_delay_suc (suc n) = let e : suc n + 1 - 1 ≡ suc n = omega arith in rw e (ground arith)

-- From the first attempt on each delay is twice the one before, up to two hours.
pub retry_delay-doubles :
    (n : ℕ)
    → (retry_delay 1 ≡ base_delay)
      × (retry_delay (n + 2) ≡ (
          if leb max_delay (2 * retry_delay (n + 1)) then max_delay else 2 * retry_delay (n + 1)))
unfolding retry_delay
retry_delay-doubles n =
    (refl, rw (regroup, retry_delay_suc n, retry_delay_suc (n + 1), double) (ground arith))
  where
    regroup : n + 2 ≡ n + 1 + 1
    regroup = omega arith

    double : 2 ^ (n + 1) ≡ 2 * 2 ^ n
    double = simp towards_suc (omega arith)

retry_delay_bounds :
    (attempt : ℕ) → (base_delay ≤ retry_delay attempt) × (retry_delay attempt ≤ max_delay)
unfolding retry_delay
retry_delay_bounds attempt = ground (arith, pow_pos (attempt - 1))
  where
    pow_pos : (n : ℕ) → 1 ≤ 2 ^ n
    pow_pos zero = omega arith
    pow_pos (suc n) = omega (arith, pow_pos n)

-- A fifth of `x` bounds the jitter, for a numerator up to 2 ^ 53.
jitter_le : (x y : ℕ) → y ≤ 2 ^ 53 → 5 * (x * y / (5 * 2 ^ 53)) ≤ x
jitter_le x y h = omega (arith, mul_le x y (2 ^ 53) h)
  where
    mul_le : (x y m : ℕ) → y ≤ m → x * y ≤ x * m
    mul_le x y m h = grind arith

-- A retry falls in the window of four to six fifths of the delay, which is itself between five
-- seconds and two hours, whatever the random number.
pub next_retry_window :
    (k now attempt : ℕ)
    → k < 2 ^ 53
    → let delay = retry_delay attempt in
      (5 * now + 4 * delay ≤ 5 * next_retry k now attempt)
      × (5 * next_retry k now attempt ≤ 5 * now + 6 * delay)
      × (base_delay ≤ delay)
      × (delay ≤ max_delay)
unfolding next_retry
next_retry_window k now attempt h =
    let (low, high) = retry_delay_bounds attempt in
    let up = jitter_le (retry_delay attempt) (2 * k - 2 ^ 53) (omega arith) in
    let down = jitter_le (retry_delay attempt) (2 ^ 53 - 2 * k) (omega arith) in
    (ground (arith, up, down), ground (arith, up, down), low, high)
