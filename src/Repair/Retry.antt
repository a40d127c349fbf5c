-- ===== src/Repair/Retry.antt =====
-- internal/repair/repair.go: `RetryOnBusy`, the retries on a busy database. The attempts are a parameter, as the error
-- of each; the waits are one too, as the error of the context that ends one.
use readsync.Base.{
  ℕ, zero, suc, ◌+◌, ◌≤◌, ◌<◌, Bool, true, false, ◌||◌, Option, none, some, map, Text, codes, ◌≡◌,
  ◌⊎◌, subst, arith, Bool-cases, Option-cases, inl, inr, if◌then◌else◌,
}
use readsync.Resolver.Normalize.{Unicode}
use readsync.Calibre.Opf.{contains}

-- `isBusy`, of the text of an error.
abbrev pub is_busy : Unicode → Text → Bool
is_busy u e =
    let msg = map u.to_lower e in
    contains msg (codes "database is locked")
    || contains msg (codes "sqlite_busy")
    || contains msg (codes "busy")

-- What `RetryOnBusy` returns.
pub data Retried : Type 0 where
  no_error : Retried
  failed : Text → Retried
  cancelled : Text → Retried
  retries_exceeded : Text → Retried

none_between : (i j : ℕ) → i ≤ j → j < i → ⊥
none_between i j from below = omega arith

first_or_later : (i j : ℕ) → i ≤ j → (i ≡ j) ⊎ (suc i ≤ j)
first_or_later i j from = omega arith

module _ (u : Unicode) (fn cancel : ℕ → Option Text) where
  -- The loop from the attempt `i` on, `left` being `maxRetries - i`.
  retry_from : ℕ → ℕ → Retried
  retry_from i zero = elim (fn i) [
    | none ↦ no_error
    | some e ↦ if is_busy u e then retries_exceeded e else failed e
  ]
  retry_from i (suc left) = elim (fn i) [
    | none ↦ no_error
    | some e ↦ elim (is_busy u e) [
      | false ↦ failed e
      | true ↦ elim (cancel i) [ some x ↦ cancelled x | none ↦ retry_from (suc i) left ]
    ]
  ]

  abbrev retry_on_busy : ℕ → Retried
  retry_on_busy max_retries = retry_from 0 max_retries

  -- An attempt that finds the database busy, and the wait behind it is not ended.
  record Again (i : ℕ) : Type 0 where
    error : Text
    fails : fn i ≡ some error
    busy : is_busy u error ≡ true
    waits : cancel i ≡ none

  -- What the attempt `n` has to be, for the result to be that of it; `last` is the last one.
  abbrev Stops : ℕ → ℕ → Retried → Type 0
  Stops last n no_error = fn n ≡ none
  Stops last n (failed e) = (fn n ≡ some e) × (is_busy u e ≡ false)
  Stops last n (cancelled x) =
      (n < last) × ((e : Text) × (fn n ≡ some e) × (is_busy u e ≡ true)) × (cancel n ≡ some x)
  Stops last n (retries_exceeded e) = (n ≡ last) × (fn n ≡ some e) × (is_busy u e ≡ true)

  record End (i last : ℕ) (r : Retried) : Type 0 where
    attempt : ℕ
    later : i ≤ attempt
    bound : attempt ≤ last
    again : (j : ℕ) → i ≤ j → j < attempt → Again j
    stops : Stops last attempt r

  -- The loop that ends with this attempt.
  at_once : (i last : ℕ) (r : Retried) → i ≤ last → Stops last i r → End i last r
  at_once i last r bound stops = record {
    attempt = i;
    later = omega arith;
    bound = bound;
    again = λ j from below. absurd (none_between i j from below);
    stops = stops;
  }

  later-End : (i last : ℕ) (r : Retried) → Again i → End (suc i) last r → End i last r
  later-End i last r first h = record {
    attempt = h.attempt;
    later = omega (arith, h.later);
    bound = h.bound;
    again = λ j from below. elim (first_or_later i j from) [
      | inl e ↦ subst Again e first
      | inr after ↦ h.again j after below
    ];
    stops = h.stops;
  }

  -- From any attempt on, the loop of `RetryOnBusy` returns at an attempt that is not after the last one: with what the first of them gives that
  -- succeeds, fails for another reason, is the last one, or is followed by a wait that is ended.
  retry_from-End : (i left : ℕ) → End i (i + left) (retry_from i left)
  unfolding retry_from
  retry_from-End i zero = elim (Option-cases (fn i)) [
    | inl e ↦ rw (retry_from, e) (at_once i (i + 0) no_error (omega arith) e)
    | inr (text, e) ↦ elim (Bool-cases (is_busy u text)) [
      | inl b ↦
          rw (retry_from, e, b)
            (at_once i (i + 0) (retries_exceeded text) (omega arith) (omega arith, e, b))
      | inr b ↦ rw (retry_from, e, b) (at_once i (i + 0) (failed text) (omega arith) (e, b))
    ]
  ]
  retry_from-End i (suc left) = elim (Option-cases (fn i)) [
    | inl e ↦ rw (retry_from, e) (at_once i (i + suc left) no_error (omega arith) e)
    | inr (text, e) ↦ elim (Bool-cases (is_busy u text)) [
      | inr b ↦ rw (retry_from, e, b) (at_once i (i + suc left) (failed text) (omega arith) (e, b))
      | inl b ↦ elim (Option-cases (cancel i)) [
        | inr (x, c) ↦
            rw (retry_from, e, b, c)
              (at_once i (i + suc left) (cancelled x) (omega arith) (omega arith, (text, e, b), c))
        | inl c ↦
            let rest : End (suc i) (i + suc left) (retry_from (suc i) left) =
              subst (λ n. End (suc i) n (retry_from (suc i) left)) (omega arith)
                (retry_from-End (suc i) left) in
            rw (retry_from, e, b, c)
              (later-End i (i + suc left) (retry_from (suc i) left)
                (record { error = text; fails = e; busy = b; waits = c }) rest)
      ]
    ]
  ]

  -- `RetryOnBusy` returns after at most `maxRetries + 1` attempts, with what the first of them gives that
  -- succeeds, fails for another reason, is the last one, or is followed by a wait that is ended; before
  -- it, each attempt finds the database busy.
  retry_on_busy-End : (max_retries : ℕ) → End 0 max_retries (retry_on_busy max_retries)
  retry_on_busy-End max_retries =
      subst (λ n. End 0 n (retry_from 0 max_retries)) (omega arith) (retry_from-End 0 max_retries)
