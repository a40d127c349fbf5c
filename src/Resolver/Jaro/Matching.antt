-- ===== src/Resolver/Jaro/Matching.antt =====
-- `jaro` never runs off the flags, and what its loops count.
use readsync.Base.{
  ℕ, zero, suc, ◌+◌, ◌≤◌, ◌<◌, Bool, true, false, List, [], ◌∷◌, Option, none, some, ◌≡◌, ◌≢◌, refl,
  inl, inr, arith, length, replicate, ◌==◌, if◌then◌else◌, Option-cases,
}
use readsync.Base.Double.{Double}
use readsync.Resolver.Jaro.{
  window_start, window_end, claim, match_loop, skip, transpose_loop, first_loop, match_distance,
  jaro, jaro_winkler,
}

abbrev pub count_true : List Bool → ℕ
count_true [] = 0
count_true (true ∷ fs) = suc (count_true fs)
count_true (false ∷ fs) = count_true fs

-- A claim takes one more flag and keeps the length.
claim_one :
    (c start stop j : ℕ) (t : List ℕ) (flags g : List Bool)
    → claim c start stop j t flags ≡ some g
    → (count_true g ≡ suc (count_true flags)) × (length g ≡ length flags)
unfolding claim
claim_one c start stop j [] flags g h = cc
claim_one c start stop j (b ∷ t) [] g h = cc
claim_one c start stop j (b ∷ t) (false ∷ flags) g h =
    elim (Option-cases (claim c start stop (j + 1) t flags)) [
      | inl e ↦ ground arith
      | inr (r, e) ↦ ground (arith, claim_one c start stop (j + 1) t flags r e)
    ]
claim_one c start stop j (b ∷ t) (true ∷ flags) g h =
    elim (Option-cases (claim c start stop (j + 1) t flags)) [
      | inl e ↦ ground arith
      | inr (r, e) ↦ ground (arith, claim_one c start stop (j + 1) t flags r e)
    ]

count_replicate : (n : ℕ) → count_true (replicate n false) ≡ 0
count_replicate zero = refl
count_replicate (suc n) = count_replicate n

-- Each match takes one flag on either side, and the loop keeps both lengths.
match_loop_counts :
    (s t : List ℕ) (dist i : ℕ) (flags : List Bool) (m : ℕ)
    → let r = match_loop s t dist i flags m in
      (r.matches ≡ m + count_true r.s_matched)
      × (count_true r.t_matched ≡ count_true flags + count_true r.s_matched)
      × (length r.s_matched ≡ length s)
      × (length r.t_matched ≡ length flags)
unfolding match_loop
match_loop_counts [] t dist i flags m = ground arith
match_loop_counts (c ∷ s) t dist i flags m =
    elim (Option-cases (claim c (window_start i dist) (window_end i dist (length t)) 0 t flags)) [
      | inl e ↦ rw (e, match_loop) (ground (arith, match_loop_counts s t dist (i + 1) flags m))
      | inr (g, e) ↦
          rw (e, match_loop)
            (ground (
              arith,
              claim_one c (window_start i dist) (window_end i dist (length t)) 0 t flags g e,
              match_loop_counts s t dist (i + 1) g (m + 1),
            ))
    ]

-- While a flag is left, `skip` finds it.
skip_finds :
    (t : List ℕ) (flags : List Bool)
    → length flags ≡ length t
    → 0 < count_true flags
    → (b : ℕ) × (t' : List ℕ) × (flags' : List Bool) × (skip t flags ≡ some (b, t', flags'))
      × (length flags' ≡ length t')
      × (count_true flags ≡ suc (count_true flags'))
unfolding skip
skip_finds [] [] e h = absurd (omega arith)
skip_finds [] (f ∷ flags) e h = absurd (omega arith)
skip_finds (b ∷ t) [] e h = absurd (omega arith)
skip_finds (b ∷ t) (true ∷ flags) e h = (b, t, flags, refl, omega arith, refl)
skip_finds (b ∷ t) (false ∷ flags) e h = skip_finds t flags (omega arith) h

transpose_loop_total :
    (s : List ℕ) (sm : List Bool) (t : List ℕ) (tm : List Bool) (n : ℕ)
    → length tm ≡ length t
    → count_true sm ≤ count_true tm
    → (k : ℕ) × (transpose_loop s sm t tm n ≡ some k) × (k ≤ n + count_true sm)
unfolding transpose_loop
transpose_loop_total [] sm t tm n e h = (n, refl, omega arith)
transpose_loop_total (c ∷ s) [] t tm n e h = (n, refl, omega arith)
transpose_loop_total (c ∷ s) (false ∷ sm) t tm n e h = transpose_loop_total s sm t tm n e h
transpose_loop_total (c ∷ s) (true ∷ sm) t tm n e h =
    let (b, t', tm', found, e', h') = skip_finds t tm e (omega arith) in
    let next = if c == b then n else n + 1 in
    let (k, r, bound) = transpose_loop_total s sm t' tm' next e' (omega arith) in
    (k, rw (found, transpose_loop) r, ground arith)

count_true-le : (fs : List Bool) → count_true fs ≤ length fs
count_true-le [] = omega arith
count_true-le (true ∷ fs) = omega (arith, count_true-le fs)
count_true-le (false ∷ fs) = omega (arith, count_true-le fs)

length-replicate : (n : ℕ) → length (replicate n false) ≡ n
length-replicate zero = refl
length-replicate (suc n) = omega (arith, length-replicate n)

-- For any two texts the number of matches is at most the length of either, the second loop finds
-- every flag that it looks for, so that no index runs off `t`, and it counts no more
-- transpositions than there are matches.
pub matches_bounds :
    (s t : List ℕ)
    → let r = first_loop s t in
      (r.matches ≤ length s)
      × (r.matches ≤ length t)
      × (k : ℕ) × (transpose_loop s r.s_matched t r.t_matched 0 ≡ some k)
      × (k ≤ r.matches)
unfolding first_loop
matches_bounds s t =
    let dist = match_distance (length s) (length t) in
    let flags : List Bool = replicate (length t) false in
    let (total, taken, ls, lt) = match_loop_counts s t dist 0 flags 0 in
    let r = match_loop s t dist 0 flags 0 in
    let free = count_replicate (length t) in
    let size = length-replicate (length t) in
    let (k, found, bound) =
      transpose_loop_total s r.s_matched t r.t_matched 0 (omega arith) (omega arith) in
    (
      omega (arith, count_true-le r.s_matched),
      omega (arith, count_true-le r.t_matched),
      k,
      found,
      omega arith,
    )

abbrev pub IsTotal : {A : Type 0} → Option A → Type 0
IsTotal {A} o = (a : A) × (o ≡ some a)

pub IsTotal-of_ne_none : {A : Type 0} (o : Option A) → o ≢ none → IsTotal o
IsTotal-of_ne_none none h = absurd (h refl)
IsTotal-of_ne_none (some a) h = (a, refl)

module _ {W : Type 0} ⦃d : Double W⦄ where
  jaro-ne-none : (s t : List ℕ) → jaro {W = W} s t ≢ none
  unfolding jaro
  jaro-ne-none s t = let (_, _, k, e, _) = matches_bounds s t in rw (e, jaro) (ground arith)

  pub jaro_winkler-IsTotal : (s t : List ℕ) → IsTotal (jaro_winkler {W = W} s t)
  unfolding jaro_winkler
  jaro_winkler-IsTotal s t =
      let (w, e) = IsTotal-of_ne_none (jaro {W = W} s t) (jaro-ne-none s t) in
      rw (e, jaro_winkler) (_, refl)
