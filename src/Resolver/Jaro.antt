-- ===== src/Resolver/Jaro.antt =====
-- internal/resolver/resolver.go: `jaro` and `jaroWinkler`, over the bytes of the texts.
-- `sMatched[i]` is written in round i of the first loop only, so that loop emits it; the cursor k
-- of the second loop is the rest of `t` from k on, and a run off its end (a panic) is `none`.
pub mod Matching
use readsync.Base.{
  ℕ, zero, suc, ◌+◌, ◌-◌, ◌/◌, Bool, true, false, not, ◌||◌, List, [], ◌∷◌, Option, none, some, ltb,
  leb, ◌==◌, if◌then◌else◌, length, replicate, text_eq,
}
use readsync.Base.Double.{Double}

-- The bounds of the inner loop: `start` and `end` of round i.
abbrev pub window_start : ℕ → ℕ → ℕ
window_start i dist = i - dist

abbrev pub window_end : ℕ → ℕ → ℕ → ℕ
window_end i dist lt = let stop = i + dist + 1 in if ltb lt stop then lt else stop

-- `matchDist`; the truncated subtraction is the test for a negative value.
unfoldable pub match_distance : ℕ → ℕ → ℕ
match_distance ls lt = (if ltb ls lt then lt else ls) / 2 - 1

-- The inner loop: the flags after the first free equal byte in the window is taken.
pub claim : ℕ → ℕ → ℕ → ℕ → List ℕ → List Bool → Option (List Bool)
claim c start stop j [] flags = none
claim c start stop j (b ∷ t) [] = none
claim c start stop j (b ∷ t) (f ∷ flags) =
    let rest = claim c start stop (j + 1) t flags in
    if ltb j start || leb stop j || f || not (c == b)
    then elim rest [ none ↦ none | some g ↦ some (f ∷ g) ]
    else some (true ∷ flags)

-- What the first loop leaves: `sMatched`, `tMatched` and `matches`.
pub record Matched : Type 0 where
  pub s_matched : List Bool
  pub t_matched : List Bool
  pub matches : ℕ

pub match_loop : List ℕ → List ℕ → ℕ → ℕ → List Bool → ℕ → Matched
match_loop [] t dist i flags matches = record {
  s_matched = [];
  t_matched = flags;
  matches = matches;
}
match_loop (c ∷ s) t dist i flags matches =
    elim (claim c (window_start i dist) (window_end i dist (length t)) 0 t flags) [
      | none ↦
          let r = match_loop s t dist (i + 1) flags matches in
          record r { s_matched = false ∷ r.s_matched }
      | some g ↦
          let r = match_loop s t dist (i + 1) g (matches + 1) in
          record r { s_matched = true ∷ r.s_matched }
    ]

-- `for !tMatched[k] { k++ }`: the byte at k, and what lies behind it.
pub skip : List ℕ → List Bool → Option (ℕ × List ℕ × List Bool)
skip [] flags = none
skip (b ∷ t) [] = none
skip (b ∷ t) (true ∷ flags) = some (b, t, flags)
skip (b ∷ t) (false ∷ flags) = skip t flags

-- The second loop counts the transpositions.
pub transpose_loop : List ℕ → List Bool → List ℕ → List Bool → ℕ → Option ℕ
transpose_loop [] sm t tm n = some n
transpose_loop (c ∷ s) [] t tm n = some n
transpose_loop (c ∷ s) (false ∷ sm) t tm n = transpose_loop s sm t tm n
transpose_loop (c ∷ s) (true ∷ sm) t tm n = elim (skip t tm) [
  | none ↦ none
  | some (b, t', tm') ↦ transpose_loop s sm t' tm' (if c == b then n else n + 1)
]

pub first_loop : List ℕ → List ℕ → Matched
first_loop s t =
    match_loop s t (match_distance (length s) (length t)) 0 (replicate (length t) false) 0

-- The bytes that the texts share at the front, `limit` at most.
pub common_prefix : ℕ → List ℕ → List ℕ → ℕ
common_prefix zero s t = 0
common_prefix (suc limit) [] t = 0
common_prefix (suc limit) (c ∷ s) [] = 0
common_prefix (suc limit) (c ∷ s) (b ∷ t) =
    let rest = common_prefix limit s t in if c == b then rest + 1 else 0

module _ {W : Type 0} ⦃d : Double W⦄ where
  -- `none` is an index out of range.
  unfoldable pub jaro : List ℕ → List ℕ → Option W
  jaro s t =
      let r = first_loop s t in
      let m = d.of_nat r.matches in
      let score : ℕ → W = λ transpositions.
        d.div
          (d.add (d.add (d.div m (d.of_nat (length s))) (d.div m (d.of_nat (length t))))
            (d.div (d.sub m (d.div (d.of_nat transpositions) (d.lit 2 0))) m))
          (d.lit 3 0) in
      if text_eq s t
      then some (d.lit 1 0)
      else if length s == 0 || length t == 0
      then some (d.lit 0 0)
      else if r.matches == 0
      then some (d.lit 0 0)
      else elim (transpose_loop s r.s_matched t r.t_matched 0) [
        | none ↦ none
        | some n ↦ some (score n)
      ]

  unfoldable pub jaro_winkler : List ℕ → List ℕ → Option W
  jaro_winkler s t = elim (jaro s t) [
    | none ↦ none
    | some j ↦ some (
        if d.lt j (d.lit 7 1)
        then j
        else d.add j
            (d.mul (d.mul (d.of_nat (common_prefix 4 s t)) (d.lit 1 1)) (d.sub (d.lit 1 0) j)))
  ]
