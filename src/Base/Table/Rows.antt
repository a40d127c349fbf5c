-- ===== src/Base/Table/Rows.antt =====
-- Rows with rising ids: an id names one row.
use Prim.Native.Nat.{ℕ, ◌≤◌, ◌<◌}
use mathlib.Core.Path.{◌≡◌, refl}
use mathlib.Core.Logic.{inl, inr}
use mathlib.Core.Bool.{Bool, true, false}
use mathlib.Core.Option
use mathlib.Core.Option.{Option, none, some}
use mathlib.Core.List.{List, [], ◌∷◌, ◌++◌}
use native.Mathlib.Omega.{arith}
use readsync.Base.Tests.{◌==◌, if◌then◌else◌, Bool-cases}
use readsync.Base.Lists.{All, first, exists}
use readsync.Base.Table.{update_where}

-- Where a search stops.
pub record Found {R : Type 0} (p : R → Bool) (rs : List R) (r : R) : Type 0 where
  pub before : List R
  pub after : List R
  pub rows : rs ≡ before ++ r ∷ after
  pub skipped : exists p before ≡ false
  pub hit : p r ≡ true

module _ {R : Type 0} where
  pub first-Found : (p : R → Bool) (rs : List R) (r : R) → first p rs ≡ some r → Found p rs r
  first-Found p [] r e = cc
  first-Found p (x ∷ rs) r e = elim (Bool-cases (p x)) [
    | inl h ↦
        let same : x ≡ r = ground arith in
        record { before = []; after = rs; rows = rw same; skipped = refl; hit = rw (← same) h }
    | inr h ↦
        let f = first-Found p rs r (ground arith) in
        record {
          before = x ∷ f.before;
          after = f.after;
          rows = cc (f.rows);
          skipped = ground (arith, f.skipped);
          hit = f.hit;
        }
  ]

  pub first-append :
      (p : R → Bool) (pre post : List R) (r : R)
      → exists p pre ≡ false
      → p r ≡ true
      → first p (pre ++ r ∷ post) ≡ some r
  first-append p [] post r h k = ground arith
  first-append p (x ∷ pre) post r h k = ground (arith, first-append p pre post r)

  pub first-none : (p : R → Bool) (rs : List R) → first p rs ≡ none → exists p rs ≡ false
  first-none p [] h = refl
  first-none p (r ∷ rs) h = ground (arith, first-none p rs)

  pub exists-first : (p : R → Bool) (rs : List R) → exists p rs ≡ false → first p rs ≡ none
  exists-first p [] h = refl
  exists-first p (r ∷ rs) h = ground (arith, exists-first p rs)

  pub update_where-All {ℓ} :
      (P : R → Type ℓ) (p : R → Bool) (f : R → R)
      → ((r : R) → p r ≡ true → P r → P (f r))
      → (rs : List R) → All P rs
      → All P (update_where p f rs)
  update_where-All P p f keep [] h = tt
  update_where-All P p f keep (r ∷ rs) h = elim (Bool-cases (p r)) [
    | inl e ↦ rw e (keep r e h.0, update_where-All P p f keep rs h.1)
    | inr e ↦ rw e (h.0, update_where-All P p f keep rs h.1)
  ]

-- The ids of the rows rise from above `lo`, and stay within `hi`.
module _ {R : Type 0} (id : R → ℕ) where
  abbrev pub Rising : ℕ → ℕ → List R → Type 0
  Rising lo hi [] = lo ≤ hi
  Rising lo hi (r ∷ rs) = (lo < id r) × Rising (id r) hi rs

  pub Rising-le : (lo hi : ℕ) (rs : List R) → Rising lo hi rs → lo ≤ hi
  Rising-le lo hi [] h = h
  Rising-le lo hi (r ∷ rs) h = omega (arith, Rising-le (id r) hi rs h.1)

  -- A row with an id above all fits behind the rows.
  pub Rising-append :
      (lo hi top : ℕ) (rs : List R) (r : R)
      → Rising lo hi rs
      → hi < id r
      → id r ≤ top
      → Rising lo top (rs ++ r ∷ [])
  Rising-append lo hi top [] r h k m = (omega arith, m)
  Rising-append lo hi top (x ∷ rs) r h k m = (h.0, Rising-append (id x) hi top rs r h.1 k m)

  pub Rising-update :
      (p : R → Bool) (f : R → R)
      → ((r : R) → id (f r) ≡ id r)
      → (lo hi : ℕ) (rs : List R) → Rising lo hi rs
      → Rising lo hi (update_where p f rs)
  Rising-update p f same lo hi [] h = h
  Rising-update p f same lo hi (r ∷ rs) h =
      let rest = Rising-update p f same (id r) hi rs h.1 in
      elim (Bool-cases (p r)) [ inl e ↦ rw (e, same r) (h.0, rest) | inr e ↦ rw e (h.0, rest) ]

  -- Above the id `k` no row has the id `k`.
  update_above :
      (f : R → R) (k lo hi : ℕ) (rs : List R)
      → k ≤ lo
      → Rising lo hi rs
      → update_where (λ x. id x == k) f rs ≡ rs
  update_above f k lo hi [] le h = refl
  update_above f k lo hi (r ∷ rs) le h = ground (arith, update_above f k (id r) hi rs)

  -- So an update by id changes the one row.
  pub update_by_id :
      (f : R → R) (lo hi : ℕ) (pre post : List R) (r : R)
      → Rising lo hi (pre ++ r ∷ post)
      → update_where (λ x. id x == id r) f (pre ++ r ∷ post) ≡ pre ++ f r ∷ post
  update_by_id f lo hi [] post r h = ground (arith, update_above f (id r) (id r) hi post)
  update_by_id f lo hi (x ∷ pre) post r h =
      ground (arith, below (id x) pre h.1, update_by_id f (id x) hi pre post r)
    where
      below : (lo : ℕ) (pre : List R) → Rising lo hi (pre ++ r ∷ post) → lo < id r
      below lo [] h = h.0
      below lo (y ∷ pre) h = omega (arith, h.0, below (id y) pre h.1)

  pub Rising-replace :
      (lo hi : ℕ) (pre post : List R) (r r' : R)
      → id r' ≡ id r
      → Rising lo hi (pre ++ r ∷ post)
      → Rising lo hi (pre ++ r' ∷ post)
  Rising-replace lo hi [] post r r' e h = rw e h
  Rising-replace lo hi (x ∷ pre) post r r' e h = (h.0, Rising-replace (id x) hi pre post r r' e h.1)

  -- The row of an id is the one that carries it.
  pub first_by_id :
      (lo hi : ℕ) (pre post : List R) (r : R)
      → Rising lo hi (pre ++ r ∷ post)
      → first (λ x. id x == id r) (pre ++ r ∷ post) ≡ some r
  first_by_id lo hi [] post r h = ground arith
  first_by_id lo hi (x ∷ pre) post r h =
      ground (arith, below (id x) pre h.1, first_by_id (id x) hi pre post r h.1)
    where
      below : (lo : ℕ) (pre : List R) → Rising lo hi (pre ++ r ∷ post) → lo < id r
      below lo [] h = h.0
      below lo (y ∷ pre) h = omega (arith, h.0, below (id y) pre h.1)

  -- What an update by id does to the row of an id.
  pub first-update :
      (f : R → R)
      → ((r : R) → id (f r) ≡ id r)
      → (j k : ℕ) (rs : List R)
      → first (λ x. id x == k) (update_where (λ x. id x == j) f rs)
        ≡ (if k == j then Option.map f (first (λ x. id x == k) rs) else first (λ x. id x == k) rs)
  first-update f same j k [] = ground arith
  first-update f same j k (r ∷ rs) = ground (arith, same r, first-update f same j k rs)
