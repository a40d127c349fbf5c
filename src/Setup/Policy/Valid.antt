-- ===== src/Setup/Policy/Valid.antt =====
-- Which policies are valid.
use readsync.Base.{
  true, false, List, [], ◌∷◌, Option, none, some, map, ◌≡◌, ◌≢◌, refl, ◌↔◌, arith, sym, Text,
  text_eq, text_eq_refl, text_eq→≡, All, All-map, All-zip, Bool-cases, inl, inr,
}
use readsync.Base.Double.{Double}
use readsync.Base.Int.{pos, int_lt}
use readsync.Resolver.Normalize.{Unicode}
use readsync.Setup.Policy.{
  ConflictPolicy, valid_policy_sources, PolicyError, source_name, is_in, scan, check_ranges,
  after_scan, check_names, validate,
}

abbrev pub Distinct : List Text → Type 0
Distinct [] = Unit {0}
Distinct (n ∷ ns) = All (λ (m : Text). n ≢ m) ns × Distinct ns

-- Known names, none of them seen before, and no two of them the same.
record Accepted (seen ns : List Text) : Type 0 where
  known : All (λ n. is_in n valid_policy_sources ≡ true) ns
  unseen : All (λ n. is_in n seen ≡ false) ns
  distinct : Distinct ns

not_same : (n m : Text) → text_eq m n ≡ false → n ≢ m
not_same n m h e = let same : text_eq m n ≡ true = rw e (text_eq_refl m) in cc

scan_accepts : (seen ns : List Text) → scan seen ns ≡ none → Accepted seen ns
unfolding scan
scan_accepts seen [] h = record { known = tt; unseen = tt; distinct = tt }
scan_accepts seen (n ∷ ns) h =
    let k : is_in n valid_policy_sources ≡ true = ground arith in
    let f : is_in n seen ≡ false = ground arith in
    let rest = scan_accepts (n ∷ seen) ns (rw (k, f) at h) in
    record {
      known = (k, rest.known);
      unseen = (f, All-map _ (λ m. is_in m seen ≡ false) (λ m u. ground arith) ns rest.unseen);
      distinct = (
        All-map _ (λ m. n ≢ m) (λ m u. not_same n m (ground arith)) ns rest.unseen,
        rest.distinct,
      );
    }

differ : (n m : Text) → n ≢ m → text_eq m n ≡ false
differ n m h = elim (Bool-cases (text_eq m n)) [
  | inl e ↦ absurd (h (sym (text_eq→≡ m n e)))
  | inr e ↦ e
]

accepts_scan :
    (seen ns : List Text)
    → All (λ n. is_in n valid_policy_sources ≡ true) ns
    → All (λ n. is_in n seen ≡ false) ns
    → Distinct ns
    → scan seen ns ≡ none
unfolding scan
accepts_scan seen [] k u d = refl
accepts_scan seen (n ∷ ns) k u d =
    let rest =
      accepts_scan (n ∷ seen) ns k.1
        (All-zip (λ m. is_in m (n ∷ seen) ≡ false) (λ m a b. ground (arith, differ n m a)) ns d.0
          u.1)
        d.1 in
    rw (k.0, u.0) rest

nothing_seen : (ns : List Text) → All (λ n. is_in n [] ≡ false) ns
nothing_seen [] = tt
nothing_seen (n ∷ ns) = (refl, nothing_seen ns)

abbrev pub Names : List Text → Type 0
Names ns = (ns ≢ []) × All (λ n. is_in n valid_policy_sources ≡ true) ns × Distinct ns

module _ {W : Type 0} ⦃d : Double W⦄ where
  -- The bounds of the three numbers.
  pub record InRange (p : ConflictPolicy W) : Type 0 where
    pub percent_positive : d.le p.suspicious_jump_percent (d.lit 0 0) ≡ false
    pub percent_bounded : d.lt (d.lit 100 0) p.suspicious_jump_percent ≡ false
    pub window : int_lt p.suspicious_jump_window_minutes (pos 0) ≡ false
    pub threshold_positive : int_lt p.finished_regression_threshold (pos 0) ≡ false
    pub threshold_bounded : int_lt (pos 100) p.finished_regression_threshold ≡ false

  ranges_in : (p : ConflictPolicy W) → check_ranges p ≡ none → InRange p
  ranges_in p h = record {
    percent_positive = ground arith;
    percent_bounded = ground arith;
    window = ground arith;
    threshold_positive = ground arith;
    threshold_bounded = ground arith;
  }

  in_ranges : (p : ConflictPolicy W) → InRange p → check_ranges p ≡ none
  in_ranges p h =
      rw
        (h.percent_positive, h.percent_bounded, h.window, h.threshold_positive, h.threshold_bounded)
        refl

  after_scan-none :
      (o : Option PolicyError) (p : ConflictPolicy W)
      → after_scan o p ≡ none
      → (o ≡ none) × (check_ranges p ≡ none)
  after_scan-none none p h = (refl, h)
  after_scan-none (some e) p h = cc

  names_lem :
      (ns : List Text) (p : ConflictPolicy W) → (check_names ns p ≡ none) ↔ (Names ns × InRange p)
  names_lem [] p = (λ h. cc, λ h. absurd (h.0.0 refl))
  names_lem (n ∷ ns) p = (
    λ h.
        let (s, c) = after_scan-none (scan [] (n ∷ ns)) p h in
        let a = scan_accepts [] (n ∷ ns) s in (((λ e. cc), a.known, a.distinct), ranges_in p c),
    λ ((_, k, a), r).
        let s = accepts_scan [] (n ∷ ns) k (nothing_seen (n ∷ ns)) a in
        rw (s, after_scan) (in_ranges p r),
  )

  -- A policy is valid exactly if its precedence, in lower case and trimmed, is not empty, has only
  -- names of the five sources and none of them twice, and its percentage is above 0 and not above 100,
  -- its window not negative and its threshold from 0 to 100.
  pub validate-conditions :
      (u : Unicode) (p : ConflictPolicy W)
      → (validate u p ≡ none) ↔ (Names (map (source_name u) p.precedence) × InRange p)
  unfolding validate
  validate-conditions u p = names_lem (map (source_name u) p.precedence) p
