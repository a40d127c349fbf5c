-- ===== src/Setup/Policy.antt =====
-- internal/setup/policy.go: the conflict policy of the wizard and its validation.
pub mod Valid
use readsync.Base.{
  ℕ, Bool, true, false, not, ◌||◌, List, [], ◌∷◌, Option, none, some, map, Text, codes, text_eq,
  exists, if◌then◌else◌,
}
use readsync.Base.Double.{Double}
use readsync.Base.Int.{ℤ, pos, int_lt}
use readsync.Resolver.Normalize.{Unicode, trim_space}

pub record ConflictPolicy (W : Type 0) : Type 0 where
  pub precedence : List Text
  pub suspicious_jump_percent : W
  pub suspicious_jump_window_minutes : ℤ
  pub finished_regression_threshold : ℤ

abbrev pub valid_policy_sources : List Text
valid_policy_sources =
    codes "koreader"
    ∷ codes "moon"
    ∷ codes "calibre"
    ∷ codes "goodreads_bridge"
    ∷ codes "kindle_via_goodreads"
    ∷ []

pub data PolicyError : Type 0 where
  no_precedence percent_range window_range threshold_range : PolicyError
  unknown_source duplicate_source : Text → PolicyError

-- `strings.TrimSpace(strings.ToLower(s))`.
abbrev pub source_name : Unicode → Text → Text
source_name u s = trim_space u (map u.to_lower s)

abbrev pub is_in : Text → List Text → Bool
is_in s names = exists (text_eq s) names

-- The loop over the names, with those already seen.
pub scan : List Text → List Text → Option PolicyError
scan seen [] = none
scan seen (s ∷ ss) =
    let rest = scan (s ∷ seen) ss in
    if not (is_in s valid_policy_sources)
    then some (unknown_source s)
    else if is_in s seen
    then some (duplicate_source s)
    else rest

module _ {W : Type 0} ⦃d : Double W⦄ where
  abbrev pub default_policy : ConflictPolicy W
  default_policy = record {
    precedence = valid_policy_sources;
    suspicious_jump_percent = d.lit 30 0;
    suspicious_jump_window_minutes = pos 60;
    finished_regression_threshold = pos 85;
  }

  -- The tests behind the loop.
  abbrev pub check_ranges : ConflictPolicy W → Option PolicyError
  check_ranges p =
      if d.le p.suspicious_jump_percent (d.lit 0 0) || d.lt (d.lit 100 0) p.suspicious_jump_percent
      then some percent_range
      else if int_lt p.suspicious_jump_window_minutes (pos 0)
      then some window_range
      else if int_lt p.finished_regression_threshold (pos 0)
          || int_lt (pos 100) p.finished_regression_threshold
      then some threshold_range
      else none

  abbrev pub after_scan : Option PolicyError → ConflictPolicy W → Option PolicyError
  after_scan (some e) p = some e
  after_scan none p = check_ranges p

  abbrev pub check_names : List Text → ConflictPolicy W → Option PolicyError
  check_names [] p = some no_precedence
  check_names (n ∷ ns) p = after_scan (scan [] (n ∷ ns)) p

  pub validate : Unicode → ConflictPolicy W → Option PolicyError
  unfolding scan
  validate u p = check_names (map (source_name u) p.precedence) p
