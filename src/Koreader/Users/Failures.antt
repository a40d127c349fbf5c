-- ===== src/Koreader/Users/Failures.antt =====
-- When the adapter asks for the user: after ten failures in a row.
use mathlib.Core.Bool.{true≢false}
use readsync.Base.{
  ℕ, false, not, ◌&&◌, ◌++◌, ◌+◌, ◌∙◌, ap, All, sym, Option-cases, if◌then◌else◌, suc, Bool, true,
  ◌||◌, List, [], ◌∷◌, none, some, Text, is_empty, first, ◌≡◌, refl, arith, Bool-cases, inl, inr,
  leb,
}
use readsync.Model.{AdapterHealthState}
use readsync.Webdav.Users.{Bcrypt}
use readsync.Koreader.Users.{
  Access, User, named, record_auth_failure, clear_auth_failures, auth_middleware,
}

-- A request, with whether its look-up is refused.
pub record Attempt : Type 0 where
  pub fault : Bool
  pub username : Text
  pub md5_key : Text

abbrev pub attempts : Bcrypt → List Attempt → Access → Access
attempts b [] a = a
attempts b (r ∷ rs) a = attempts b rs (auth_middleware b r.fault r.username r.md5_key a).1

-- Both headers are there, and the look-up is answered.
abbrev pub is_checked : Attempt → Bool
is_checked r = not (is_empty r.username || is_empty r.md5_key) && not r.fault

-- The row of the name has a hash that the key matches.
abbrev pub is_match : Bcrypt → List User → Text → Text → Bool
is_match b users username md5_key = elim (first (named username) users) [
  | none ↦ false
  | some u ↦ b.matches u.password_hash md5_key
]

-- The requests that were checked and whose key did not match.
abbrev pub failures : Bcrypt → List User → List Attempt → ℕ
failures b users [] = 0
failures b users (r ∷ rs) =
    let rest = failures b users rs in
    if is_checked r && not (is_match b users r.username r.md5_key) then suc rest else rest

-- What one request does.
unchecked_lem :
    (b : Bcrypt) (r : Attempt) (a : Access)
    → is_checked r ≡ false
    → (auth_middleware b r.fault r.username r.md5_key a).1 ≡ a
unfolding auth_middleware
unchecked_lem b r a h = elim (Bool-cases (is_empty r.username || is_empty r.md5_key)) [
  | inl e ↦ rw e refl
  | inr e ↦ elim (Bool-cases r.fault) [
    | inl f ↦ rw (e, f) refl
    | inr f ↦ absurd (true≢false (rw (e, f) at h))
  ]
]

checked_lem :
    (b : Bcrypt) (r : Attempt) (a : Access)
    → is_checked r ≡ true
    → (auth_middleware b r.fault r.username r.md5_key a).1 ≡ (
        if is_match b a.users.rows r.username r.md5_key
        then clear_auth_failures a
        else record_auth_failure a)
unfolding auth_middleware
checked_lem b r a h = elim (Bool-cases (is_empty r.username || is_empty r.md5_key)) [
  | inl e ↦ absurd (true≢false (sym (rw e at h)))
  | inr e ↦ elim (Bool-cases r.fault) [
    | inl f ↦ absurd (true≢false (sym (rw (e, f) at h)))
    | inr f ↦ elim (Option-cases (first (named r.username) a.users.rows)) [
      | inl o ↦ rw (e, f, is_match, o) refl
      | inr (u, o) ↦ elim (Bool-cases (b.matches u.password_hash r.md5_key)) [
        | inl m ↦ rw (e, f, is_match, o, m) refl
        | inr m ↦ rw (e, f, is_match, o, m) refl
      ]
    ]
  ]
]

attempts-append :
    (b : Bcrypt) (rs rs' : List Attempt) (a : Access)
    → attempts b (rs ++ rs') a ≡ attempts b rs' (attempts b rs a)
attempts-append b [] rs' a = refl
attempts-append b (r ∷ rs) rs' a =
    attempts-append b rs rs' (auth_middleware b r.fault r.username r.md5_key a).1

-- The health that a count of failures makes.
abbrev pub health_of : ℕ → AdapterHealthState
health_of n = if leb 10 n then AdapterHealthState.needs_user_action else AdapterHealthState.ok

record_auth_failure-health :
    (a : Access)
    → a.health ≡ health_of a.auth_fails
    → (record_auth_failure a).health ≡ health_of (suc a.auth_fails)
record_auth_failure-health a h = ground arith

users_kept : (b : Bcrypt) (rs : List Attempt) (a : Access) → (attempts b rs a).users ≡ a.users
users_kept b [] a = refl
users_kept b (r ∷ rs) a =
    users_kept b rs (auth_middleware b r.fault r.username r.md5_key a).1
    ∙ elim (Bool-cases (is_checked r)) [
      | inl e ↦
          ap (λ x. x.users) (checked_lem b r a e)
          ∙ same_users (is_match b a.users.rows r.username r.md5_key) a
      | inr e ↦ ap (λ x. x.users) (unchecked_lem b r a e)
    ]
  where
    same_users :
        (m : Bool) (a : Access)
        → (if m then clear_auth_failures a else record_auth_failure a).users ≡ a.users
    same_users true a = refl
    same_users false a = refl

abbrev pub NoSuccess : Bcrypt → List User → Attempt → Type 0
NoSuccess b users r = (is_checked r && is_match b users r.username r.md5_key) ≡ false

-- The count and the health behind requests that none succeeds.
counted :
    (b : Bcrypt) (rs : List Attempt) (a : Access)
    → All (NoSuccess b a.users.rows) rs
    → a.health ≡ health_of a.auth_fails
    → ((attempts b rs a).auth_fails ≡ a.auth_fails + failures b a.users.rows rs)
      × ((attempts b rs a).health ≡ health_of (attempts b rs a).auth_fails)
counted b [] a quiet h = (omega arith, h)
counted b (r ∷ rs) a (no_success, quiet) h = elim (Bool-cases (is_checked r)) [
  | inl e ↦
      let differ : is_match b a.users.rows r.username r.md5_key ≡ false = rw e at no_success in
      let step : (auth_middleware b r.fault r.username r.md5_key a).1 ≡ record_auth_failure a =
        checked_lem b r a e ∙ rw differ refl in
      let rest = counted b rs (record_auth_failure a) quiet (record_auth_failure-health a h) in
      let run : attempts b (r ∷ rs) a ≡ attempts b rs (record_auth_failure a) =
        ap (attempts b rs) step in
      rw (run, e, differ) (omega (arith, rest.0), rest.1)
  | inr e ↦
      let run : attempts b (r ∷ rs) a ≡ attempts b rs a =
        ap (attempts b rs) (unchecked_lem b r a e) in
      rw (run, e) (counted b rs a quiet h)
]

-- Behind a request that is checked and whose key matches the row of its name, and then any requests of
-- which none does so, the count of failures is the number of those that were checked and did not match,
-- and the adapter asks for the user if they are ten or more, and is well if they are fewer. What was counted before
-- does not matter.
pub attempts-failures :
    (b : Bcrypt) (before after : List Attempt) (r : Attempt) (a : Access)
    → is_checked r ≡ true
    → is_match b a.users.rows r.username r.md5_key ≡ true
    → All (NoSuccess b a.users.rows) after
    → let a' = attempts b (before ++ r ∷ after) a in
      let n = failures b a.users.rows after in
      (a'.auth_fails ≡ n)
      × (a'.health
          ≡ (if leb 10 n then AdapterHealthState.needs_user_action else AdapterHealthState.ok))
attempts-failures b before after r a checked match quiet =
    let a1 = attempts b before a in
    let users : a1.users ≡ a.users = users_kept b before a in
    let step : (auth_middleware b r.fault r.username r.md5_key a1).1 ≡ clear_auth_failures a1 =
      checked_lem b r a1 checked ∙ rw (users, match) refl in
    let (count, health) = counted b after (clear_auth_failures a1) (rw users quiet) refl in
    let whole : attempts b (before ++ r ∷ after) a ≡ attempts b after (clear_auth_failures a1) =
      attempts-append b before (r ∷ after) a ∙ ap (attempts b after) step in
    let count' : (attempts b after (clear_auth_failures a1)).auth_fails
        ≡ failures b a.users.rows after =
      omega (arith, count, ap (λ t. failures b t.rows after) users) in
    rw whole (count', health ∙ ap health_of count')
