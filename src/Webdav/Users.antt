-- ===== src/Webdav/Users.antt =====
-- internal/adapters/webdav/webdav.go: the users of the server and who a request is from. `bcrypt` is a
-- parameter: `hash_password` gives `none` where it returns an error.
use mathlib.Core.Option.{none-ne-some}
use readsync.Base.{
  ℕ, ◌+◌, Bool, true, false, ◌||◌, Option, none, some, Text, is_empty, text_eq, text_eq→≡,
  if◌then◌else◌, first, is_some, first-append_new, first-append_other, ◌≡◌, ◌≢◌, refl, sym, ap,
  Bool-cases, Option-cases, inl, inr, text_eq_refl,
}
use readsync.Base.Table.{Table, insert}
use readsync.Webdav.Archive.{MoonUser, named}

pub record Bcrypt : Type 0 where
  pub hash_password : Text → Option Text
  pub matches : Text → Text → Bool

pub data CreateError : Type 0 where
  required hash_failed user_exists insert_failed : CreateError

abbrev pub user_row : ℕ → Text → Text → ℕ → MoonUser
user_row now username hash id = record {
  id = id;
  username = username;
  password_hash = hash;
  created_at = now;
}

-- From the hash on: the column `username` is UNIQUE.
abbrev pub insert_user :
    Bool → ℕ → Text → Option Text → Table MoonUser → Option CreateError × Table MoonUser
insert_user fault now username none users = (some hash_failed, users)
insert_user fault now username (some hash) users =
    if is_some (first (named username) users.rows)
    then (some user_exists, users)
    else if fault
    then (some insert_failed, users)
    else (none, insert (user_row now username hash) users)

-- `CreateUser`.
abbrev pub create_user :
    Bcrypt → Bool → ℕ → Text → Text → Table MoonUser → Option CreateError × Table MoonUser
create_user b fault now username password users =
    if is_empty username || is_empty password
    then (some required, users)
    else insert_user fault now username (b.hash_password password) users

abbrev pub check_password : Bcrypt → Text → Text → Option MoonUser → Option Text
check_password b user pass none = none
check_password b user pass (some r) = if b.matches r.password_hash pass then some user else none

-- `authenticate`, of the credentials of a request. A refused look-up lets nobody in.
abbrev pub authenticate : Bcrypt → Bool → Option (Text × Text) → Table MoonUser → Option Text
authenticate b fault none users = none
authenticate b fault (some (user, pass)) users =
    if is_empty user || is_empty pass || fault
    then none
    else check_password b user pass (first (named user) users.rows)

-- What `bcrypt` documents: a password matches its own hash.
pub record IsBcrypt (b : Bcrypt) : Type 0 where
  pub own : (pass hash : Text) → b.hash_password pass ≡ some hash → b.matches hash pass ≡ true

other_name : (user username : Text) → user ≢ username → text_eq username user ≡ false
other_name user username other = elim (Bool-cases (text_eq username user)) [
  | inl e ↦ absurd (other (sym (text_eq→≡ username user e)))
  | inr e ↦ e
]

not_created :
    (e : CreateError) (users users' : Table MoonUser)
    → ◌≢◌ {A = Option CreateError × Table MoonUser} (some e, users) (none, users')
not_created e users users' h = none-ne-some e (sym (ap (λ x. x.0) h))

-- What a user that is created adds.
created :
    (b : Bcrypt) (fault : Bool) (now : ℕ) (username : Text) (o : Option Text)
    (users users' : Table MoonUser)
    → insert_user fault now username o users ≡ (none, users')
    → (hash : Text) × (o ≡ some hash)
      × (first (named username) users.rows ≡ none)
      × (users' ≡ insert (user_row now username hash) users)
created b fault now username none users users' e = absurd (not_created hash_failed users users' e)
created b fault now username (some hash) users users' e =
    elim (Option-cases (first (named username) users.rows)) [
      | inr (r, h) ↦ absurd (not_created user_exists users users' (rw h at e))
      | inl h ↦ elim (Bool-cases fault) [
        | inl f ↦ absurd (not_created insert_failed users users' (rw (h, f) at e))
        | inr f ↦ (hash, refl, h, sym (ap (λ x. x.1) (rw (h, f) at e)))
      ]
    ]

-- A user that is created is let in with the password it is created with, and no one else is let in or
-- kept out by that: the credentials of every other name are answered as before.
pub authenticate-create_user :
    (b : Bcrypt) (fault : Bool) (now : ℕ) (username password : Text) (users users' : Table MoonUser)
    → IsBcrypt b
    → create_user b fault now username password users ≡ (none, users')
    → (authenticate b false (some (username, password)) users' ≡ some username)
      × ((fault' : Bool) (user pass : Text)
          → user ≢ username
          → authenticate b fault' (some (user, pass)) users'
            ≡ authenticate b fault' (some (user, pass)) users)
authenticate-create_user b fault now username password users users' bcrypt e =
    elim (Bool-cases (is_empty username || is_empty password)) [
      | inl k ↦ absurd (not_created required users users' (rw k at e))
      | inr k ↦
          let (hash, hashed, free, same) =
            created b fault now username (b.hash_password password) users users' (rw k at e) in
          let row = user_row now username hash (users.seq + 1) in
          let own : named username row ≡ true = text_eq_refl username in
          let found = first-append_new (named username) users.rows row free own in
          (
            rw (same, k, found, check_password, bcrypt.own password hash hashed) refl,
            λ fault' user pass other.
                let differs : named user row ≡ false = other_name user username other in
                let rest = first-append_other (named user) users.rows row differs in
                rw (same, rest) refl,
          )
    ]
