-- ===== src/Koreader/Users.antt =====
-- internal/adapters/koreader: the users (users.go), their registration (handlers.go), and the check of the
-- headers of a request with the count of its failures (auth.go, koreader_impl.go). `bcrypt` is a parameter.
pub mod Failures
use readsync.Base.{
  ℕ, suc, ◌+◌, Bool, true, false, not, ◌&&◌, ◌||◌, List, [], ◌∷◌, ◌++◌, Option, none, some, Text,
  is_empty, text_eq, if◌then◌else◌, first, is_some, leb,
}
use readsync.Base.Table.{Table, insert}
use readsync.Model.{AdapterHealthState}
use readsync.Webdav.Users.{Bcrypt}

-- A row of koreader_users.
pub record User : Type 0 where
  pub id : ℕ
  pub username : Text
  pub password_hash : Text
  pub created_at : ℕ

pub record Access : Type 0 where
  pub users : Table User
  pub auth_fails : ℕ
  pub health : AdapterHealthState

pub data Registered : Type 0 where
  closed required taken internal_error created : Registered

pub data Authenticated : Type 0 where
  unauthorized auth_error : Authenticated
  user : ℕ → Authenticated

abbrev pub named : Text → User → Bool
named username r = text_eq r.username username

abbrev pub user_row : ℕ → Text → Text → ℕ → User
user_row now username hash id = record {
  id = id;
  username = username;
  password_hash = hash;
  created_at = now;
}

-- `createUser`: the column `username` is UNIQUE.
abbrev pub create_user : Bool → ℕ → Text → Option Text → Table User → Registered × Table User
create_user fault now username none users = (internal_error, users)
create_user fault now username (some hash) users =
    if is_some (first (named username) users.rows)
    then (taken, users)
    else if fault
    then (internal_error, users)
    else (created, insert (user_row now username hash) users)

-- `handleRegister`.
abbrev pub handle_register : Bcrypt → Bool → Bool → ℕ → Text → Text → Access → Registered × Access
handle_register b registration_open fault now username password a =
    let r = create_user fault now username (b.hash_password password) a.users in
    if not registration_open
    then (closed, a)
    else if is_empty username || is_empty password
    then (required, a)
    else (r.0, record a { users = r.1 })

-- `recordAuthFailure` and `clearAuthFailures`.
abbrev pub record_auth_failure : Access → Access
record_auth_failure a = record a {
  auth_fails = suc a.auth_fails;
  health = if leb 10 (suc a.auth_fails) then AdapterHealthState.needs_user_action else a.health;
}

abbrev pub clear_auth_failures : Access → Access
clear_auth_failures a = record a { auth_fails = 0; health = AdapterHealthState.ok }

abbrev pub verify_user : Bcrypt → Text → Option User → Access → Authenticated × Access
verify_user b md5_key none a = (unauthorized, record_auth_failure a)
verify_user b md5_key (some r) a =
    if b.matches r.password_hash md5_key
    then (user r.id, clear_auth_failures a)
    else (unauthorized, record_auth_failure a)

-- `authMiddleware`, of the two headers.
pub auth_middleware : Bcrypt → Bool → Text → Text → Access → Authenticated × Access
auth_middleware b fault username md5_key a =
    if is_empty username || is_empty md5_key
    then (unauthorized, a)
    else if fault
    then (auth_error, a)
    else verify_user b md5_key (first (named username) a.users.rows) a
