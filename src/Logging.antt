-- ===== src/Logging.antt =====
-- internal/logging/redact.go: which keys of a log field are secret, and the redaction of fields by key.
-- What the regular expressions make of a value is a parameter.
pub mod Tokens
pub mod Tests
use readsync.Base.{
  ℕ, Bool, true, false, ◌&&◌, ◌||◌, List, [], ◌∷◌, Option, none, some, map, Text, codes, utf8,
  text_eq, ◌==◌, exists, if◌then◌else◌,
}
use readsync.Resolver.Normalize.{Unicode}

abbrev pub secret_keys : List Text
secret_keys =
    codes "password"
    ∷ codes "passwd"
    ∷ codes "secret"
    ∷ codes "token"
    ∷ codes "api_key"
    ∷ codes "apikey"
    ∷ codes "auth"
    ∷ codes "authorization"
    ∷ codes "credential"
    ∷ codes "credentials"
    ∷ codes "private_key"
    ∷ codes "privatekey"
    ∷ codes "access_token"
    ∷ codes "refresh_token"
    ∷ codes "bearer"
    ∷ codes "session"
    ∷ codes "cookie"
    ∷ codes "x-api-key"
    ∷ codes "client_secret"
    ∷ []

abbrev pub is_boundary : ℕ → Bool
is_boundary c = c == b'_' || c == b'-'

-- What stands behind `needle`, where a text begins with it.
abbrev pub after_prefix : Text → Text → Option Text
after_prefix [] s = some s
after_prefix (n ∷ ns) [] = none
after_prefix (n ∷ ns) (c ∷ s) = if c == n then after_prefix ns s else none

-- `rightOK`.
abbrev pub right_ok : Option Text → Bool
right_ok none = false
right_ok (some []) = true
right_ok (some (c ∷ s)) = is_boundary c

-- The loop from an index on, with `leftOK` there.
pub scan_tokens : Text → Bool → Text → Bool
scan_tokens needle left_ok [] = left_ok && right_ok (after_prefix needle [])
scan_tokens needle left_ok (c ∷ s) =
    let rest = scan_tokens needle (is_boundary c) s in
    if left_ok && right_ok (after_prefix needle (c ∷ s)) then true else rest

-- `tokenContains`, on the bytes of its texts.
pub token_contains : Text → Text → Bool
unfolding scan_tokens
token_contains s needle = if text_eq s needle then true else scan_tokens needle true s

pub is_secret_key : Unicode → Text → Bool
unfolding token_contains
is_secret_key u key = exists (token_contains (utf8 (map u.to_lower key))) secret_keys

-- `RedactField`, where `redact_value` is what the patterns make of a value.
pub redact_field : Unicode → (Text → Text) → Text → Text → Text
unfolding is_secret_key
redact_field u redact_value key value =
    if is_secret_key u key then codes "[REDACTED]" else redact_value value
