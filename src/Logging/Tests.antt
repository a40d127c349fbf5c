-- ===== src/Logging/Tests.antt =====
-- Keys of log fields.
use readsync.Base.{◌≡◌, refl, codes}
use readsync.Base.Codes.{utf8}
use readsync.Resolver.Normalize.{ascii}
use readsync.Logging.{redact_field}
use readsync.Logging.Tokens.{redact_field-secret}

redact_field-secret_example :
    redact_field ascii (λ v. v) (codes "X-Auth-Key") (codes "hunter2")
    ≡ redact_field ascii (λ v. v) (codes "X-Auth-Key") (codes "swordfish")
unfolding utf8
redact_field-secret_example =
    redact_field-secret ascii (λ v. v) (codes "X-Auth-Key") (codes "auth") refl
      (record {
        before = codes "x-";
        after = codes "-key";
        split = refl;
        left = refl;
        right = refl;
      })
      (codes "hunter2") (codes "swordfish")
