-- ===== src/Koreader/Tests.antt =====
-- A push and a pull of a concrete document.
use readsync.Base.{
  Bool, ◌++◌, ◌*◌, ◌/◌, true, false, [], ◌∷◌, some, ◌≡◌, refl, codes, Text, replicate, text_eq,
}
use readsync.Base.Double.{Thousandths, thousandths}
use readsync.Base.Stamp.{second}
use readsync.Model.{Source, AdapterHealthState}
use readsync.Resolver.Bands.{evidence_quality}
use readsync.Resolver.Normalize.{ascii}
use readsync.Core.Event.{clamp_percent}
use readsync.Core.Db.{Db, empty_db, put_book, put_alias}
use readsync.Core.Tx.{exec}
use readsync.Core.Resolve.{Env, resolve_book}
use readsync.Core.Pipeline.Effect.{jump_in}
use readsync.Koreader.{
  PushRequest, Server, answered, not_awaited, pushed, pulled, document_evidence, handle_push,
  handle_pull, device_fields, last_device,
}
use readsync.Webdav.Users.{Bcrypt}
use readsync.Koreader.Users.{Access, user_row}
use readsync.Koreader.Users.Failures.{Attempt, attempts, attempts-failures}
use readsync.Koreader.Refusal.{Ending, handle_push-Ending}
use readsync.Koreader.RoundTrip.{handle_pull-handle_push}

abbrev env : Env
env = record { unicode = ascii; affinity = λ s. s }

abbrev document : Text
document = replicate 64 b'a'

abbrev request : PushRequest Thousandths
request = record {
  document = document;
  progress = codes "epubcfi(/6/4)";
  percentage = some 1005;
  device = codes "Kobo";
  device_id = codes "k1";
}

abbrev server : Server Thousandths
server = record { db = empty_db; devices = [] }

abbrev known : Db Thousandths
known =
    put_alias (9 * second) 1 Source.koreader document
      (put_book (λ s. s) (9 * second) (document_evidence document) empty_db)

-- The client leaves before the writer is done.
handle_push-Ending_example :
    Ending env
      (9 * second)
      4
      request
      server
      []
      not_awaited
      (handle_push env (9 * second) 4 false true [] not_awaited request server)
handle_push-Ending_example =
    handle_push-Ending env (9 * second) 4 request server [] false true not_awaited

handle_pull-handle_push_example :
    let r = handle_push env (9 * second) 4 false false [] answered request server in
    let device = device_fields (last_device 4 r.1.devices) in
    (r.0 ≡ pushed document (9 * second / second))
    × (handle_pull 4 document r.1
        ≡ pulled (record {
          document = document;
          progress = codes "epubcfi(/6/4)";
          percentage = clamp_percent (some 1005);
          device = device.0;
          device_id = device.1;
          timestamp = 9 * second / second;
        }))
unfolding resolve_book exec evidence_quality jump_in
handle_pull-handle_push_example =
    handle_pull-handle_push env (9 * second) 4 request server 1 70 known
      (record { positive = tt; linked = tt })
      (record { document = refl; not_negative = refl; not_above = refl; newest = refl }) refl refl
      refl 4

abbrev matching : Bcrypt
matching = record { hash_password = λ p. some p; matches = text_eq }

abbrev access : Access
access = record {
  users = record { rows = user_row 1 (codes "mia") (codes "77") 1 ∷ []; seq = 1 };
  auth_fails = 9;
  health = AdapterHealthState.ok;
}

abbrev request_of : Bool → Text → Text → Attempt
request_of fault username md5_key = record { fault = fault; username = username; md5_key = md5_key }

-- A failure, a success, a failure, and a request whose look-up is refused.
attempts-failures_example :
    let a' =
      attempts matching
        ((request_of false (codes "mia") (codes "00") ∷ [])
          ++ request_of false (codes "mia") (codes "77")
            ∷ request_of false (codes "mia") (codes "00")
            ∷ request_of true (codes "mia") (codes "77")
            ∷ [])
        access in
    (a'.auth_fails ≡ 1) × (a'.health ≡ AdapterHealthState.ok)
attempts-failures_example =
    attempts-failures matching (request_of false (codes "mia") (codes "00") ∷ [])
      (request_of false (codes "mia") (codes "00")
        ∷ request_of true (codes "mia") (codes "77")
        ∷ [])
      (request_of false (codes "mia") (codes "77")) access refl refl (refl, (refl, tt))
