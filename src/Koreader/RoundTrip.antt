-- ===== src/Koreader/RoundTrip.antt =====
-- What a device pushes, a device pulls.
use readsync.Base.{
  ℕ, ◌+◌, ◌/◌, true, false, List, [], ◌∷◌, none, some, ◌≡◌, refl, ◌∙◌, Text, is_empty, leb,
  if◌then◌else◌, first, arith,
}
use readsync.Base.Double.{Double}
use readsync.Base.Stamp.{second}
use readsync.Model.{Source, CanonicalProgress}
use readsync.Core.Event.{validate_event, normalize_event, clamp_percent}
use readsync.Core.Db.{Db, of_book, canonical_row, put_event, put_canonical}
use readsync.Core.Resolve.{Env, select_alias, resolve_book}
use readsync.Core.Resolve.Lookup.{IsLinked}
use readsync.Core.Resolve.ByAlias.{resolve_book-by_hash}
use readsync.Core.Pipeline.{process, done, is_pinned, writeback_targets}
use readsync.Core.Pipeline.Effect.{jump_in, with_jobs}
use readsync.Core.Pipeline.Refinement.{open_session}
use readsync.Core.Pipeline.Rules.{agreement_result}
use readsync.Core.Pipeline.Pinned.{first-upsert_same, with_jobs-canonical}
use readsync.Core.Pipeline.Contents.Steps.{with_jobs-SameTables}
use readsync.Koreader.{
  Device, PushRequest, pushed, pulled, Server, is_sha256_hex, document_evidence, to_adapter_event,
  canonical_by_doc_hash, canonical_of, newer_canonical, note_device, device_fields, last_device,
  answered, submit_push, handle_push, handle_pull, answer_push, answer_pull,
}

not_empty : (document : Text) → is_sha256_hex document ≡ true → is_empty document ≡ false
not_empty [] h = ground arith
not_empty (c ∷ s) h = refl

module _ {W : Type 0} ⦃d : Double W⦄ where
  module _ (env : Env) (now user : ℕ) (req : PushRequest W) (s : Server W) where
    -- The push is one that the server takes.
    pub record IsFit : Type 0 where
      pub document : is_sha256_hex req.document ≡ true
      pub not_negative : d.lt req.percentage (d.lit 0 0) ≡ false
      pub not_above : d.lt (d.lit 101 2) req.percentage ≡ false
      pub newest : newer_canonical now req (canonical_by_doc_hash req.document s.db) ≡ none

    valid : IsFit → validate_event (to_adapter_event req) ≡ none
    unfolding validate_event
    valid f = rw (f.not_negative, f.not_above)

    push_lem :
        IsFit
        → handle_push env now user false false [] answered req s
          ≡ submit_push env now user false [] answered req none s
    unfolding handle_push
    push_lem f = rw (f.document, f.not_negative, f.not_above, f.newest)

    -- The tables that the push leaves.
    abbrev left : ℕ → ℕ → Db W → Db W
    left book confidence db' =
        with_jobs now book (db'.events.seq + 1) none
          (if leb 60 confidence then writeback_targets Source.koreader else [])
          (put_canonical now book (db'.events.seq + 1) (normalize_event (to_adapter_event req))
            (put_event now book confidence (normalize_event (to_adapter_event req)) db'))

    abbrev row : ℕ → Db W → CanonicalProgress W
    row book db' =
        canonical_row now book (db'.events.seq + 1) (normalize_event (to_adapter_event req))
          (is_pinned (first (of_book book) db'.canonical))

    left-canonical :
        (book confidence : ℕ) (db' : Db W)
        → select_alias Source.koreader req.document db' ≡ some book
        → canonical_by_doc_hash req.document (left book confidence db') ≡ some (row book db')
    left-canonical book confidence db' e =
        let event = db'.events.seq + 1 in
        let ev = normalize_event (to_adapter_event req) in
        let stored = put_canonical now book event ev (put_event now book confidence ev db') in
        let targets = if leb 60 confidence then writeback_targets Source.koreader else [] in
        let aliases = (with_jobs-SameTables now book event none targets stored).aliases in
        let canonical = with_jobs-canonical now book event none targets stored in
        rw (aliases, e, canonical_of, canonical) (first-upsert_same now book event ev db'.canonical)

    module _ (book confidence : ℕ) (db' : Db W) (linked : IsLinked s.db) (fit : IsFit)
        (resolved : resolve_book env now (document_evidence req.document) (open_session s.db)
          ≡ some ((book, confidence), open_session db'))
        (plausible : jump_in now book confidence (normalize_event (to_adapter_event req)) db'
          ≡ none)
        (unpinned : is_pinned (first (of_book book) db'.canonical) ≡ false) where
      processed : process env now [] (to_adapter_event req) s.db ≡ (done, left book confidence db')
      processed =
          agreement_result env now (to_adapter_event req) s.db db' book confidence (valid fit)
            resolved plausible
          ∙ rw unpinned

      abbrev devices : List Device
      devices = note_device false now user req s.devices

      push_result : handle_push env now user false false [] answered req s ≡ (
        pushed req.document (now / second),
        record { db = left book confidence db'; devices = devices },
      )
      unfolding submit_push
      push_result = push_lem fit ∙ rw (processed, answer_push)

      -- On linked tables, with no statement refused and the answer of the pipeline awaited, a push
      -- that passes the checks of the handler and is no suspicious jump of an unpinned book is
      -- answered by success, and a pull of the document, by whatever user, then gives the progress
      -- that was pushed, its percentage cut as `normalize_event` cuts it, with the time of the push
      -- in seconds.
      pub handle_pull-handle_push :
          (reader : ℕ)
          → let r = handle_push env now user false false [] answered req s in
            let device = device_fields (last_device reader r.1.devices) in
            (r.0 ≡ pushed req.document (now / second))
            × (handle_pull reader req.document r.1
                ≡ pulled (record {
                  document = req.document;
                  progress = req.progress;
                  percentage = clamp_percent req.percentage;
                  device = device.0;
                  device_id = device.1;
                  timestamp = now / second;
                }))
      unfolding handle_pull normalize_event
      handle_pull-handle_push reader =
          let by_document = left-canonical book confidence db' (
            resolve_book-by_hash env now req.document s.db db' book confidence linked
              (not_empty req.document fit.document) resolved) in
          rw push_result (refl, rw (fit.document, by_document, answer_pull) refl)
