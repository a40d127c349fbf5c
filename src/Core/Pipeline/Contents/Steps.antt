-- ===== src/Core/Pipeline/Contents/Steps.antt =====
-- The statements that follow the resolution of a book, against the rows written out.
use readsync.Base.{
  ℕ, ◌+◌, true, false, List, [], ◌∷◌, ◌++◌, append_assoc, append-nil, Option, none, some, ◌≡◌, refl,
  sym, ◌∙◌, ap, first, leb, if◌then◌else◌, Bool-cases, Option-cases, inl, inr,
}
use mathlib.Core.Bool.{true≢false}
use readsync.Base.Double.{Double}
use readsync.Model.{Source, CanonicalProgress}
use readsync.Conflicts.{JumpReason, detect_suspicious_jump}
use readsync.Core.Event.{AdapterEvent}
use readsync.Core.Db.{Db, put_event, put_conflict, of_book, upsert, put_canonical, put_job, job_row}
use readsync.Core.Pipeline.{is_pinned}
use readsync.Core.Pipeline.Effect.{settled, jump_in, with_jobs}
use readsync.Core.Pipeline.Rules.{settled_conflict, settled_agreement}
use readsync.Core.Pipeline.Pinned.{first-upsert_same, first-upsert}
use readsync.Core.Pipeline.Contents.{
  targets_but, numbered, InConflict, InAgreement, IsJump, NoJump, targets_lem,
}

-- The tables but the outbox.
pub record SameTables {W : Type 0} (a b : Db W) : Type 0 where
  pub events : b.events ≡ a.events
  pub conflicts : b.conflicts ≡ a.conflicts
  pub canonical : b.canonical ≡ a.canonical
  pub books : b.books ≡ a.books
  pub aliases : b.aliases ≡ a.aliases

module _ {W : Type 0} ⦃d : Double W⦄ where
  pub with_jobs-SameTables :
      (now book event : ℕ) (conflict : Option ℕ) (targets : List Source) (db : Db W)
      → SameTables db (with_jobs now book event conflict targets db)
  with_jobs-SameTables now book event conflict [] db = record {
    events = refl;
    conflicts = refl;
    canonical = refl;
    books = refl;
    aliases = refl;
  }
  with_jobs-SameTables now book event conflict (target ∷ targets) db =
      let rest =
        with_jobs-SameTables now book event conflict targets
          (put_job now book event conflict target db) in
      record {
        events = rest.events;
        conflicts = rest.conflicts;
        canonical = rest.canonical;
        books = rest.books;
        aliases = rest.aliases;
      }

  with_jobs-rows :
      (now book event : ℕ) (conflict : Option ℕ) (targets : List Source) (db : Db W)
      → (with_jobs now book event conflict targets db).outbox.rows
        ≡ db.outbox.rows
          ++ numbered (λ id target. job_row now book event conflict target id) db.outbox.seq targets
  with_jobs-rows now book event conflict [] db = sym (append-nil db.outbox.rows)
  with_jobs-rows now book event conflict (target ∷ targets) db =
      with_jobs-rows now book event conflict targets (put_job now book event conflict target db)
      ∙ append_assoc db.outbox.rows
          (job_row now book event conflict target (db.outbox.seq + 1) ∷ []) _

  first-upsert_own :
      (now book event : ℕ) (ev : AdapterEvent W) (cs : List (CanonicalProgress W))
      → is_pinned (first (of_book book) cs) ≡ false
      → first (of_book book) (upsert now book event ev cs)
        ≡ some (record {
          book_id = book;
          updated_at = now;
          updated_by = ev.source;
          event_id = event;
          percent_complete = ev.percent_complete;
          page_number = ev.page_number;
          total_pages = ev.total_pages;
          raw_locator = ev.raw_locator;
          locator_type = ev.locator_type;
          read_status = ev.read_status;
          user_pinned = false;
        })
  first-upsert_own now book event ev cs h = first-upsert_same now book event ev cs ∙ rw h refl

  jump_lem :
      (now book confidence : ℕ) (ev : AdapterEvent W) (canon : CanonicalProgress W)
      (reason : JumpReason W) (db : Db W)
      → IsJump now book confidence ev canon reason db
      → jump_in now book confidence ev db ≡ some reason
  unfolding jump_in detect_suspicious_jump
  jump_lem now book confidence ev canon reason db h = rw (h.row, h.unpinned) h.jump

  no_jump_lem :
      (now book confidence : ℕ) (ev : AdapterEvent W) (db : Db W)
      → NoJump now book confidence ev db
      → jump_in now book confidence ev db ≡ none
  unfolding jump_in detect_suspicious_jump
  no_jump_lem now book confidence ev db h =
      elim (Option-cases (first (of_book book) db.canonical)) [
        | inl e ↦ rw e refl
        | inr (c, e) ↦ elim (Bool-cases c.user_pinned) [
          | inl p ↦ rw (e, p) refl
          | inr p ↦ rw (e, p) (h c e p)
        ]
      ]

  pub settled-InConflict :
      (now book confidence : ℕ) (ev : AdapterEvent W) (canon : CanonicalProgress W)
      (reason : JumpReason W) (db : Db W)
      → IsJump now book confidence ev canon reason db
      → InConflict now book confidence ev canon reason db (settled now book confidence ev db)
  settled-InConflict now book confidence ev canon reason db h =
      let event = db.events.seq + 1 in
      let base =
        put_conflict now book canon.event_id event reason (put_event now book confidence ev db) in
      let conflict = some (db.conflicts.seq + 1) in
      let whole : settled now book confidence ev db
          ≡ with_jobs now book event conflict (targets_but ev.source) base =
        settled_conflict now book confidence ev reason db
          (jump_lem now book confidence ev canon reason db h)
        ∙ rw (h.row, targets_lem ev.source) refl in
      let same = with_jobs-SameTables now book event conflict (targets_but ev.source) base in
      rw whole (record {
        events = ap (λ t. t.rows) same.events;
        conflicts = ap (λ t. t.rows) same.conflicts;
        jobs = with_jobs-rows now book event conflict (targets_but ev.source) base;
        canonical = same.canonical;
        books = same.books;
        aliases = same.aliases;
      })

  free_pinned :
      (o : Option (CanonicalProgress W))
      → ((c : CanonicalProgress W) → o ≡ some c → c.user_pinned ≡ false)
      → is_pinned o ≡ true
      → ⊥
  free_pinned none free p = true≢false (sym p)
  free_pinned (some c) free p = true≢false (sym p ∙ free c refl)

  pub settled-InAgreement :
      (now book confidence : ℕ) (ev : AdapterEvent W) (db : Db W)
      → NoJump now book confidence ev db
      → InAgreement now book confidence ev db (settled now book confidence ev db)
  settled-InAgreement now book confidence ev db h =
      let event = db.events.seq + 1 in
      let targets = if leb 60 confidence then targets_but ev.source else [] in
      let stored = put_event now book confidence ev db in
      let whole : settled now book confidence ev db
          ≡ with_jobs now book event none targets (
              if is_pinned (first (of_book book) db.canonical)
              then stored
              else put_canonical now book event ev stored) =
        settled_agreement now book confidence ev db (no_jump_lem now book confidence ev db h)
        ∙ rw (targets_lem ev.source) refl in
      elim (Bool-cases (is_pinned (first (of_book book) db.canonical))) [
        | inl p ↦
            let same = with_jobs-SameTables now book event none targets stored in
            rw (whole, p)
              (record {
                events = ap (λ t. t.rows) same.events;
                conflicts = same.conflicts;
                jobs = with_jobs-rows now book event none targets stored;
                pinned = λ c e q. same.canonical;
                updated = λ free. absurd (free_pinned (first (of_book book) db.canonical) free p);
                others = λ k e. ap (first (of_book k)) same.canonical;
                books = same.books;
                aliases = same.aliases;
              })
        | inr p ↦
            let base = put_canonical now book event ev stored in
            let same = with_jobs-SameTables now book event none targets base in
            rw (whole, p)
              (record {
                events = ap (λ t. t.rows) same.events;
                conflicts = same.conflicts;
                jobs = with_jobs-rows now book event none targets base;
                pinned = λ c e q. absurd (true≢false (sym q ∙ (rw e at p)));
                updated = λ free.
                    ap (first (of_book book)) same.canonical
                    ∙ first-upsert_own now book event ev db.canonical p;
                others = λ k e.
                    ap (first (of_book k)) same.canonical
                    ∙ first-upsert now book event k ev db.canonical e;
                books = same.books;
                aliases = same.aliases;
              })
      ]
