-- ===== src/Core/Pipeline/Pinned.antt =====
-- Progress that the user has pinned.
use readsync.Base.{
  ==_refl, ℕ, ◌+◌, Bool, true, false, List, [], ◌∷◌, Option, none, some, ◌≡◌, refl, inl, inr, arith,
  first, ◌==◌, Bool-cases, ◌∙◌, ==→≡,
}
use readsync.Base.Double.{Double}
use readsync.Model.{Source, CanonicalProgress}
use readsync.Conflicts.{JumpReason}
use readsync.Core.Event.{AdapterEvent, normalize_event}
use readsync.Core.Db.{Db, of_book, upsert, canonical_row, put_job}
use readsync.Core.Resolve.{Env}
use readsync.Core.Resolve.Frame.{resolve_book-Keeps}
use readsync.Core.Pipeline.{is_pinned, Outcome, process}
use readsync.Core.Pipeline.Effect.{settled, jump_in, with_jobs, process_atomic}
use readsync.Core.Pipeline.Refinement.{Effect, rejected, unresolved, accepted, process-Effect}
use readsync.Core.Pipeline.Rules.{settled_conflict, settled_agreement}

module _ {W : Type 0} ⦃d : Double W⦄ where
  pub with_jobs-canonical :
      (now book event : ℕ) (conflict : Option ℕ) (targets : List Source) (db : Db W)
      → (with_jobs now book event conflict targets db).canonical ≡ db.canonical
  with_jobs-canonical now book event conflict [] db = refl
  with_jobs-canonical now book event conflict (target ∷ targets) db =
      with_jobs-canonical now book event conflict targets
        (put_job now book event conflict target db)

  -- An update of the row of one book leaves the row of another alone.
  pub first-upsert :
      (now book event k : ℕ) (ev : AdapterEvent W) (cs : List (CanonicalProgress W))
      → (k == book) ≡ false
      → first (of_book k) (upsert now book event ev cs) ≡ first (of_book k) cs
  first-upsert now book event k ev [] h = ground arith
  first-upsert now book event k ev (c ∷ cs) h =
      ground (arith, first-upsert now book event k ev cs h)

  -- The row of the book itself holds the event, and keeps its pin.
  pub first-upsert_same :
      (now book event : ℕ) (ev : AdapterEvent W) (cs : List (CanonicalProgress W))
      → first (of_book book) (upsert now book event ev cs)
        ≡ some (canonical_row now book event ev (is_pinned (first (of_book book) cs)))
  first-upsert_same now book event ev [] = rw (==_refl book)
  first-upsert_same now book event ev (c ∷ cs) =
      ground (arith, ==_refl book, first-upsert_same now book event ev cs)

  -- The event of a book with an unpinned row is not one of a book with a pinned row.
  other_book :
      (book k : ℕ) (cs : List (CanonicalProgress W)) (c : CanonicalProgress W)
      → first (of_book k) cs ≡ some c
      → c.user_pinned ≡ true
      → is_pinned (first (of_book book) cs) ≡ false
      → (k == book) ≡ false
  other_book book k cs c e p q = elim (Bool-cases (k == book)) [
    | inr h ↦ h
    | inl h ↦
        let same : k ≡ book = ==→≡ k book h in
        let found : first (of_book book) cs ≡ some c = rw (← same) e in
        let pinned : is_pinned (first (of_book book) cs) ≡ true = rw found p in cc
  ]

  settled-pinned :
      (now book confidence k : ℕ) (ev : AdapterEvent W) (db : Db W) (c : CanonicalProgress W)
      → first (of_book k) db.canonical ≡ some c
      → c.user_pinned ≡ true
      → first (of_book k) (settled now book confidence ev db).canonical ≡ some c
  settled-pinned now book confidence k ev db c e p = go (jump_in now book confidence ev db) refl
    where
      go :
          (j : Option (JumpReason W))
          → jump_in now book confidence ev db ≡ j
          → first (of_book k) (settled now book confidence ev db).canonical ≡ some c
      go (some reason) j =
          rw (settled_conflict now book confidence ev reason db j, with_jobs-canonical) e
      go none j =
          rw (settled_agreement now book confidence ev db j, with_jobs-canonical)
            (elim (Bool-cases (is_pinned (first (of_book book) db.canonical))) [
              | inl q ↦ rw q e
              | inr q ↦ rw q (
                  first-upsert now book (db.events.seq + 1) k ev db.canonical
                    (other_book book k db.canonical c e p q)
                  ∙ e)
            ])

  unhindered-pinned :
      (env : Env) (now k : ℕ) (ev : AdapterEvent W) (db : Db W) (c : CanonicalProgress W)
      (r : Outcome × Db W)
      → Effect env now ev db r
      → first (of_book k) db.canonical ≡ some c
      → c.user_pinned ≡ true
      → first (of_book k) r.1.canonical ≡ some c
  unhindered-pinned env now k ev db c _ (rejected x v) e p = e
  unhindered-pinned env now k ev db c _ (unresolved v r) e p = e
  unhindered-pinned env now k ev db c _ (accepted book confidence db' v r) e p =
      let same = resolve_book-Keeps env now ev.book_evidence _ _ _ r in
      settled-pinned now book confidence k (normalize_event ev) db' c (rw same.canonical e) p

  -- Progress that the user has pinned stays the canonical progress of its book, whatever event is
  -- processed and whatever the database refuses.
  pub process-pinned :
      (env : Env) (now k : ℕ) (faults : List Bool) (ev : AdapterEvent W) (db : Db W)
      (c : CanonicalProgress W)
      → first (of_book k) db.canonical ≡ some c
      → c.user_pinned ≡ true
      → first (of_book k) (process env now faults ev db).1.canonical ≡ some c
  process-pinned env now k faults ev db c e p = elim (process_atomic env now faults ev db) [
    | inl f ↦ rw f e
    | inr same ↦ rw same (unhindered-pinned env now k ev db c _ (process-Effect env now ev db) e p)
  ]
