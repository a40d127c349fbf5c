-- ===== src/Outbox/Scheduler.antt =====
-- `FairScheduler`: workers that run at once. Between the claim of a job and its settlement the
-- workers of the other targets, and other workers of the same one, may take any step.
use readsync.Base.{
  ℕ, ◌+◌, Bool, true, false, List, [], ◌∷◌, ◌++◌, Option, none, some, ◌≡◌, ◌≢◌, refl, arith, All,
  All-at, All-drop, All-map, All-zip, ==_refl, first, ◌==◌, leb, sym, ap, ◌∙◌, ◌⊎◌, inl, inr, Text,
}
use readsync.Base.Table.{Table, update, update_where}
use readsync.Base.Table.Rows.{Rising, Found, first-Found, first_by_id, first-update, Rising-update}
use readsync.Model.{Source, OutboxJob, OutboxStatus}
use readsync.Outbox.{
  is_eligible, has_id, mark_running, scanned, take, claim_job, succeed, mark_succeeded, fail,
  mark_failed, next_retry, max_attempts, Round, settle, HasIds,
}
use readsync.Outbox.Store.{id_of}

-- The table, and the jobs that workers are executing.
pub record Fleet : Type 0 where
  pub table : Table OutboxJob
  pub in_flight : List OutboxJob

pub data Step : Fleet → Fleet → Type 0 where
  claim :
      (f : Fleet) (r : Round) (target : Source) (job : OutboxJob) (t : Table OutboxJob)
      → claim_job r.claim_fault r.now target f.table ≡ (some job, t)
      → Step f (record { table = t; in_flight = job ∷ f.in_flight })
  finish :
      (f : Fleet) (r : Round) (job : OutboxJob) (before after : List OutboxJob)
      → f.in_flight ≡ before ++ job ∷ after
      → Step f (record { table = settle r job f.table; in_flight = before ++ after })

pub data Reach (f : Fleet) : Fleet → Type 0 where
  here : Reach f f
  next : {g h : Fleet} → Reach f g → Step g h → Reach f h

-- The row of a job in flight is marked as running.
pub record IsRunning (rows : List OutboxJob) (job : OutboxJob) : Type 0 where
  pub row : OutboxJob
  pub found : first (has_id job.id) rows ≡ some row
  pub running : row.status ≡ OutboxStatus.running

abbrev pub Distinct : List OutboxJob → Type 0
Distinct [] = Unit {0}
Distinct (j ∷ js) = All (λ (k : OutboxJob). j.id ≢ k.id) js × Distinct js

pub record IsExclusive (f : Fleet) : Type 0 where
  pub ids : HasIds f.table
  pub running : All (IsRunning f.table.rows) f.in_flight
  pub distinct : Distinct f.in_flight

Distinct-drop :
    (before after : List OutboxJob) (job : OutboxJob)
    → Distinct (before ++ job ∷ after)
    → All (λ (k : OutboxJob). job.id ≢ k.id) (before ++ after) × Distinct (before ++ after)
Distinct-drop [] after job d = (d.0, d.1)
Distinct-drop (j ∷ before) after job d =
    let (apart, rest) = Distinct-drop before after job d.1 in
    let mine = All-at (λ (k : OutboxJob). j.id ≢ k.id) before after job d.0 in
    (
      ((λ e. mine (sym e)), apart),
      (All-drop (λ (k : OutboxJob). j.id ≢ k.id) before after job d.0, rest),
    )

-- Another job's update leaves a running job as it is.
other-IsRunning :
    (f : OutboxJob → OutboxJob)
    → ((j : OutboxJob) → id_of (f j) ≡ id_of j)
    → (id : ℕ) (rows : List OutboxJob) (k : OutboxJob) → id ≢ k.id
    → IsRunning rows k
    → IsRunning (update_where (has_id id) f rows) k
other-IsRunning f same id rows k apart h =
    let differ : (k.id == id) ≡ false = ground arith in
    record {
      row = h.row;
      found = first-update id_of f same id k.id rows ∙ rw differ h.found;
      running = h.running;
    }

-- What the settlement of a job does to the table: an update of its row, or nothing.
settle_shape :
    (r : Round) (job : OutboxJob) (t : Table OutboxJob)
    → (f : OutboxJob → OutboxJob) × ((j : OutboxJob) → id_of (f j) ≡ id_of j)
      × ((settle r job t ≡ update (has_id job.id) f t) ⊎ (settle r job t ≡ t))
unfolding settle mark_succeeded mark_failed
settle_shape r job t = go (r.execute job) r.mark_fault refl refl
  where
    go :
        (a : Option Text) (b : Bool)
        → r.execute job ≡ a
        → r.mark_fault ≡ b
        → (f : OutboxJob → OutboxJob) × ((j : OutboxJob) → id_of (f j) ≡ id_of j)
          × ((settle r job t ≡ update (has_id job.id) f t) ⊎ (settle r job t ≡ t))
    go none true p q = (λ j. j, λ j. refl, inr (rw (p, q, settle, mark_succeeded)))
    go (some msg) true p q = (λ j. j, λ j. refl, inr (rw (p, q, settle, mark_failed)))
    go none false p q = (succeed r.now, λ j. refl, inl (rw (p, q, settle, mark_succeeded)))
    go (some msg) false p q = (
      fail msg (next_retry r.random r.now (job.attempts + 1)) (leb max_attempts (job.attempts + 1))
          r.now,
      λ j. refl,
      inl (rw (p, q, settle, mark_failed)),
    )

take_shape :
    (now : ℕ) (t t' : Table OutboxJob) (job : OutboxJob) (o : Option OutboxJob)
    → take now t o ≡ (some job, t')
    → (j : OutboxJob) × (o ≡ some j)
      × (job ≡ scanned j)
      × (t' ≡ update (has_id j.id) (mark_running now) t)
unfolding take
take_shape now t t' job none e = cc
take_shape now t t' job (some j) e = (j, refl, ground arith, ground arith)

claim_shape :
    (fault : Bool) (now : ℕ) (target : Source) (t t' : Table OutboxJob) (job : OutboxJob)
    → claim_job fault now target t ≡ (some job, t')
    → (j : OutboxJob) × (first (is_eligible now target) t.rows ≡ some j)
      × (job ≡ scanned j)
      × (t' ≡ update (has_id j.id) (mark_running now) t)
unfolding claim_job
claim_shape true now target t t' job e = cc
claim_shape false now target t t' job e =
    take_shape now t t' job (first (is_eligible now target) t.rows) e

-- A job that a worker is given is not in flight, for its row is not marked as running.
fresh_claim :
    (now : ℕ) (target : Source) (t : Table OutboxJob) (j k : OutboxJob)
    → HasIds t
    → Found (is_eligible now target) t.rows j
    → IsRunning t.rows k
    → j.id ≢ k.id
unfolding is_eligible
fresh_claim now target t j k ids f h e =
    let risen : Rising id_of 0 t.seq (f.before ++ j ∷ f.after) = rw f.rows at ids in
    let own : first (has_id j.id) t.rows ≡ some j =
      rw f.rows (first_by_id id_of 0 t.seq f.before f.after j risen) in
    let same : first (has_id j.id) t.rows ≡ some h.row = rw e h.found in
    let row : h.row ≡ j = cc in
    ground (arith, f.hit, h.running, ap (λ (r : OutboxJob). r.status) row)

-- A claim, on the table that it leaves.
claim-IsExclusive :
    (now : ℕ) (target : Source) (t : Table OutboxJob) (flight : List OutboxJob) (j : OutboxJob)
    → Found (is_eligible now target) t.rows j
    → IsExclusive (record { table = t; in_flight = flight })
    → IsExclusive (record {
      table = update (has_id j.id) (mark_running now) t;
      in_flight = scanned j ∷ flight;
    })
claim-IsExclusive now target t flight j f x =
    let risen : Rising id_of 0 t.seq (f.before ++ j ∷ f.after) = rw f.rows at x.ids in
    let own : first (has_id j.id) t.rows ≡ some j =
      rw f.rows (first_by_id id_of 0 t.seq f.before f.after j risen) in
    let itself : (j.id == j.id) ≡ true = ==_refl j.id in
    let apart =
      All-map _ (λ (k : OutboxJob). j.id ≢ k.id) (λ k. fresh_claim now target t j k x.ids f) flight
        x.running in
    record {
      ids = Rising-update id_of (has_id j.id) (mark_running now) (λ _. refl) 0 t.seq t.rows x.ids;
      running = (
        record {
          row = mark_running now j;
          found =
              first-update id_of (mark_running now) (λ _. refl) j.id j.id t.rows ∙ rw (itself, own);
          running = refl;
        },
        All-zip (IsRunning (update_where (has_id j.id) (mark_running now) t.rows))
            (other-IsRunning (mark_running now) (λ _. refl) j.id t.rows) flight apart x.running,
      );
      distinct = (apart, x.distinct);
    }

finish-IsExclusive :
    (r : Round) (job : OutboxJob) (t : Table OutboxJob) (before after : List OutboxJob)
    → IsExclusive (record { table = t; in_flight = before ++ job ∷ after })
    → IsExclusive (record { table = settle r job t; in_flight = before ++ after })
finish-IsExclusive r job t before after x =
    let (apart, rest) = Distinct-drop before after job x.distinct in
    let running = All-drop (IsRunning t.rows) before after job x.running in
    let (f, same, shape) = settle_shape r job t in
    elim shape [
      | inl e ↦ rw e (record {
        ids = Rising-update id_of (has_id job.id) f same 0 t.seq t.rows x.ids;
        running =
            All-zip (IsRunning (update_where (has_id job.id) f t.rows))
              (other-IsRunning f same job.id t.rows) (before ++ after) apart running;
        distinct = rest;
      })
      | inr e ↦ rw e (record { ids = x.ids; running = running; distinct = rest })
    ]

Step-IsExclusive : {f g : Fleet} → Step f g → IsExclusive f → IsExclusive g
Step-IsExclusive (claim f r target job t e) x =
    let (j, found, same, table) = claim_shape r.claim_fault r.now target f.table t job e in
    rw (same, table)
      (claim-IsExclusive r.now target f.table f.in_flight j
        (first-Found (is_eligible r.now target) f.table.rows j found) x)
Step-IsExclusive (finish f r job before after e) x =
    finish-IsExclusive r job f.table before after
      (record { ids = x.ids; running = rw e at x.running; distinct = rw e at x.distinct })

-- However the workers interleave, starting with rising ids and no job in flight: no two of them
-- ever execute the same job, and every job in flight is marked as running in the table.
pub Reach-IsExclusive :
    {f g : Fleet} → HasIds f.table → f.in_flight ≡ [] → Reach f g → IsExclusive g
Reach-IsExclusive h e here = record { ids = h; running = rw e tt; distinct = rw e tt }
Reach-IsExclusive h e (next r s) = Step-IsExclusive s (Reach-IsExclusive h e r)
