-- ===== src/Outbox/Store.antt =====
-- What a round of the worker does to the table.
use readsync.Base.{
  ℕ, ◌+◌, Bool, true, false, List, ◌∷◌, ◌++◌, Option, none, some, ◌≡◌, refl, ◌⊎◌, inl, inr, arith,
  leb, if◌then◌else◌, first, exists, Text, ap, ◌∙◌,
}
use readsync.Base.Table.{Table, update_where}
use readsync.Base.Table.Rows.{
  Rising, Found, first-append, exists-first, update_by_id, Rising-replace,
}
use readsync.Model.{Source, OutboxJob}
use readsync.Outbox.{
  max_attempts, has_id, next_retry, is_eligible, scanned, mark_running, take, claim_job, succeed,
  mark_succeeded, fail, mark_failed, Round, settle, resume, process_one, HasIds,
}

-- What the answer of the adapter makes of the claimed job.
abbrev pub answered : Round → OutboxJob → Option Text → OutboxJob
answered r job none = succeed r.now (mark_running r.now job)
answered r job (some msg) =
    fail msg (next_retry r.random r.now (job.attempts + 1)) (leb max_attempts (job.attempts + 1))
      r.now (mark_running r.now job)

abbrev pub outcome : Round → OutboxJob → OutboxJob
outcome r job =
    if r.mark_fault then mark_running r.now job else answered r job (r.execute (scanned job))

abbrev pub id_of : OutboxJob → ℕ
id_of j = j.id

-- The second statement of a round, on the rows that the claim left.
settle_lem :
    (r : Round) (job : OutboxJob) (t : Table OutboxJob) (pre post : List OutboxJob)
    → t.rows ≡ pre ++ mark_running r.now job ∷ post
    → Rising id_of 0 t.seq (pre ++ mark_running r.now job ∷ post)
    → (settle r (scanned job) t).rows ≡ pre ++ outcome r job ∷ post
unfolding settle mark_succeeded mark_failed
settle_lem r job t pre post e ids = go (r.execute (scanned job)) r.mark_fault refl refl
  where
    go :
        (a : Option Text) (b : Bool)
        → r.execute (scanned job) ≡ a
        → r.mark_fault ≡ b
        → (settle r (scanned job) t).rows ≡ pre ++ outcome r job ∷ post
    go none true p q = rw (p, q, settle, mark_succeeded) e
    go (some msg) true p q = rw (p, q, settle, mark_failed) e
    go none false p q =
        rw (p, q, settle, mark_succeeded, e)
          (update_by_id id_of (succeed r.now) 0 t.seq pre post (mark_running r.now job) ids)
    go (some msg) false p q =
        rw (p, q, settle, mark_failed, e)
          (update_by_id id_of
            (fail msg (next_retry r.random r.now (job.attempts + 1))
              (leb max_attempts (job.attempts + 1)) r.now)
            0 t.seq pre post (mark_running r.now job) ids)

claim_first :
    (now : ℕ) (target : Source) (t : Table OutboxJob) (job : OutboxJob)
    → HasIds t
    → (f : Found (is_eligible now target) t.rows job)
    → claim_job false now target t
      ≡ (some (scanned job), record t { rows = f.before ++ mark_running now job ∷ f.after })
unfolding claim_job
claim_first now target t job ids f =
    let found : first (is_eligible now target) t.rows ≡ some job =
      rw f.rows (first-append _ f.before f.after job f.skipped f.hit) in
    let risen : Rising id_of 0 t.seq (f.before ++ job ∷ f.after) = rw f.rows at ids in
    let marked : update_where (has_id job.id) (mark_running now) t.rows
        ≡ f.before ++ mark_running now job ∷ f.after =
      rw f.rows (update_by_id id_of (mark_running now) 0 t.seq f.before f.after job risen) in
    rw (found, take) (λ i. (some (scanned job), record t { rows = marked i }))

claim_none :
    (now : ℕ) (target : Source) (t : Table OutboxJob)
    → exists (is_eligible now target) t.rows ≡ false
    → claim_job false now target t ≡ (none, t)
unfolding claim_job
claim_none now target t quiet = rw (exists-first (is_eligible now target) t.rows quiet, take)

module _ (r : Round) (target : Source) (t : Table OutboxJob) where
  -- On a table whose ids rise, a round whose claim works takes the first eligible job of the target
  -- and changes that one only: to succeeded, to retrying or to a dead letter by the answer of the
  -- adapter and the attempts; the job stays running if the last statement fails.
  pub process_one-first :
      (job : OutboxJob)
      → HasIds t
      → (f : Found (is_eligible r.now target) t.rows job) → r.claim_fault ≡ false
      → (process_one r target t).rows ≡ f.before ++ outcome r job ∷ f.after
  unfolding process_one
  process_one-first job ids f ready =
      let risen : Rising id_of 0 t.seq (f.before ++ job ∷ f.after) = rw f.rows at ids in
      let claimed =
        ap (λ b. claim_job b r.now target t) ready ∙ claim_first r.now target t job ids f in
      ap (λ c. (resume r c).rows) claimed
      ∙ (settle_lem r job _ f.before f.after refl
          (Rising-replace id_of 0 t.seq f.before f.after job (mark_running r.now job) refl risen))

  -- With no eligible job, or where the claim fails, a round changes nothing.
  pub process_one-idle :
      (exists (is_eligible r.now target) t.rows ≡ false) ⊎ (r.claim_fault ≡ true)
      → process_one r target t ≡ t
  unfolding process_one
  process_one-idle h = ap (resume r) (nothing r.claim_fault h)
    where
      nothing :
          (b : Bool)
          → (exists (is_eligible r.now target) t.rows ≡ false) ⊎ (b ≡ true)
          → claim_job b r.now target t ≡ (none, t)
      nothing true h = unfold claim_job in refl
      nothing false (inl quiet) = claim_none r.now target t quiet
      nothing false (inr bad) = cc

  pub process_one-seq : (process_one r target t).seq ≡ t.seq
  unfolding process_one claim_job settle mark_succeeded mark_failed
  process_one-seq = ground arith
