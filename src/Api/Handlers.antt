-- ===== src/Api/Handlers.antt =====
-- What the handlers do to the tables that the workers share with them.
use readsync.Base.{
  ℕ, ◌≤◌, Bool, true, false, List, [], ◌∷◌, Option, none, some, ◌≡◌, ◌≢◌, refl, ◌∙◌, arith, first,
  All, sym, ap, ==→≡, Option-cases, ◌==◌, if◌then◌else◌, Bool-cases, inl, inr,
}
use mathlib.Core.Option
use mathlib.Core.Bool.{true≢false}
use readsync.Base.Table.{Table, update_where}
use readsync.Base.Table.Rows.{Rising, Rising-update, first-update}
use readsync.Model.{OutboxJob, OutboxStatus, source_eq_refl}
use readsync.Outbox.{has_id, is_eligible, HasIds}
use readsync.Outbox.Store.{id_of}
use readsync.Api.{
  Tables, success, Winner, winner_a, winner_b, other_winner, blocked_by, release, requeue,
  delete_where, unblock, resolve_with, resolve_conflict, dismiss_conflict, retry_outbox,
  drop_outbox, Request, resolving, dismissing, retrying, dropping, serve, serve_tables,
}

-- An update of the rows that a test selects, where it keeps the ids.
first-update_where :
    (p : OutboxJob → Bool) (f : OutboxJob → OutboxJob)
    → ((j : OutboxJob) → id_of (f j) ≡ id_of j)
    → (k : ℕ) (rows : List OutboxJob)
    → first (has_id k) (update_where p f rows)
      ≡ Option.map (λ j. if p j then f j else j) (first (has_id k) rows)
first-update_where p f same k [] = refl
first-update_where p f same k (r ∷ rs) = ground (arith, same r, first-update_where p f same k rs)

is_blocked : (id : ℕ) (j : OutboxJob) → j.blocking_conflict_id ≡ some id → blocked_by id j ≡ true
is_blocked id j e = rw e (ground arith)

is_unrelated : (id : ℕ) (j : OutboxJob) → j.blocking_conflict_id ≢ some id → blocked_by id j ≡ false
is_unrelated id j h = elim (Option-cases j.blocking_conflict_id) [
  | inl e ↦ rw e refl
  | inr (k, e) ↦ elim (Bool-cases (k == id)) [
    | inl same ↦ absurd (h (e ∙ ap some (==→≡ k id same)))
    | inr differ ↦ rw (e, differ) refl
  ]
]

none_left :
    (id : ℕ) (rows : List OutboxJob)
    → All (λ j. j.blocking_conflict_id ≢ some id) (update_where (blocked_by id) release rows)
none_left id [] = tt
none_left id (r ∷ rs) = elim (Bool-cases (blocked_by id r)) [
  | inl e ↦ rw e ((λ h. cc), none_left id rs)
  | inr e ↦ rw e ((λ h. absurd (true≢false (sym (is_blocked id r h) ∙ e))), none_left id rs)
]

none_blocked :
    (id : ℕ) (t : Table OutboxJob)
    → All (λ j. j.blocking_conflict_id ≢ some id) (unblock false id t).rows
unfolding unblock
none_blocked id t = none_left id t.rows

released :
    (id k : ℕ) (j : OutboxJob) (t : Table OutboxJob)
    → first (has_id k) t.rows ≡ some j
    → (j.blocking_conflict_id ≡ some id
        → first (has_id k) (unblock false id t).rows
          ≡ some (record j { status = OutboxStatus.queued; blocking_conflict_id = none }))
      × (j.blocking_conflict_id ≢ some id → first (has_id k) (unblock false id t).rows ≡ some j)
unfolding unblock
released id k j t e =
    let after = first-update_where (blocked_by id) release (λ _. refl) k t.rows in
    (λ h. after ∙ rw (e, is_blocked id j h) refl, λ h. after ∙ rw (e, is_unrelated id j h) refl)

pub Rising-weaken :
    (lo lo' hi : ℕ) (rows : List OutboxJob)
    → lo ≤ lo'
    → Rising id_of lo' hi rows
    → Rising id_of lo hi rows
Rising-weaken lo lo' hi [] le h = omega arith
Rising-weaken lo lo' hi (r ∷ rs) le h = (omega (arith, h.0), h.1)

-- Deleted rows leave the ids of the others in order.
Rising-delete :
    (id lo hi : ℕ) (rows : List OutboxJob)
    → Rising id_of lo hi rows
    → Rising id_of lo hi (delete_where (has_id id) rows)
Rising-delete id lo hi [] h = h
Rising-delete id lo hi (r ∷ rs) h =
    let rest = Rising-delete id r.id hi rs h.1 in
    elim (Bool-cases (has_id id r)) [
      | inl e ↦ rw e (Rising-weaken lo r.id hi _ (omega (arith, h.0)) rest)
      | inr e ↦ rw e (h.0, rest)
    ]

deleted_gone :
    (id : ℕ) (rows : List OutboxJob) → first (has_id id) (delete_where (has_id id) rows) ≡ none
deleted_gone id [] = refl
deleted_gone id (r ∷ rs) = ground (arith, deleted_gone id rs)

deleted_others :
    (id k : ℕ) (rows : List OutboxJob)
    → k ≢ id
    → first (has_id k) (delete_where (has_id id) rows) ≡ first (has_id k) rows
deleted_others id k [] h = refl
deleted_others id k (r ∷ rs) h = ground (arith, deleted_others id k rs h)

module _ {R : Type 0} where
  abbrev pub outbox_of : Option (Tables R) → Table OutboxJob → Table OutboxJob
  outbox_of none t = t
  outbox_of (some s) t = s.outbox

  -- Where the ids of the jobs rise, they rise after any request, whatever the database refuses.
  pub serve-HasIds :
      (request : Request) (s : Tables R)
      → HasIds s.outbox
      → HasIds (outbox_of (serve request (some s)).1 s.outbox)
  unfolding serve serve_tables resolve_conflict resolve_with unblock dismiss_conflict retry_outbox
      drop_outbox
  serve-HasIds (resolving f f' now id other_winner) s h = h
  serve-HasIds (resolving true f' now id winner_a) s h = h
  serve-HasIds (resolving true f' now id winner_b) s h = h
  serve-HasIds (resolving false true now id winner_a) s h = h
  serve-HasIds (resolving false true now id winner_b) s h = h
  serve-HasIds (resolving false false now id winner_a) s h =
      Rising-update id_of (blocked_by id) release (λ _. refl) 0 s.outbox.seq s.outbox.rows h
  serve-HasIds (resolving false false now id winner_b) s h =
      Rising-update id_of (blocked_by id) release (λ _. refl) 0 s.outbox.seq s.outbox.rows h
  serve-HasIds (dismissing true now id) s h = h
  serve-HasIds (dismissing false now id) s h = h
  serve-HasIds (retrying true now id) s h = h
  serve-HasIds (retrying false now id) s h =
      Rising-update id_of (has_id id) (requeue now) (λ _. refl) 0 s.outbox.seq s.outbox.rows h
  serve-HasIds (dropping true id) s h = h
  serve-HasIds (dropping false id) s h = Rising-delete id 0 s.outbox.seq s.outbox.rows h

  -- The resolution of a conflict for one of its two events, when neither statement is refused: no
  -- job stays blocked by it; a job that was is queued and blocked by none, with its attempts and all its
  -- other columns as they were and whatever its status was; a job that was not stays as it is.
  pub resolve_conflict-releases :
      (now id : ℕ) (winner : Winner) (s : Tables R)
      → winner ≢ other_winner
      → let r = resolve_conflict false false now id winner s in
        (r.0 ≡ success)
        × All (λ j. j.blocking_conflict_id ≢ some id) r.1.outbox.rows
        × ((k : ℕ) (j : OutboxJob)
            → first (has_id k) s.outbox.rows ≡ some j
            → (j.blocking_conflict_id ≡ some id
                → first (has_id k) r.1.outbox.rows
                  ≡ some (record j { status = OutboxStatus.queued; blocking_conflict_id = none }))
              × (j.blocking_conflict_id ≢ some id → first (has_id k) r.1.outbox.rows ≡ some j))
  unfolding resolve_conflict resolve_with
  resolve_conflict-releases now id other_winner s h = absurd (h refl)
  resolve_conflict-releases now id winner_a s h =
      (refl, none_blocked id s.outbox, λ k j e. released id k j s.outbox e)
  resolve_conflict-releases now id winner_b s h =
      (refl, none_blocked id s.outbox, λ k j e. released id k j s.outbox e)

  -- When the statement is not refused, a job that the user retries is found again with no attempt
  -- used, and whatever its status was a worker of its target may claim it at once; the other jobs
  -- stay as they are.
  pub retry_outbox-eligible :
      (now later id k : ℕ) (s : Tables R) (j : OutboxJob)
      → first (has_id k) s.outbox.rows ≡ some j
      → let r = retry_outbox false now id s in
        (k ≢ id → first (has_id k) r.1.outbox.rows ≡ some j)
        × (k ≡ id
            → (j' : OutboxJob) × (first (has_id k) r.1.outbox.rows ≡ some j')
              × (j'.attempts ≡ 0)
              × (is_eligible later j.target_source j' ≡ true))
  unfolding retry_outbox is_eligible
  retry_outbox-eligible now later id k s j e =
      let after = first-update id_of (requeue now) (λ _. refl) id k s.outbox.rows in
      (
        λ h. after ∙ (let differ : (k == id) ≡ false = ground arith in rw (differ, e)),
        λ h. (
          requeue now j,
          after ∙ (let same : (k == id) ≡ true = ground arith in rw (same, e)),
          refl,
          rw (source_eq_refl j.target_source),
        ),
      )

  -- When the statement is not refused, a job that the user drops is gone, and the other jobs stay
  -- as they are.
  pub drop_outbox-gone :
      (id : ℕ) (s : Tables R)
      → let r = drop_outbox false id s in
        (first (has_id id) r.1.outbox.rows ≡ none)
        × ((k : ℕ) → k ≢ id → first (has_id k) r.1.outbox.rows ≡ first (has_id k) s.outbox.rows)
  unfolding drop_outbox
  drop_outbox-gone id s = (deleted_gone id s.outbox.rows, λ k. deleted_others id k s.outbox.rows)
