-- ===== src/Setup/Wizard/Pages.antt =====
-- The wizard over any series of calls.
use readsync.Base.{
  ℕ, Bool, true, false, List, [], ◌∷◌, Option, none, some, ◌≡◌, refl, ap, ◌∙◌, ◌↔◌, arith, Text,
  if◌then◌else◌, Bool-cases, inl, inr,
}
use readsync.Setup.Wizard.{
  PageSlug, welcome, system_scan, calibre, goodreads_bridge, koreader, moon, conflict_policy,
  test_sync, diagnostics, finish, unknown_page, pending_page, Status, page_eq, valid_slug,
  PageState, State, new, page_in, put_page, set_current, update_page, complete_from, complete,
  reset, next_page, prev_page,
}

abbrev pub at_page : PageSlug → State → State
at_page p s = record s { current_page = p }

-- Forward and back are inverse to each other: from one page the next is another exactly if from that
-- one the previous is the first.
pub next_page-prev_page :
    (s : State) (p q : PageSlug)
    → (next_page (at_page p s) ≡ some q) ↔ (prev_page (at_page q s) ≡ some p)
unfolding next_page prev_page
next_page-prev_page s p q = (λ h. ground arith, λ h. ground arith)

page_eq→≡ : (p q : PageSlug) → page_eq p q ≡ true → p ≡ q
page_eq→≡ p q h = ground arith

page_eq_refl : (p : PageSlug) → page_eq p p ≡ true
page_eq_refl p = ground arith

apart : (p q slug : PageSlug) → page_eq p q ≡ false → page_eq p slug ≡ true → page_eq q slug ≡ false
apart p q slug e h = ground arith

replaced :
    {A : Type 0} (b : Bool) (x y : A) (o : Option A)
    → (if b then some y else o) ≡ (if b then some y else (if b then some x else o))
replaced true x y o = refl
replaced false x y o = refl

-- The states of the pages after an update.
page_in-put_page :
    (q : PageState) (slug : PageSlug) (ps : List PageState)
    → page_in slug (put_page q ps) ≡ (if page_eq q.slug slug then some q else page_in slug ps)
page_in-put_page q slug [] = refl
page_in-put_page q slug (p ∷ ps) = elim (Bool-cases (page_eq p.slug q.slug)) [
  | inl e ↦
      let same : page_eq p.slug slug ≡ page_eq q.slug slug =
        ap (λ s. page_eq s slug) (page_eq→≡ p.slug q.slug e) in
      rw (e, same) (replaced (page_eq q.slug slug) p q (page_in slug ps))
  | inr e ↦ elim (Bool-cases (page_eq p.slug slug)) [
    | inl h ↦ rw (e, h, apart p.slug q.slug slug e h)
    | inr h ↦ rw (e, h) (page_in-put_page q slug ps)
  ]
]

-- A page has a state of its own.
abbrev pub HasPage : State → PageSlug → Type 0
HasPage s slug = (p : PageState) × (page_in slug s.page_states ≡ some p) × (p.slug ≡ slug)

pub record IsSane (s : State) : Type 0 where
  pub current : valid_slug s.current_page ≡ true
  pub has_pages : (slug : PageSlug) → valid_slug slug ≡ true → HasPage s slug

-- The calls that change the state, with the faults of the file.
pub data Call : Type 0 where
  setting : PageSlug → Call
  updating : ℕ → PageSlug → Status → Text → Call
  completing resetting : ℕ → Call

abbrev pub call : Call → Bool → State → State
call (setting slug) fault s = (set_current fault slug s).0
call (updating now slug status msg) fault s = (update_page fault now slug status msg s).0
call (completing now) fault s = (complete fault now s).0
call (resetting now) fault s = (reset fault now s).0

pub calls : List (Call × Bool) → State → State
calls [] s = s
calls ((c, fault) ∷ cs) s = calls cs (call c fault s)

new-IsSane : (now : ℕ) → IsSane (new now)
unfolding new
new-IsSane now = record { current = refl; has_pages = go }
  where
    go : (slug : PageSlug) → valid_slug slug ≡ true → HasPage (new now) slug
    go welcome h = (pending_page now welcome, refl, refl)
    go system_scan h = (pending_page now system_scan, refl, refl)
    go calibre h = (pending_page now calibre, refl, refl)
    go goodreads_bridge h = (pending_page now goodreads_bridge, refl, refl)
    go koreader h = (pending_page now koreader, refl, refl)
    go moon h = (pending_page now moon, refl, refl)
    go conflict_policy h = (pending_page now conflict_policy, refl, refl)
    go test_sync h = (pending_page now test_sync, refl, refl)
    go diagnostics h = (pending_page now diagnostics, refl, refl)
    go finish h = (pending_page now finish, refl, refl)
    go unknown_page h = cc

call-IsSane : (c : Call) (fault : Bool) (s : State) → IsSane s → IsSane (call c fault s)
unfolding set_current update_page complete reset
call-IsSane (setting slug) fault s h = elim (Bool-cases (valid_slug slug)) [
  | inl e ↦ rw (e, call, set_current) (record { current = e; has_pages = h.has_pages })
  | inr e ↦ rw (e, call, set_current) h
]
call-IsSane (updating now slug status msg) fault s h = elim (Bool-cases (valid_slug slug)) [
  | inl e ↦
      rw (e, call, update_page)
        (record {
          current = h.current;
          has_pages = λ p v. updated (page_eq slug p) refl (h.has_pages p v);
        })
  | inr e ↦ rw (e, call, update_page) h
]
  where
    new_state : PageState
    new_state = record { slug = slug; status = status; message = msg; updated_at = now }

    after : State
    after = record s { page_states = put_page new_state s.page_states }

    updated : {p : PageSlug} (b : Bool) → page_eq slug p ≡ b → HasPage s p → HasPage after p
    updated {p} true e' k =
        (new_state, page_in-put_page new_state p s.page_states ∙ rw e', page_eq→≡ slug p e')
    updated {p} false e' (q, found, own) =
        (q, page_in-put_page new_state p s.page_states ∙ rw (e', found), own)
call-IsSane (completing now) fault s h = go s.completed_at
  where
    go : (o : Option ℕ) → IsSane (complete_from o fault now s).0
    go none = record { current = refl; has_pages = h.has_pages }
    go (some t) = h
call-IsSane (resetting now) fault s h = new-IsSane now

-- After any calls on a new wizard, whether or not its file could be written: the current page is one
-- of the ten, and each of the ten has a state of its own.
pub calls-IsSane : (now : ℕ) (cs : List (Call × Bool)) → IsSane (calls cs (new now))
unfolding calls
calls-IsSane now cs = go cs (new now) (new-IsSane now)
  where
    go : (cs : List (Call × Bool)) (s : State) → IsSane s → IsSane (calls cs s)
    go [] s h = h
    go ((c, fault) ∷ cs) s h = go cs (call c fault s) (call-IsSane c fault s h)
