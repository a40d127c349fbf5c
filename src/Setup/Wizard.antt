-- ===== src/Setup/Wizard.antt =====
-- internal/setup/pages.go, wizard.go and persist.go: the wizard. `fault` says that its file cannot be
-- written; the state in memory is changed all the same.
pub mod Pages
use readsync.Base.{
  ℕ, Bool, true, false, not, List, [], ◌∷◌, Option, none, some, Text, if◌then◌else◌, is_some,
}

-- Any other text than that of a constant is `unknown_page`.
pub data PageSlug : Type 0 where
  welcome system_scan calibre goodreads_bridge koreader moon : PageSlug
  conflict_policy test_sync diagnostics finish : PageSlug
  unknown_page : PageSlug

pub data Status : Type 0 where
  pending running ok warn error skipped : Status

abbrev pub pages : List PageSlug
pages =
    welcome ∷ system_scan ∷ calibre ∷ goodreads_bridge ∷ koreader ∷ moon ∷ conflict_policy
    ∷ test_sync ∷ diagnostics ∷ finish ∷ []

abbrev pub page_eq : PageSlug → PageSlug → Bool
page_eq welcome welcome = true
page_eq system_scan system_scan = true
page_eq calibre calibre = true
page_eq goodreads_bridge goodreads_bridge = true
page_eq koreader koreader = true
page_eq moon moon = true
page_eq conflict_policy conflict_policy = true
page_eq test_sync test_sync = true
page_eq diagnostics diagnostics = true
page_eq finish finish = true
page_eq unknown_page unknown_page = true
page_eq _ _ = false

abbrev pub is_page_in : PageSlug → List PageSlug → Bool
is_page_in slug [] = false
is_page_in slug (s ∷ ss) = if page_eq s slug then true else is_page_in slug ss

abbrev pub valid_slug : PageSlug → Bool
valid_slug slug = is_page_in slug pages

-- The data that a page carries is not modelled.
pub record PageState : Type 0 where
  pub slug : PageSlug
  pub status : Status
  pub message : Text
  pub updated_at : ℕ

-- The map `Pages` is a list of states with different slugs.
pub record State : Type 0 where
  pub started_at : ℕ
  pub completed_at : Option ℕ
  pub current_page : PageSlug
  pub page_states : List PageState

abbrev pub pending_page : ℕ → PageSlug → PageState
pending_page now slug = record {
  slug = slug;
  status = Status.pending;
  message = [];
  updated_at = now;
}

abbrev pub all_pending : ℕ → List PageSlug → List PageState
all_pending now [] = []
all_pending now (s ∷ ss) = pending_page now s ∷ all_pending now ss

-- `New`, and the state that `Reset` sets.
pub new : ℕ → State
new now = record {
  started_at = now;
  completed_at = none;
  current_page = PageSlug.welcome;
  page_states = all_pending now pages;
}

abbrev pub page_in : PageSlug → List PageState → Option PageState
page_in slug [] = none
page_in slug (p ∷ ps) = if page_eq p.slug slug then some p else page_in slug ps

-- `w.state.Pages[slug] = …`.
abbrev pub put_page : PageState → List PageState → List PageState
put_page q [] = q ∷ []
put_page q (p ∷ ps) = if page_eq p.slug q.slug then q ∷ ps else p ∷ put_page q ps

abbrev pub needs_setup : State → Bool
needs_setup s = not (is_some s.completed_at)

-- Each change of the state, with whether it gives no error.
pub set_current : Bool → PageSlug → State → State × Bool
set_current fault slug s =
    if not (valid_slug slug) then (s, false) else (record s { current_page = slug }, not fault)

pub update_page : Bool → ℕ → PageSlug → Status → Text → State → State × Bool
update_page fault now slug status msg s = if not (valid_slug slug) then (s, false) else (
  record s {
    page_states =
        put_page (record { slug = slug; status = status; message = msg; updated_at = now })
          s.page_states;
  },
  not fault,
)

abbrev pub complete_from : Option ℕ → Bool → ℕ → State → State × Bool
complete_from (some _) fault now s = (s, true)
complete_from none fault now s =
    (record s { completed_at = some now; current_page = PageSlug.finish }, not fault)

pub complete : Bool → ℕ → State → State × Bool
complete fault now s = complete_from s.completed_at fault now s

pub reset : Bool → ℕ → State → State × Bool
unfolding new
reset fault now s = (new now, not fault)

-- The loops of `NextPage` and `PrevPage`, behind the page `prev`.
abbrev pub page_after : PageSlug → List PageSlug → Option PageSlug
page_after cur [] = none
page_after cur (s ∷ []) = none
page_after cur (s ∷ t ∷ ss) = if page_eq s cur then some t else page_after cur (t ∷ ss)

abbrev pub page_before : PageSlug → PageSlug → List PageSlug → Option PageSlug
page_before cur prev [] = none
page_before cur prev (s ∷ ss) = if page_eq s cur then some prev else page_before cur s ss

abbrev pub behind_first : PageSlug → List PageSlug → Option PageSlug
behind_first cur [] = none
behind_first cur (s ∷ ss) = page_before cur s ss

pub next_page : State → Option PageSlug
next_page s = page_after s.current_page pages

pub prev_page : State → Option PageSlug
prev_page s = behind_first s.current_page pages
