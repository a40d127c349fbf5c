-- ===== src/Api/Routes.antt =====
-- internal/api/routes.go, the check of the CSRF token, and internal/api/handlers_writes.go, how the path of a
-- request chooses the handler of a conflict or of a job.
use readsync.Base.{
  ℕ, Bool, true, false, not, ◌&&◌, List, [], ◌∷◌, Option, none, some, Text, codes, is_empty,
  text_eq, text_eq_refl, ◌≡◌, refl, Option-cases, inl, inr, if◌then◌else◌,
}
use readsync.Base.Int.{ℤ, pos, negsuc}
use readsync.Base.Strings.Split.{split_on}
use readsync.Logging.{after_prefix}
use readsync.Api.{
  Tables, Response, Request, Winner, winner_a, winner_b, other_winner, resolving, dismissing,
  retrying, dropping, serve,
}

pub data Method : Type 0 where
  get head other_method : Method

-- A request, with the faults of the statements that it leads to.
pub record HttpRequest : Type 0 where
  pub method : Method
  pub csrf_header : Text
  pub csrf_field : Text
  pub path : Text
  pub winner : Text
  pub fault : Bool
  pub second_fault : Bool

-- The answer of the guard, of the routing, or of a handler.
pub data Reply : Type 0 where
  invalid_token bad_path bad_id unknown_verb not_found : Reply
  handled : Response → Reply

abbrev pub is_read : Method → Bool
is_read get = true
is_read head = true
is_read other_method = false

abbrev pub token_of : HttpRequest → Text
token_of r = if is_empty r.csrf_header then r.csrf_field else r.csrf_header

-- `csrf`.
abbrev pub csrf {ℓ} :
    {S : Type ℓ} → Text → (HttpRequest → S → Reply × S) → HttpRequest → S → Reply × S
csrf expected next r s =
    if not (is_read r.method) && not (text_eq (token_of r) expected)
    then (invalid_token, s)
    else next r s

abbrev pub trim_prefix : Text → Text → Text
trim_prefix p s = elim (after_prefix p s) [ none ↦ s | some rest ↦ rest ]

abbrev pub winner_of : Text → Winner
winner_of w =
    if text_eq w (codes "a")
    then winner_a
    else if text_eq w (codes "b")
    then winner_b
    else other_winner

-- The ids of rows are from 1 on: a negative id is no row's, and stands as 0.
abbrev pub row_id : ℤ → ℕ
row_id (pos n) = n
row_id (negsuc n) = 0

-- What a path asks for: an id and a verb, or the error.
pub data Route : Type 0 where
  routed : ℕ → Text → Route
  misrouted : Reply → Route

abbrev routed_id : Option ℤ → Text → Route
routed_id none verb = misrouted bad_id
routed_id (some id) verb = routed (row_id id) verb

abbrev route_parts : (Text → Option ℤ) → List Text → Route
route_parts parse_int (id ∷ verb ∷ []) = routed_id (parse_int id) verb
route_parts parse_int _ = misrouted bad_path

module _ {R : Type 0} (parse_int : Text → Option ℤ) (now : ℕ) where
  abbrev handled_by : Request → Option (Tables R) → Reply × Option (Tables R)
  handled_by request s = let r = serve request s in (handled r.0, r.1)

  abbrev on_conflict : HttpRequest → Route → Option (Tables R) → Reply × Option (Tables R)
  on_conflict r (misrouted e) s = (e, s)
  on_conflict r (routed id verb) s =
      if text_eq verb (codes "resolve")
      then handled_by (resolving r.fault r.second_fault now id (winner_of r.winner)) s
      else if text_eq verb (codes "dismiss")
      then handled_by (dismissing r.fault now id) s
      else (unknown_verb, s)

  -- `handleConflictAction`.
  abbrev pub handle_conflict_action : HttpRequest → Option (Tables R) → Reply × Option (Tables R)
  handle_conflict_action r s =
      on_conflict r
        (route_parts parse_int (split_on b'/' (trim_prefix (codes "/api/conflicts/") r.path))) s

  abbrev on_job : HttpRequest → Route → Option (Tables R) → Reply × Option (Tables R)
  on_job r (misrouted e) s = (e, s)
  on_job r (routed id verb) s =
      if text_eq verb (codes "retry")
      then handled_by (retrying r.fault now id) s
      else if text_eq verb (codes "drop")
      then handled_by (dropping r.fault id) s
      else (unknown_verb, s)

  -- `handleOutboxAction`.
  abbrev pub handle_outbox_action : HttpRequest → Option (Tables R) → Reply × Option (Tables R)
  handle_outbox_action r s =
      on_job r (route_parts parse_int (split_on b'/' (trim_prefix (codes "/api/outbox/") r.path))) s

  -- The two patterns of `routes` that lead to them.
  abbrev pub route : Text → HttpRequest → Option (Tables R) → Reply × Option (Tables R)
  route csrf_token r s = elim (after_prefix (codes "/api/conflicts/") r.path) [
    | some _ ↦ csrf csrf_token handle_conflict_action r s
    | none ↦ elim (after_prefix (codes "/api/outbox/") r.path) [
      | some _ ↦ csrf csrf_token handle_outbox_action r s
      | none ↦ (not_found, s)
    ]
  ]

  -- A request for the conflicts or the jobs that is neither GET nor HEAD and whose token is not that of the
  -- server changes no table. A GET without a token does what the same request does with another method
  -- and the token of the server.
  pub route-csrf_token :
      (csrf_token : Text) (r : HttpRequest) (s : Option (Tables R))
      → is_empty csrf_token ≡ false
      → ((is_read r.method ≡ false)
          → (text_eq (token_of r) csrf_token ≡ false)
          → (route csrf_token r s).1 ≡ s)
        × (route csrf_token (record r { method = get; csrf_header = []; csrf_field = [] }) s
            ≡ route csrf_token (record r { method = other_method; csrf_header = csrf_token }) s)
  route-csrf_token csrf_token r s given =
      elim (Option-cases (after_prefix (codes "/api/conflicts/") r.path)) [
        | inr (rest, e) ↦
            (λ m wrong. rw (e, m, wrong) refl, rw (e, given, text_eq_refl csrf_token) refl)
        | inl no_conflict ↦ elim (Option-cases (after_prefix (codes "/api/outbox/") r.path)) [
          | inr (rest, e) ↦ (
            λ m wrong. rw (no_conflict, e, m, wrong) refl,
            rw (no_conflict, e, given, text_eq_refl csrf_token) refl,
          )
          | inl e ↦ (λ m wrong. rw (no_conflict, e) refl, rw (no_conflict, e) refl)
        ]
      ]
