-- ===== src/Fake.antt =====
-- internal/adapters/fake/fake.go: the adapter that replays a script into the pipeline.
use readsync.Base.{
  ℕ, Bool, List, [], ◌∷◌, ◌++◌, Option, map, Text, ◌≡◌, refl, sym, ◌∙◌, append_assoc, append-nil,
  Bool-cases, inl, inr, if◌then◌else◌,
}
use readsync.Base.Double.{Double}
use readsync.Base.Int.{ℤ}
use readsync.Model.{Source, LocationType, ReadStatus}
use readsync.Resolver.Bands.{Evidence}
use readsync.Core.Event.{AdapterEvent}
use readsync.Core.Db.{Db}
use readsync.Core.Pipeline.{Outcome, done, process}
use readsync.Core.Resolve.{Env}
use readsync.Core.Pipeline.Integrity.History.{Arrival, arrived}

pub record ScriptedEvent (W : Type 0) : Type 0 where
  pub delay : ℕ
  pub book_evidence : Evidence
  pub percent_complete : Option W
  pub page_number : Option ℤ
  pub total_pages : Option ℤ
  pub raw_locator : Option Text
  pub locator_type : LocationType
  pub read_status : ReadStatus
  pub device_ts : Option ℕ

-- An event of the script with its wait: whether the context ends it, and the time and the faults that the
-- pipeline meets behind it.
pub record Turn (W : Type 0) : Type 0 where
  pub scripted : ScriptedEvent W
  pub is_cancelled : Bool
  pub now : ℕ
  pub faults : List Bool

-- What `Emitted` and `Errors` tell, with the database of the pipeline.
pub record Fake (W : Type 0) : Type 0 where
  pub db : Db W
  pub emitted : List (ScriptedEvent W)
  pub errors : List Outcome

abbrev pub note_error : Outcome → List Outcome → List Outcome
note_error done errors = errors
note_error e errors = errors ++ e ∷ []

module _ {W : Type 0} ⦃d : Double W⦄ (env : Env) (source : Source) where
  abbrev pub scripted_event : ScriptedEvent W → AdapterEvent W
  scripted_event se = record {
    book_evidence = se.book_evidence;
    source = source;
    device_ts = se.device_ts;
    percent_complete = se.percent_complete;
    page_number = se.page_number;
    total_pages = se.total_pages;
    raw_locator = se.raw_locator;
    locator_type = se.locator_type;
    read_status = se.read_status;
  }

  -- One event behind its wait: it is submitted, and an error is kept.
  abbrev pub emit_scripted : Turn W → Fake W → Fake W
  emit_scripted t f =
      let r = process env t.now t.faults (scripted_event t.scripted) f.db in
      record { db = r.1; emitted = f.emitted ++ t.scripted ∷ []; errors = note_error r.0 f.errors }

  pub replay : List (Turn W) → Fake W → Fake W
  replay [] f = f
  replay (t ∷ ts) f = let rest = replay ts (emit_scripted t f) in if t.is_cancelled then f else rest

  -- The turns that are played: those before a wait that is ended.
  abbrev played : List (Turn W) → List (Turn W)
  played [] = []
  played (t ∷ ts) = let rest = played ts in if t.is_cancelled then [] else t ∷ rest

  abbrev arrival_of : Turn W → Arrival W
  arrival_of t = record { now = t.now; faults = t.faults; event = scripted_event t.scripted }

  -- The fake adapter is a history of the pipeline: the database is that of the events before the wait that
  -- is ended, in the order of the script, and these are the events that it tells of, failed ones included.
  replay-arrived :
      (ts : List (Turn W)) (f : Fake W)
      → ((replay ts f).db ≡ arrived env (map arrival_of (played ts)) f.db)
        × ((replay ts f).emitted ≡ f.emitted ++ map (λ t. t.scripted) (played ts))
  unfolding replay arrived
  replay-arrived [] f = (refl, sym (append-nil f.emitted))
  replay-arrived (t ∷ ts) f = elim (Bool-cases t.is_cancelled) [
    | inl e ↦ rw (e, replay) (refl, sym (append-nil f.emitted))
    | inr e ↦
        let (db, emitted) = replay-arrived ts (emit_scripted t f) in
        rw (e, replay)
          (
            db,
            emitted ∙ append_assoc f.emitted (t.scripted ∷ []) (map (λ t. t.scripted) (played ts)),
          )
  ]
